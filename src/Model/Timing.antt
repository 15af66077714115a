-- ===== src/Model/Timing.antt =====
-- The time that a trace accounts for, model/trace.go and model/clock.go: an invariant of its
-- readings and of the time per state.
use oida.Prelude.{
  if-split, length, ℤ, pos, pos_part, neg_part, sub_ℕ, ◌+ℤ◌, sub_ℕ_parts, +ℤ_parts, eq_of_parts,
  int_laws, Text, ℕ, zero, suc, ◌≤◌, ◌<◌, ◌≡◌, refl, sym, ap, ◌∙◌, Bool, true, false, Option, none,
  some, List, [], ◌∷◌, reverse, arith,
}
use oida.Model.State.{State, num_states, state_index, state_index-lt}
use oida.Model.Data.{Value, GoError, Span, Trace, TraceOptions, span_at}
use oida.Model.Clock.{time, stamp-lt}
use oida.Model.Recording.{new_trace, add_at, enter, set_state, record_error, set_response}
use oida.Model.Spans.{at_limit, append_span, put_span, end_span, record_span_error, set_debug}
use oida.Model.Finishing.{end_each, complete, finish, total}
use oida.Model.Details.{
  Detail, SpanDetail, describe, describe_span, describe-Aside, describe_span-keeps,
}
use oida.Model.Logs.{write_log, append_log}

abbrev pub boxed : Trace → Bool
boxed t = elim t.box [ none ↦ false | some b ↦ true ]

-- The last recorded reading.
abbrev pub last : Trace → ℕ
last t = elim t.box [ none ↦ 0 | some b ↦ b.last_nanos ]

pub record IsTimed (t : Trace) : Type 0 where
  pub live : boxed t ≡ true
  pub started : t.started_at ≤ t.changed_at
  pub changed : t.changed_at ≤ last t
  pub slots : length t.state_time ≡ num_states
  pub accounted : total t.state_time ≡ sub_ℕ t.changed_at t.started_at

+ℤ_assoc : (a b c : ℤ) → (a +ℤ b) +ℤ c ≡ a +ℤ (b +ℤ c)
+ℤ_assoc a b c = omega int_laws

pub length-add_at : (i : ℕ) (d : ℤ) (xs : List ℤ) → length (add_at i d xs) ≡ length xs
unfolding add_at
length-add_at i d [] = refl
length-add_at zero d (x ∷ xs) = refl
length-add_at (suc i) d (x ∷ xs) = ap suc (length-add_at i d xs)

pub total-add_at :
    (i : ℕ) (d : ℤ) (xs : List ℤ) → i < length xs → total (add_at i d xs) ≡ total xs +ℤ d
unfolding total add_at
total-add_at i d [] h = elim h [ ]
total-add_at zero d (x ∷ xs) h = omega int_laws
total-add_at (suc i) d (x ∷ xs) h =
    ap (◌+ℤ◌ x) (total-add_at i d xs (omega arith)) ∙ sym (+ℤ_assoc x (total xs) d)

-- Adding the time since the last change keeps the sum right.
pub total-accrued :
    (s : State) (a b c : ℕ) (xs : List ℤ)
    → length xs ≡ num_states
    → total xs ≡ sub_ℕ b a
    → total (add_at (state_index s) (sub_ℕ c b) xs) ≡ sub_ℕ c a
total-accrued s a b c xs l h =
    total-add_at (state_index s) (sub_ℕ c b) xs (omega (arith, state_index-lt s))
    ∙ omega (arith, sub_ℕ_parts, +ℤ_parts, eq_of_parts, ap pos_part h, ap neg_part h)

-- A recorded reading comes strictly after the last one.
pub time-grows :
    (raw : ℕ) (t : Trace)
    → boxed t ≡ true
    → (last t < (time raw t).0) × (last (time raw t).1 ≡ (time raw t).0)
unfolding time
time-grows raw t v = ground (arith, stamp-lt (last t) raw)

pub set_state-IsTimed : (raw : ℕ) (s : State) (t : Trace) → IsTimed t → IsTimed (set_state raw s t)
unfolding set_state enter
set_state-IsTimed raw s t v = ground (
  arith,
  stamp-lt (last t) raw,
  length-add_at (state_index t.state) (sub_ℕ (time raw t).0 t.changed_at) t.state_time,
  total-accrued t.state t.started_at t.changed_at (time raw t).0 t.state_time,
)

pub record_error-IsTimed :
    (raw : ℕ) (e : Option GoError) (t : Trace) → IsTimed t → IsTimed (record_error raw e t)
unfolding record_error enter
record_error-IsTimed raw none t v = v
record_error-IsTimed raw (some e) t v = ground (
  arith,
  stamp-lt (last t) raw,
  length-add_at (state_index t.state) (sub_ℕ (time raw t).0 t.changed_at) t.state_time,
  total-accrued t.state t.started_at t.changed_at (time raw t).0 t.state_time,
)

pub append_span-IsTimed :
    (raw : ℕ) (parent : Option Span) (name kind : Text) (t : Trace)
    → IsTimed t
    → IsTimed (append_span raw parent name kind t).1
unfolding append_span
append_span-IsTimed raw parent name kind t v = ground (arith, stamp-lt (last t) raw)

pub end_span-IsTimed : (raw i : ℕ) (t : Trace) → IsTimed t → IsTimed (end_span raw i t)
unfolding end_span
end_span-IsTimed raw i t v = ground (arith, stamp-lt (last t) raw)

pub complete-IsTimed : (raw : ℕ) (t : Trace) → IsTimed t → IsTimed (complete raw t)
unfolding complete
complete-IsTimed raw t v = ground (
  arith,
  stamp-lt (last t) raw,
  length-add_at (state_index t.state) (sub_ℕ (time raw t).0 t.changed_at) t.state_time,
  total-accrued t.state t.started_at t.changed_at (time raw t).0 t.state_time,
)

pub end_each-IsTimed :
    (answers : ℕ → ℕ) (is : List ℕ) (t : Trace) → IsTimed t → IsTimed (end_each answers is t)
unfolding end_each
end_each-IsTimed answers [] t v = v
end_each-IsTimed answers (i ∷ is) t v =
    end_each-IsTimed (λ k. answers (suc k)) is (end_span (answers 0) i t)
      (end_span-IsTimed (answers 0) i t v)

pub finish-IsTimed :
    (raw : ℕ) (answers : ℕ → ℕ) (t : Trace) → IsTimed t → IsTimed (finish raw answers t)
unfolding finish
finish-IsTimed raw answers t v =
    if-split IsTimed t.finished (λ _. v)
      λ _. end_each-IsTimed answers (reverse t.spans) (complete raw t) (complete-IsTimed raw t v)

put_span-IsTimed : (i : ℕ) (s : Span) (t : Trace) → IsTimed t → IsTimed (put_span i s t)
unfolding put_span
put_span-IsTimed i s t v = ground arith

pub record_span_error-IsTimed :
    (raw : ℕ) (e : Option GoError) (i : ℕ) (t : Trace)
    → IsTimed t
    → IsTimed (record_span_error raw e i t)
unfolding record_span_error put_span
record_span_error-IsTimed raw none i t v = v
record_span_error-IsTimed raw (some e) i t v =
    let s = span_at i t in
    let kept = put_span-IsTimed i (record s { err = some e; error_text = e.message }) t v in
    if-split IsTimed s.attached (λ _. record_error-IsTimed raw (some e) _ kept) (λ _. kept)

pub describe-IsTimed : (d : Detail) (t : Trace) → IsTimed t → IsTimed (describe d t)
describe-IsTimed d t v =
    let a = describe-Aside d t in
    record {
      live = rw a.box v.live;
      started = rw (a.started_at, a.changed_at) v.started;
      changed = rw (a.changed_at, a.box) v.changed;
      slots = rw a.state_time v.slots;
      accounted = rw (a.state_time, a.changed_at, a.started_at) v.accounted;
    }

pub describe_span-IsTimed :
    (d : SpanDetail) (i : ℕ) (t : Trace) → IsTimed t → IsTimed (describe_span d i t)
describe_span-IsTimed d i t v =
    describe_span-keeps IsTimed d i t v (λ s c. put_span-IsTimed i s t v)

pub set_debug-IsTimed : (i : ℕ) (t : Trace) → IsTimed t → IsTimed (set_debug i t)
unfolding set_debug
set_debug-IsTimed i t v = ground arith

pub append_log-IsTimed :
    (sprint : Value → Text) (raw : ℕ) (level : Text) (i : ℕ) (message : Text) (args : List Value)
    (t : Trace)
    → IsTimed t
    → IsTimed (append_log sprint raw level i message args t)
unfolding append_log write_log time at_limit
append_log-IsTimed sprint raw level i message args t v = ground (arith, stamp-lt (last t) raw)

pub set_response-IsTimed :
    (raw : ℕ) (status bytes : ℤ) (route : Text) (t : Trace)
    → IsTimed t
    → IsTimed (set_response raw status bytes route t)
unfolding set_response
set_response-IsTimed raw status bytes route t v = ground (arith, stamp-lt (last t) raw)

sub_ℕ_self : (n : ℕ) → sub_ℕ n n ≡ pos 0
unfolding sub_ℕ
sub_ℕ_self n = ground arith

pub new_trace-IsTimed :
    (now : ℕ) (id name : Text) (opts : TraceOptions) → IsTimed (new_trace now id name opts)
unfolding new_trace total ◌+ℤ◌
new_trace-IsTimed now id name opts = record {
  live = refl;
  started = omega arith;
  changed = omega arith;
  slots = refl;
  accounted = unfold sub_ℕ in sym (sub_ℕ_self now);
}
