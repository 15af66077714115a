-- ===== src/Model/History/Keeping.antt =====
-- The calls that start no span and the tree of spans, model/trace.go and model/span.go.
use oida.Prelude.{
  ◌==◌, if◌then◌else◌, Option-cases, if-split, length, set, length-set, ℤ, pos, sub_ℕ, leb_ℤ, Text,
  ℕ, zero, suc, ◌+◌, ◌≤◌, ◌≡◌, refl, sym, ap, ◌∙◌, inl, inr, Bool, true, ◌&&◌, ◌||◌, Option, none,
  some, List, [], ◌∷◌, reverse, arith,
}
use oida.Model.State.{State}
use oida.Model.Data.{Value, GoError, Span, Trace, span_at}
use oida.Model.Clock.{time, stamp-lt}
use oida.Model.Recording.{set_state, record_error, set_response}
use oida.Model.Spans.{
  remove_last, filter_debug_span, put_span, end_span, record_span_error, set_debug,
}
use oida.Model.Finishing.{end_each, complete, finish}
use oida.Model.Details.{
  Detail, SpanDetail, describe, describe_span, describe-Aside, describe_span-keeps, core, core_at,
}
use oida.Model.Logs.{append_log}
use oida.Model.Timing.{boxed, last}
use oida.Model.History.Shape.{Rising}

-- What a call leaves alone that starts no span.
pub record Keeps (t u : Trace) : Type 0 where
  pub live : boxed u ≡ boxed t
  pub counted : u.sequence ≡ t.sequence
  pub size : length u.store ≡ length t.store
  pub cores : (i : ℕ) → core_at u.store i ≡ core_at t.store i
  pub later : last t ≤ last u
  pub rising : (n : ℕ) → Rising 0 t.spans n → Rising 0 u.spans n

Keeps-refl : (t : Trace) → Keeps t t
Keeps-refl t = record {
  live = refl;
  counted = refl;
  size = refl;
  cores = λ i. refl;
  later = omega arith;
  rising = λ n r. r;
}

Keeps-trans : {t u w : Trace} → Keeps t u → Keeps u w → Keeps t w
Keeps-trans h k = record {
  live = k.live ∙ h.live;
  counted = k.counted ∙ h.counted;
  size = k.size ∙ h.size;
  cores = λ i. k.cores i ∙ h.cores i;
  later = omega arith;
  rising = λ n r. k.rising n (h.rising n r);
}

-- A call that does not touch the spans.
pub record Apart (t u : Trace) : Type 0 where
  pub live : boxed u ≡ boxed t
  pub later : last t ≤ last u
  pub counted : u.sequence ≡ t.sequence
  pub store : u.store ≡ t.store
  pub spans : u.spans ≡ t.spans

pub Apart-Keeps : {t u : Trace} → Apart t u → Keeps t u
Apart-Keeps a = record {
  live = a.live;
  counted = a.counted;
  size = ap length a.store;
  cores = λ i. ap (λ s. core_at s i) a.store;
  later = a.later;
  rising = λ n r. rw a.spans r;
}

pub set_state-Apart : (raw : ℕ) (s : State) (t : Trace) → Apart t (set_state raw s t)
unfolding set_state
set_state-Apart raw s t = ground (arith, stamp-lt (last t) raw)

pub record_error-Apart : (raw : ℕ) (e : Option GoError) (t : Trace) → Apart t (record_error raw e t)
unfolding record_error
record_error-Apart raw e t = ground (arith, stamp-lt (last t) raw)

pub complete-Apart : (raw : ℕ) (t : Trace) → Apart t (complete raw t)
unfolding complete
complete-Apart raw t = ground (arith, stamp-lt (last t) raw)

time-Apart : (raw : ℕ) (t : Trace) → Apart t (time raw t).1
unfolding time
time-Apart raw t = ground (arith, stamp-lt (last t) raw)

pub append_log-Apart :
    (sprint : Value → Text) (raw : ℕ) (level : Text) (i : ℕ) (message : Text) (args : List Value)
    (t : Trace)
    → Apart t (append_log sprint raw level i message args t)
unfolding append_log
append_log-Apart sprint raw level i message args t = ground (arith, stamp-lt (last t) raw)

core_at-set :
    (store : List Span) (i j : ℕ) (s : Span)
    → core s ≡ core_at store i
    → core_at (set store i s) j ≡ core_at store j
core_at-set [] i j s h = refl
core_at-set (x ∷ xs) zero zero s h = h
core_at-set (x ∷ xs) zero (suc j) s h = refl
core_at-set (x ∷ xs) (suc i) zero s h = refl
core_at-set (x ∷ xs) (suc i) (suc j) s h = core_at-set xs i j s h

put_span-Keeps :
    (i : ℕ) (s : Span) (t : Trace) → core s ≡ core_at t.store i → Keeps t (put_span i s t)
unfolding put_span
put_span-Keeps i s t h = record {
  live = refl;
  counted = refl;
  size = length-set t.store i s;
  cores = λ j. core_at-set t.store i j s h;
  later = omega arith;
  rising = λ n r. r;
}

Rising-weaker : (j k : ℕ) (xs : List ℕ) (n : ℕ) → j ≤ k → Rising k xs n → Rising j xs n
Rising-weaker j k [] n h r = tt
Rising-weaker j k (x ∷ xs) n h r = (omega arith, r.1, r.2)

Rising-remove_last :
    (i k : ℕ) (xs ys : List ℕ) (n : ℕ) → remove_last i xs ≡ some ys → Rising k xs n → Rising k ys n
unfolding remove_last
Rising-remove_last i k [] ys n h r = cc
Rising-remove_last i k (x ∷ xs) ys n h r = elim (Option-cases (remove_last i xs)) [
  | inl e ↦ ground (arith, Rising-weaker k (suc x) xs n)
  | inr (zs, e) ↦ ground (arith, Rising-remove_last i (suc x) xs zs n e r.2)
]

filter_debug_span-Keeps : (i : ℕ) (d : ℤ) (t : Trace) → Keeps t (filter_debug_span i d t)
unfolding filter_debug_span
filter_debug_span-Keeps i d t =
    if-split (Keeps t) (t.debug_min_span == 0 || leb_ℤ (pos t.debug_min_span) d) (λ _. Keeps-refl t)
      λ _.
        if-split (Keeps t) t.finished (λ _. Keeps-refl t)
          λ _. elim (Option-cases (remove_last i t.spans)) [
            | inl e ↦ rw e (Keeps-refl t)
            | inr (ys, e) ↦ rw e (removed ys e)
          ]
  where
    removed :
        (ys : List ℕ)
        → remove_last i t.spans ≡ some ys
        → Keeps t (record t { spans = ys; dropped_spans = t.dropped_spans + 1 })
    removed ys e = record {
      live = refl;
      counted = refl;
      size = refl;
      cores = λ j. refl;
      later = omega arith;
      rising = λ n r. Rising-remove_last i 0 t.spans ys n e r;
    }

-- The trace after the span is closed and before the filter.
pub closed : ℕ → ℕ → Trace → Trace
closed raw i t =
    let (now, t') = if (span_at i t).attached then time raw t else (raw, t) in
    put_span i
      (record (span_at i t) { ended = true; duration = sub_ℕ now (span_at i t).started_at }) t'

reading-Apart : (raw : ℕ) (b : Bool) (t : Trace) → Apart t (if b then time raw t else (raw, t)).1
reading-Apart raw b t =
    if-split {A = ℕ × Trace} (λ r. Apart t r.1) b (λ _. time-Apart raw t)
      λ _. record { live = refl; later = omega arith; counted = refl; store = refl; spans = refl }

closed-Keeps : (raw i : ℕ) (t : Trace) → Keeps t (closed raw i t)
unfolding closed
closed-Keeps raw i t =
    let a = reading-Apart raw (span_at i t).attached t in
    Keeps-trans (Apart-Keeps a) (put_span-Keeps i _ _ (ap (λ s. core_at s i) (sym a.store)))

pub end_span-Keeps : (raw i : ℕ) (t : Trace) → Keeps t (end_span raw i t)
unfolding end_span closed
end_span-Keeps raw i t =
    if-split (Keeps t) (span_at i t).ended (λ _. Keeps-refl t)
      λ _.
        if-split (Keeps t) ((span_at i t).debug && (span_at i t).attached)
          (λ _. Keeps-trans (closed-Keeps raw i t) (filter_debug_span-Keeps i _ _))
          (λ _. closed-Keeps raw i t)

end_each-Keeps : (answers : ℕ → ℕ) (is : List ℕ) (t : Trace) → Keeps t (end_each answers is t)
unfolding end_each
end_each-Keeps answers [] t = Keeps-refl t
end_each-Keeps answers (i ∷ is) t =
    Keeps-trans (end_span-Keeps (answers 0) i t)
      (end_each-Keeps (λ k. answers (suc k)) is (end_span (answers 0) i t))

pub finish-Keeps : (raw : ℕ) (answers : ℕ → ℕ) (t : Trace) → Keeps t (finish raw answers t)
unfolding finish
finish-Keeps raw answers t =
    if-split (Keeps t) t.finished (λ _. Keeps-refl t)
      λ _.
        Keeps-trans (Apart-Keeps (complete-Apart raw t))
          (end_each-Keeps answers (reverse t.spans) (complete raw t))

pub record_span_error-Keeps :
    (raw : ℕ) (e : Option GoError) (i : ℕ) (t : Trace) → Keeps t (record_span_error raw e i t)
unfolding record_span_error
record_span_error-Keeps raw none i t = Keeps-refl t
record_span_error-Keeps raw (some e) i t =
    let s = record (span_at i t) { err = some e; error_text = e.message } in
    let kept = put_span-Keeps i s t refl in
    if-split (Keeps t) (span_at i t).attached
      (λ _. Keeps-trans kept (Apart-Keeps (record_error-Apart raw (some e) (put_span i s t))))
      (λ _. kept)

pub set_response-Apart :
    (raw : ℕ) (status bytes : ℤ) (route : Text) (t : Trace)
    → Apart t (set_response raw status bytes route t)
unfolding set_response
set_response-Apart raw status bytes route t = ground (arith, stamp-lt (last t) raw)

pub describe-Apart : (d : Detail) (t : Trace) → Apart t (describe d t)
describe-Apart d t =
    let a = describe-Aside d t in
    record {
      live = rw a.box refl;
      later = rw a.box (omega arith);
      counted = a.sequence;
      store = a.store;
      spans = a.spans;
    }

pub describe_span-Keeps : (d : SpanDetail) (i : ℕ) (t : Trace) → Keeps t (describe_span d i t)
describe_span-Keeps d i t =
    describe_span-keeps (Keeps t) d i t (Keeps-refl t) (λ s c. put_span-Keeps i s t c)

pub set_debug-Keeps : (i : ℕ) (t : Trace) → Keeps t (set_debug i t)
unfolding set_debug
set_debug-Keeps i t = put_span-Keeps i _ t refl
