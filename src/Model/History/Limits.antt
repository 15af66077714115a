-- ===== src/Model/History/Limits.antt =====
-- The limits of a trace: how many spans and log lines it holds, and what it counts as dropped.
use oida.Prelude.{
  if◌then◌else◌, Option-cases, if-split, length, length-append, ℤ, sub_ℕ, Text, ℕ, suc, ◌+◌, ◌≤◌,
  ◌≡◌, refl, ◌∙◌, ◌⊎◌, inl, inr, true, ◌&&◌, Option, some, List, [], ◌∷◌, reverse, arith,
}
use oida.Model.State.{State}
use oida.Model.Data.{Value, GoError, Trace, TraceOptions, span_at}
use oida.Model.Clock.{time}
use oida.Model.Recording.{new_trace, set_state, record_error, set_response}
use oida.Model.Spans.{
  at_limit, append_span, remove_last, filter_debug_span, put_span, end_span, record_span_error,
  set_debug,
}
use oida.Model.Finishing.{end_each, complete, finish}
use oida.Model.Details.{
  Detail, SpanDetail, describe, describe_span, describe-Aside, describe_span-keeps,
}
use oida.Model.Logs.{log_attributes, attributed, write_log, append_log}
use oida.Model.History.{
  Call, enters, fails, starts, ends, fails_span, marks_debug, writes, responds, details,
  details_span, finishes, own, step, run, run-keeps,
}

-- What the counters add up to: the spans and log lines recorded or dropped.
abbrev spans_seen : Trace → ℕ
spans_seen t = length t.spans + t.dropped_spans

abbrev logs_seen : Trace → ℕ
logs_seen t = length t.logs + t.dropped_logs

pub record IsLimited (t : Trace) : Type 0 where
  pub spans_fit : (t.max_spans ≡ 0) ⊎ (length t.spans ≤ t.max_spans)
  pub logs_fit : (t.max_spans ≡ 0) ⊎ (length t.logs ≤ t.max_spans)

-- What one call adds to the spans and to the log lines that a trace has seen.
abbrev adds_span : Call → Trace → ℕ
adds_span (starts parent name kind) t = if t.finished then 0 else 1
adds_span _ t = 0

abbrev adds_log : Call → Trace → ℕ
adds_log (writes level i message args) t = if t.finished then 0 else 1
adds_log _ t = 0

-- One call keeps the limits, and the counters account for it.
pub record Counted (c : Call) (t u : Trace) : Type 0 where
  pub limit : u.max_spans ≡ t.max_spans
  pub spans : spans_seen u ≡ spans_seen t + adds_span c t
  pub logs : logs_seen u ≡ logs_seen t + adds_log c t
  pub fits : IsLimited t → IsLimited u

-- The same for what only takes spans off the list.
record Kept (t u : Trace) : Type 0 where
  limit : u.max_spans ≡ t.max_spans
  fewer : length u.spans ≤ length t.spans
  spans : spans_seen u ≡ spans_seen t
  logs : u.logs ≡ t.logs
  dropped : u.dropped_logs ≡ t.dropped_logs

length-remove_last :
    (i : ℕ) (is js : List ℕ) → remove_last i is ≡ some js → length is ≡ suc (length js)
unfolding remove_last
length-remove_last i [] js h = cc
length-remove_last i (k ∷ is) js h = elim (Option-cases (remove_last i is)) [
  | inl n ↦ ground arith
  | inr (ks, e) ↦ ground (arith, length-remove_last i is ks)
]

filter_debug_span-Kept : (i : ℕ) (d : ℤ) (t : Trace) → Kept t (filter_debug_span i d t)
unfolding filter_debug_span
filter_debug_span-Kept i d t = elim (Option-cases (remove_last i t.spans)) [
  | inl n ↦ ground arith
  | inr (ks, e) ↦ ground (arith, length-remove_last i t.spans ks e)
]

Kept-refl : (t : Trace) → Kept t t
Kept-refl t = record {
  limit = refl;
  fewer = omega arith;
  spans = refl;
  logs = refl;
  dropped = refl;
}

Kept-trans : {t u w : Trace} → Kept t u → Kept u w → Kept t w
Kept-trans h k = record {
  limit = k.limit ∙ h.limit;
  fewer = omega arith;
  spans = k.spans ∙ h.spans;
  logs = k.logs ∙ h.logs;
  dropped = k.dropped ∙ h.dropped;
}

-- The trace after the span is closed and before the filter.
closed : ℕ → ℕ → Trace → Trace
closed raw i t =
    let (now, t') = if (span_at i t).attached then time raw t else (raw, t) in
    put_span i
      (record (span_at i t) { ended = true; duration = sub_ℕ now (span_at i t).started_at }) t'

closed-Kept : (raw i : ℕ) (t : Trace) → Kept t (closed raw i t)
unfolding closed time put_span
closed-Kept raw i t = ground arith

end_span-Kept : (raw i : ℕ) (t : Trace) → Kept t (end_span raw i t)
unfolding end_span closed
end_span-Kept raw i t =
    if-split (Kept t) (span_at i t).ended (λ _. Kept-refl t)
      λ _.
        if-split (Kept t) ((span_at i t).debug && (span_at i t).attached)
          (λ _. Kept-trans (closed-Kept raw i t) (filter_debug_span-Kept i _ _))
          (λ _. closed-Kept raw i t)

set_state-Kept : (raw : ℕ) (s : State) (t : Trace) → Kept t (set_state raw s t)
unfolding set_state
set_state-Kept raw s t = ground arith

record_error-Kept : (raw : ℕ) (e : Option GoError) (t : Trace) → Kept t (record_error raw e t)
unfolding record_error
record_error-Kept raw e t = ground arith

record_span_error-Kept :
    (raw : ℕ) (e : Option GoError) (i : ℕ) (t : Trace) → Kept t (record_span_error raw e i t)
unfolding record_span_error
record_span_error-Kept raw e i t = ground arith

set_debug-Kept : (i : ℕ) (t : Trace) → Kept t (set_debug i t)
unfolding set_debug
set_debug-Kept i t = ground arith

complete-Kept : (raw : ℕ) (t : Trace) → Kept t (complete raw t)
unfolding complete
complete-Kept raw t = ground arith

set_response-Kept :
    (raw : ℕ) (status bytes : ℤ) (route : Text) (t : Trace)
    → Kept t (set_response raw status bytes route t)
unfolding set_response
set_response-Kept raw status bytes route t = ground arith

describe-Kept : (d : Detail) (t : Trace) → Kept t (describe d t)
describe-Kept d t =
    let a = describe-Aside d t in
    record {
      limit = a.max_spans;
      fewer = rw a.spans (omega arith);
      spans = rw (a.spans, a.dropped_spans) refl;
      logs = a.logs;
      dropped = a.dropped_logs;
    }

describe_span-Kept : (d : SpanDetail) (i : ℕ) (t : Trace) → Kept t (describe_span d i t)
unfolding put_span
describe_span-Kept d i t =
    describe_span-keeps (Kept t) d i t (Kept-refl t)
      λ s c. record { limit = refl; fewer = omega arith; spans = refl; logs = refl; dropped = refl }

end_each-Kept : (answers : ℕ → ℕ) (is : List ℕ) (t : Trace) → Kept t (end_each answers is t)
unfolding end_each
end_each-Kept answers [] t = Kept-refl t
end_each-Kept answers (i ∷ is) t =
    Kept-trans (end_span-Kept (answers 0) i t)
      (end_each-Kept (λ k. answers (suc k)) is (end_span (answers 0) i t))

finish-Kept : (raw : ℕ) (answers : ℕ → ℕ) (t : Trace) → Kept t (finish raw answers t)
unfolding finish
finish-Kept raw answers t =
    if-split (Kept t) t.finished (λ _. Kept-refl t)
      λ _.
        Kept-trans (complete-Kept raw t) (end_each-Kept answers (reverse t.spans) (complete raw t))

append_span-Counted :
    (raw : ℕ) (parent : Option ℕ) (name kind : Text) (t : Trace)
    → Counted (starts parent name kind) t (append_span raw (own parent t) name kind t).1
unfolding append_span
append_span-Counted raw parent name kind t =
    ground (arith, length-append t.spans (length t.store ∷ []))

append_log-Counted :
    (sprint : Value → Text) (raw : ℕ) (level : Text) (i : ℕ) (message : Text) (args : List Value)
    (t : Trace)
    → Counted (writes level i message args) t (append_log sprint raw level i message args t)
unfolding append_log write_log time at_limit
append_log-Counted sprint raw level i message args t = ground (
  arith,
  length-append t.logs (
      record {
        at = (time raw t).0;
        level = level;
        message = message;
        span_id = attributed sprint i t;
        request_id = t.id;
        attributes = log_attributes sprint args;
      }
      ∷ []),
)

-- A call that only takes spans off the list is accounted for if it adds nothing.
Kept-Counted :
    (c : Call) {t u : Trace} → adds_span c t ≡ 0 → adds_log c t ≡ 0 → Kept t u → Counted c t u
Kept-Counted c {t} {u} hs hl k = record {
  limit = k.limit;
  spans = omega (arith, k.spans);
  logs = rw (k.logs, k.dropped) (omega arith);
  fits = λ v. record {
    spans_fit = omega (arith, v.spans_fit, k.limit, k.fewer);
    logs_fit = rw (k.limit, k.logs) v.logs_fit;
  };
}

new_trace-IsLimited :
    (now : ℕ) (id name : Text) (opts : TraceOptions) → IsLimited (new_trace now id name opts)
unfolding new_trace
new_trace-IsLimited now id name opts = omega arith

module _ (sprint : Value → Text) where
  -- Each call adds to what the trace has seen, which is what it holds and what it counts as
  -- dropped, exactly one span if it starts a span and one line if it writes a line, and nothing
  -- once the trace has finished; and it keeps the trace within its limits.
  pub step-Counted : (raw : ℕ) (c : Call) (t : Trace) → Counted c t (step sprint raw c t)
  unfolding step
  step-Counted raw (enters s) t = Kept-Counted (enters s) refl refl (set_state-Kept raw s t)
  step-Counted raw (fails e) t = Kept-Counted (fails e) refl refl (record_error-Kept raw e t)
  step-Counted raw (starts parent name kind) t = append_span-Counted raw parent name kind t
  step-Counted raw (ends i) t = Kept-Counted (ends i) refl refl (end_span-Kept raw i t)
  step-Counted raw (fails_span e i) t =
      Kept-Counted (fails_span e i) refl refl (record_span_error-Kept raw e i t)
  step-Counted raw (marks_debug i) t = Kept-Counted (marks_debug i) refl refl (set_debug-Kept i t)
  step-Counted raw (writes level i message args) t =
      append_log-Counted sprint raw level i message args t
  step-Counted raw (responds status bytes route) t =
      Kept-Counted (responds status bytes route) refl refl
        (set_response-Kept raw status bytes route t)
  step-Counted raw (details d) t = Kept-Counted (details d) refl refl (describe-Kept d t)
  step-Counted raw (details_span d i) t =
      Kept-Counted (details_span d i) refl refl (describe_span-Kept d i t)
  step-Counted raw (finishes answers) t =
      Kept-Counted (finishes answers) refl refl (finish-Kept raw answers t)

  -- Whatever calls are made on a new trace, it holds at most as many spans and as many log lines
  -- as its options allow, where they set a limit.
  run-IsLimited :
      (now : ℕ) (id name : Text) (opts : TraceOptions) (cs : List (ℕ × Call))
      → IsLimited (run sprint cs (new_trace now id name opts))
  run-IsLimited now id name opts cs =
      run-keeps sprint IsLimited (λ raw c t v. (step-Counted raw c t).fits v) cs
        (new_trace now id name opts) (new_trace-IsLimited now id name opts)
