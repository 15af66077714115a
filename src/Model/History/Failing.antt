-- ===== src/Model/History/Failing.antt =====
-- Failures of a trace over its histories, model/trace.go.
use oida.Prelude.{
  if-split, Text, ℕ, suc, ◌≡◌, refl, ◌∙◌, true, Option, none, some, List, [], ◌∷◌, reverse, arith,
  ℤ,
}
use oida.Model.State.{State}
use oida.Model.Data.{Value, GoError, Span, Trace, span_at}
use oida.Model.Clock.{time}
use oida.Model.Recording.{enter, set_state, record_error, set_response, failed}
use oida.Model.Spans.{
  take_slot, allocate, append_span, filter_debug_span, put_span, close, end_span, record_span_error,
  set_debug,
}
use oida.Model.Finishing.{complete, end_each, finish}
use oida.Model.Details.{
  Detail, SpanDetail, describe, describe_span, describe-Aside, describe_span-keeps,
}
use oida.Model.Logs.{append_log, write_log}
use oida.Model.History.{
  Call, enters, fails, starts, ends, fails_span, marks_debug, writes, responds, details,
  details_span, finishes, own, step, run, run-keeps,
}

abbrev HasFailed : Trace → Type 0
HasFailed t = failed t ≡ true

-- The same in what `failed` reads, and in the ID.
abbrev pub Agrees : Trace → Trace → Type 0
Agrees t u = (u.error_text ≡ t.error_text) × (u.state ≡ t.state) × (u.id ≡ t.id)

pub Agrees-failed : (t u : Trace) → Agrees t u → failed u ≡ failed t
Agrees-failed t u (e, s, i) = unfold failed in rw (e, s) refl

end_span-Agrees : (raw i : ℕ) (t : Trace) → Agrees t (end_span raw i t)
unfolding end_span close put_span filter_debug_span time
end_span-Agrees raw i t = ground arith

end_each-Agrees : (answers : ℕ → ℕ) (is : List ℕ) (t : Trace) → Agrees t (end_each answers is t)
unfolding end_each
end_each-Agrees answers [] t = (refl, refl, refl)
end_each-Agrees answers (i ∷ is) t =
    let (e, s, d) = end_span-Agrees (answers 0) i t in
    let (es, ss, ds) = end_each-Agrees (λ k. answers (suc k)) is (end_span (answers 0) i t) in
    (es ∙ e, ss ∙ s, ds ∙ d)

complete-Agrees : (raw : ℕ) (t : Trace) → Agrees t (complete raw t)
unfolding complete time
complete-Agrees raw t = ground arith

pub finish-Agrees : (raw : ℕ) (answers : ℕ → ℕ) (t : Trace) → Agrees t (finish raw answers t)
unfolding finish
finish-Agrees raw answers t =
    let (e, s, d) = complete-Agrees raw t in
    let (es, ss, ds) = end_each-Agrees answers (reverse t.spans) (complete raw t) in
    if-split (Agrees t) t.finished (λ _. (refl, refl, refl)) (λ _. (es ∙ e, ss ∙ s, ds ∙ d))

kept : (t u : Trace) → Agrees t u → HasFailed t → HasFailed u
kept t u a h = Agrees-failed t u a ∙ h

set_state-HasFailed :
    (raw : ℕ) (s : State) (t : Trace) → HasFailed t → HasFailed (set_state raw s t)
unfolding set_state enter time failed
set_state-HasFailed raw s t h = ground arith

record_error-HasFailed :
    (raw : ℕ) (e : Option GoError) (t : Trace) → HasFailed t → HasFailed (record_error raw e t)
unfolding record_error enter time failed
record_error-HasFailed raw e t h = ground arith

record_span_error-HasFailed :
    (raw : ℕ) (e : Option GoError) (i : ℕ) (t : Trace)
    → HasFailed t
    → HasFailed (record_span_error raw e i t)
unfolding record_span_error put_span failed
record_span_error-HasFailed raw none i t h = h
record_span_error-HasFailed raw (some e) i t h =
    let s = span_at i t in
    let u = put_span i (record s { err = some e; error_text = e.message }) t in
    if-split HasFailed s.attached (λ _. record_error-HasFailed raw (some e) u h) (λ _. h)

append_span-Agrees :
    (raw : ℕ) (parent : Option Span) (name kind : Text) (t : Trace)
    → Agrees t (append_span raw parent name kind t).1
unfolding append_span allocate take_slot time
append_span-Agrees raw parent name kind t = ground arith

set_response-Agrees :
    (raw : ℕ) (status bytes : ℤ) (route : Text) (t : Trace)
    → Agrees t (set_response raw status bytes route t)
unfolding set_response time
set_response-Agrees raw status bytes route t = ground arith

describe-Agrees : (d : Detail) (t : Trace) → Agrees t (describe d t)
describe-Agrees d t = let a = describe-Aside d t in (a.error_text, a.state, a.id)

describe_span-Agrees : (d : SpanDetail) (i : ℕ) (t : Trace) → Agrees t (describe_span d i t)
unfolding put_span
describe_span-Agrees d i t =
    describe_span-keeps (Agrees t) d i t (refl, refl, refl) (λ s c. (refl, refl, refl))

module _ (sprint : Value → Text) where
  append_log-Agrees :
      (raw : ℕ) (level : Text) (i : ℕ) (message : Text) (args : List Value) (t : Trace)
      → Agrees t (append_log sprint raw level i message args t)
  unfolding append_log write_log time
  append_log-Agrees raw level i message args t = ground arith

  step-HasFailed : (raw : ℕ) (c : Call) (t : Trace) → HasFailed t → HasFailed (step sprint raw c t)
  unfolding step set_debug put_span failed
  step-HasFailed raw (enters s) t h = set_state-HasFailed raw s t h
  step-HasFailed raw (fails e) t h = record_error-HasFailed raw e t h
  step-HasFailed raw (starts parent name kind) t h =
      kept t (append_span raw (own parent t) name kind t).1
        (append_span-Agrees raw (own parent t) name kind t) h
  step-HasFailed raw (ends i) t h = kept t (end_span raw i t) (end_span-Agrees raw i t) h
  step-HasFailed raw (fails_span e i) t h = record_span_error-HasFailed raw e i t h
  step-HasFailed raw (marks_debug i) t h = h
  step-HasFailed raw (writes level i message args) t h =
      kept t (append_log sprint raw level i message args t)
        (append_log-Agrees raw level i message args t) h
  step-HasFailed raw (responds status bytes route) t h =
      kept t (set_response raw status bytes route t) (set_response-Agrees raw status bytes route t)
        h
  step-HasFailed raw (details d) t h = kept t (describe d t) (describe-Agrees d t) h
  step-HasFailed raw (details_span d i) t h =
      kept t (describe_span d i t) (describe_span-Agrees d i t) h
  step-HasFailed raw (finishes answers) t h =
      kept t (finish raw answers t) (finish-Agrees raw answers t) h

  -- A trace that has failed stays failed over any further recording calls, setters, further states
  -- and Finish included.
  pub run-failed :
      (cs : List (ℕ × Call)) (t : Trace) → failed t ≡ true → failed (run sprint cs t) ≡ true
  run-failed cs t h = run-keeps sprint HasFailed step-HasFailed cs t h
