-- ===== src/Tests/Traces.antt =====
-- One trace: a request that queries, fails a span and filters a fast debug span.
use oida.Prelude.{
  pos, sub_ℕ, Text, bytes, text_eq, ℕ, ◌+◌, ◌≡◌, refl, true, false, none, some, List, [], ◌∷◌, map,
  arith,
}
use oida.Model.State.{processing, error}
use oida.Model.Data.{Value, GoError, Trace, TraceOptions, zero_span, zero_trace, span_at, span_list}
use oida.Model.Recording.{new_trace, set_state, set_response, set_name}
use oida.Model.Finishing.{finish}
use oida.Model.Spans.{set_source, append_span, record_span_error, end_span, set_debug}
use oida.Model.Logs.{append_log}
use oida.Model.Timing.{IsTimed}
use oida.Model.Cloning.{clone}
use oida.Model.Cloning.Archive.{IsComplete, inert, clone-Copied}
use oida.Model.History.{Call, run, run-IsTimed}
use oida.Model.History as History
use oida.Model.History.Limits.{Counted, step-Counted}
use oida.Model.History.Tree.{run-IsTree}
use oida.Model.History.Failing.{run-failed}
use oida.Model.History.Ends.{IsFinal, finish-IsFinal}
use oida.Model.Clock.{time}
use oida.Model.Details.{names, locates, describe, describe_span}
use oida.Model.Recording.{failed}
use oida.Model.History.Filtering.{drops, without, end_span-spans}
use oida.Model.Ids.{characters, id_bytes, id_length}

abbrev pub print : Value → Text
print v = bytes "value"

abbrev pub options : TraceOptions
options = record {
  service = bytes "shop";
  max_spans = 4;
  debug_span_min_duration = 10;
  capture_logs = true;
}

abbrev pub boom : GoError
boom = record { identity = 7; message = bytes "boom" }

abbrev pub calls : List (ℕ × Call)
calls =
    (101, History.enters processing)
    ∷ (102, History.starts none (bytes "GET /") (bytes "http"))
    ∷ (105, History.starts (some 0) (bytes "SELECT") (bytes "database"))
    ∷ (103, History.fails_span (some boom) 1)
    ∷ (110, History.ends 1)
    ∷ (111, History.starts (some 0) (bytes "row") (bytes "internal"))
    ∷ (112, History.marks_debug 2)
    ∷ (113, History.ends 2)
    ∷ (114, History.writes (bytes "INFO") 0 (bytes "done") [])
    ∷ (114, History.details (names (bytes "GET /cart")))
    ∷ (115, History.details_span (locates (bytes "cart.go") (pos 12)) 1)
    ∷ (116, History.responds (pos 500) (pos 10) (bytes "/cart"))
    ∷ []

abbrev pub request : Trace
request = run print calls (new_trace 100 (bytes "01A") (bytes "GET /") options)

abbrev pub ends_at : ℕ → ℕ
ends_at k = 200 + k

-- The failed span decided the state, and the fast debug span is dropped.
request_runs : (request.spans ≡ 0 ∷ 1 ∷ []) × (request.dropped_spans ≡ 1) × (request.state ≡ error)
unfolding run History.step set_state append_span record_span_error end_span set_debug append_log
    new_trace History.own text_eq sub_ℕ set_response describe describe_span set_source set_name
request_runs = (refl, refl, refl)

run-IsTimed_example : IsTimed request
run-IsTimed_example = run-IsTimed print 100 (bytes "01A") (bytes "GET /") options calls

step-Counted_example :
    Counted
      (History.starts (some 0) (bytes "again") (bytes "http"))
      request
      (History.step print 150 (History.starts (some 0) (bytes "again") (bytes "http")) request)
step-Counted_example =
    step-Counted print 150 (History.starts (some 0) (bytes "again") (bytes "http")) request

pub request-runs_on : request.finished ≡ false
unfolding run History.step set_state append_span record_span_error end_span set_debug append_log
    new_trace History.own text_eq sub_ℕ set_response describe describe_span set_source set_name
request-runs_on = refl

pub request-id : request.id ≡ bytes "01A"
unfolding run History.step set_state append_span record_span_error end_span set_debug append_log
    new_trace History.own text_eq sub_ℕ set_response describe describe_span set_source set_name
request-id = refl

request-attached : (span_at 0 request).attached ≡ true
unfolding run History.step set_state append_span record_span_error end_span set_debug append_log
    new_trace History.own text_eq sub_ℕ set_response describe describe_span set_source set_name
request-attached = refl

finish-IsFinal_example : IsFinal request (finish 200 ends_at request)
finish-IsFinal_example =
    finish-IsFinal 200 ends_at request
      (run-IsTimed print 100 (bytes "01A") (bytes "GET /") options calls)
      (run-IsTree print 100 (bytes "01A") (bytes "GET /") options calls) request-runs_on

abbrev pub spent : Trace
spent = record zero_trace {
  id = bytes "01B";
  duration = pos 9;
  started_at = 100;
  store = record zero_span { id = 1; ended = true; attached = true; duration = pos 4 } ∷ [];
  spans = 0 ∷ [];
  finished = true;
}

spent-IsComplete : IsComplete spent
spent-IsComplete = record { finished = refl; ended = (refl, tt); lasted = omega arith }

abbrev again_at : ℕ → ℕ
again_at k = 900 + k

clone-Copied_example :
    (clone again_at spent ≡ clone ends_at spent)
    × IsComplete (clone ends_at spent)
    × (span_list (clone ends_at spent) ≡ map inert (span_list spent))
    × (clone again_at (clone ends_at spent) ≡ clone ends_at spent)
clone-Copied_example = clone-Copied ends_at again_at again_at spent spent-IsComplete

abbrev random : List ℕ
random = 1 ∷ 2 ∷ 3 ∷ 4 ∷ 5 ∷ 6 ∷ 7 ∷ 8 ∷ 9 ∷ 255 ∷ []

abbrev fresh : Text
fresh = characters (id_bytes 1772872248464 random) 0 id_length

end_span-spans_example :
    (end_span 160 0 request).spans
    ≡ without (drops (time 160 request).0 (span_at 0 request) request) 0 request.spans
end_span-spans_example =
    end_span-spans 160 0 request (run-IsTree print 100 (bytes "01A") (bytes "GET /") options calls)

request-failed : failed request ≡ true
unfolding run History.step set_state append_span record_span_error end_span set_debug append_log
    new_trace History.own text_eq sub_ℕ set_response describe describe_span set_source set_name
    failed
request-failed = refl

run-failed_example : failed (run print calls request) ≡ true
run-failed_example = run-failed print calls request request-failed
