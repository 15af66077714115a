-- ===== src/Model/History.antt =====
-- Histories of a trace that is not released: the recording calls that a program makes on it, in any
-- order, each with the answers of the clock. EndWithError is a failure and an end of the span; Info,
-- Warn and Error of a trace or a span write a line or record a failure, by their own tests. Copies
-- and the other readings change nothing. Release gives the box up to the next trace and ends a
-- history, as the recorder does once it has saved the trace.
pub mod Limits
pub mod Shape
pub mod Keeping
pub mod Growing
pub mod Tree
pub mod Ends
pub mod Filtering
pub mod Failing
use oida.Prelude.{
  ltb, leb, ◌==◌, if◌then◌else◌, ltb→lt, lt→ltb, ==_iff, Bool-cases, Option-cases, length, get_or,
  set, take, drop, replicate, keep, All, length-append, length-set, length-replicate, length-take,
  get_or-set_self, get_or-set_ne, take-take, take_all, length-keep-le, ℤ, pos, negsuc, pos_part,
  neg_part, sub_ℕ, ◌+ℤ◌, ◌≤ℤ◌, ◌<ℤ◌, ltb_ℤ, leb_ℤ, sub_ℕ_parts, +ℤ_parts, eq_of_parts, int_laws,
  Text, bytes, text_eq, text_eq_refl, text_eq_sound, text_eq_iff, Map, lookup, insert, delete,
  lookup-insert, lookup-delete, ℕ, zero, suc, ◌+◌, ◌-◌, ◌*◌, ◌/◌, ◌%◌, ◌^◌, ◌≤◌, ◌<◌, min, ◌≡◌,
  refl, sym, ap, ap₂, ◌∙◌, subst, ◌≢◌, ◌↔◌, ◌⊎◌, inl, inr, Bool, true, false, not, ◌&&◌, ◌||◌,
  Option, none, some, List, [], ◌∷◌, ◌++◌, map, reverse, arith,
}
use oida.Model.State.{
  State, waiting, starting, reading, processing, writing, keepalive, closing, error, unknown,
  states, num_states, state_index, is_error, get_or-states, state_index-lt,
}
use oida.Model.Data.{
  Value, int, text, opaque, Attributes, GoError, HttpInfo, MemoryUse, MemCounters, LogEntry, Span,
  Box, Trace, TraceOptions, no_memory, no_counters, zero_span, zero_trace, span_at, span_list,
}
use oida.Model.Recording.{
  new_trace, add_at, enter, set_state, record_error, set_name, made, set_attribute, copy_into,
  set_attributes, attribute, set_http_info, no_http, answered, set_response, err, failed,
  span_count, elapsed, status, contains, kinds_from, kinds, has_kind,
}
use oida.Model.Spans.{
  kind_internal, first_kind, inline_slots, take_slot, below, allocate, at_limit, append_span,
  start_span, root, last_open, open_span, remove_last, filter_debug_span, put_span, close, end_span,
  record_span_error, end_with_error, set_debug, set_source, set_span_name, set_span_attribute,
  span_elapsed, find_span,
}
use oida.Model.Details.{Detail, SpanDetail, describe, describe_span}
use oida.Model.Finishing.{end_each, complete, finish, state_times, total}
use oida.Model.Logs.{
  level_info, level_warn, level_error, bad_key, key_text, pairs_into, log_attributes, pairs_text,
  format_log_text, attributed, write_log, append_log, info, warn, error_line,
}
use oida.Model.Timing.{
  boxed, last, IsTimed, total-add_at, time-grows, set_state-IsTimed, record_error-IsTimed,
  append_span-IsTimed, end_span-IsTimed, complete-IsTimed, end_each-IsTimed, finish-IsTimed,
  set_response-IsTimed, describe-IsTimed, describe_span-IsTimed, record_span_error-IsTimed,
  set_debug-IsTimed, append_log-IsTimed, new_trace-IsTimed,
}

-- The methods SetState, RecordError, StartSpan, End, RecordError and SetDebug of a span, the log
-- methods, SetResponse, the setters of a trace and of a span, and Finish. A span or a parent is
-- given by its position in the store.
pub data Call : Type 0 where
  enters : State → Call
  fails : Option GoError → Call
  starts : Option ℕ → Text → Text → Call
  ends : ℕ → Call
  fails_span : Option GoError → ℕ → Call
  marks_debug : ℕ → Call
  writes : Text → ℕ → Text → List Value → Call
  responds : ℤ → ℤ → Text → Call
  details : Detail → Call
  details_span : SpanDetail → ℕ → Call
  finishes : (ℕ → ℕ) → Call

-- The parent that a context carries, if it is a span of this trace.
unfoldable pub own : Option ℕ → Trace → Option Span
own none t = none
own (some i) t = if ltb i (length t.store) then some (span_at i t) else none

module _ (sprint : Value → Text) where
  unfoldable pub step : ℕ → Call → Trace → Trace
  step raw (enters s) t = set_state raw s t
  step raw (fails e) t = record_error raw e t
  step raw (starts parent name kind) t = (append_span raw (own parent t) name kind t).1
  step raw (ends i) t = end_span raw i t
  step raw (fails_span e i) t = record_span_error raw e i t
  step raw (marks_debug i) t = set_debug i t
  step raw (writes level i message args) t = append_log sprint raw level i message args t
  step raw (responds status bytes route) t = set_response raw status bytes route t
  step raw (details d) t = describe d t
  step raw (details_span d i) t = describe_span d i t
  step raw (finishes answers) t = finish raw answers t

  unfoldable pub run : List (ℕ × Call) → Trace → Trace
  unfolding step
  run [] t = t
  run ((raw, c) ∷ cs) t = run cs (step raw c t)

  -- A property that every call keeps holds after every history.
  pub run-keeps {ℓ} :
      (P : Trace → Type ℓ)
      → ((raw : ℕ) (c : Call) (t : Trace) → P t → P (step raw c t))
      → (cs : List (ℕ × Call)) (t : Trace) → P t
      → P (run cs t)
  unfolding run
  run-keeps P keeps [] t p = p
  run-keeps P keeps ((raw, c) ∷ cs) t p =
      run-keeps P keeps cs (unfold step in step raw c t) (unfold step in keeps raw c t p)

  step-IsTimed : (raw : ℕ) (c : Call) (t : Trace) → IsTimed t → IsTimed (step raw c t)
  unfolding step
  step-IsTimed raw (enters s) t v = set_state-IsTimed raw s t v
  step-IsTimed raw (fails e) t v = record_error-IsTimed raw e t v
  step-IsTimed raw (starts parent name kind) t v =
      append_span-IsTimed raw (own parent t) name kind t v
  step-IsTimed raw (ends i) t v = end_span-IsTimed raw i t v
  step-IsTimed raw (fails_span e i) t v = record_span_error-IsTimed raw e i t v
  step-IsTimed raw (marks_debug i) t v = set_debug-IsTimed i t v
  step-IsTimed raw (writes level i message args) t v =
      append_log-IsTimed sprint raw level i message args t v
  step-IsTimed raw (responds status bytes route) t v =
      set_response-IsTimed raw status bytes route t v
  step-IsTimed raw (details d) t v = describe-IsTimed d t v
  step-IsTimed raw (details_span d i) t v = describe_span-IsTimed d i t v
  step-IsTimed raw (finishes answers) t v = finish-IsTimed raw answers t v

  -- Whatever recording calls are made on a new trace that is not released, setters and the
  -- response included, and whatever its clock answers, the time per state adds up to the time
  -- between the start of the trace and its last change of state, and that change is no later than
  -- the last recorded reading.
  pub run-IsTimed :
      (now : ℕ) (id name : Text) (opts : TraceOptions) (cs : List (ℕ × Call))
      → IsTimed (run cs (new_trace now id name opts))
  run-IsTimed now id name opts cs =
      run-keeps IsTimed step-IsTimed cs (new_trace now id name opts)
        (new_trace-IsTimed now id name opts)
