-- ===== src/Tracer/State.antt =====
-- The state of a tracer. Traces are shared by pointer: `heap` holds every trace begun, and a trace
-- is named by its position there. The 64-bit counters do not wrap in practice and are numbers.
use oida.Prelude.{
  if◌then◌else◌, get_or, set, replicate, ℤ, pos, ◌+ℤ◌, Text, bytes, text_eq, Map, lookup, insert, ℕ,
  ◌+◌, Bool, none, some, List, [], ◌∷◌, ◌++◌,
}
use oida.Model.State.{num_states}
use oida.Model.Data.{Trace, TraceOptions, zero_trace}
use oida.Storage.Results.{Failure, Result, ok, fail}

pub record TracerOptions : Type 0 where
  pub trace_options : TraceOptions
  pub track_memory_use : Bool
  pub trust_request_id : Bool
  pub path : Text
  pub ignore_paths : List Text

-- `errors` are the failures handed to Options.OnError, and `notified` counts the calls of Notify.
-- `state_time` has a slot for each listed state, zero where the map has no entry.
pub record Tracer (S : Type 0) : Type 0 where
  pub opts : TracerOptions
  pub enabled : Bool
  pub heap : List Trace
  pub active : Map ℕ
  pub total : ℕ
  pub sampled : ℕ
  pub unsampled : ℕ
  pub failed : ℕ
  pub samples : ℕ
  pub allocated : ℕ
  pub state_time : List ℤ
  pub requests : Map ℕ
  pub storage : S
  pub errors : List Failure
  pub notified : ℕ

abbrev pub background_host : Text
background_host = bytes "internal"

-- model.TraceHost
unfoldable pub trace_host : Trace → Text
trace_host t = elim t.http [
  | none ↦ background_host
  | some info ↦ if text_eq info.host [] then background_host else info.host
]

-- `requests[host]++`
unfoldable pub count_request : Text → Map ℕ → Map ℕ
count_request host m = insert host ((elim (lookup host m) [ none ↦ 0 | some n ↦ n ]) + 1) m

unfoldable pub new_tracer : {S : Type 0} → TracerOptions → Bool → S → Tracer S
new_tracer opts enabled storage = record {
  opts = opts;
  enabled = enabled;
  heap = [];
  active = [];
  total = 0;
  sampled = 0;
  unsampled = 0;
  failed = 0;
  samples = 0;
  allocated = 0;
  state_time = replicate num_states (pos 0);
  requests = [];
  storage = storage;
  errors = [];
  notified = 0;
}

unfoldable pub trace_at : {S : Type 0} → ℕ → Tracer S → Trace
trace_at i t = get_or t.heap i zero_trace

unfoldable pub put_trace : {S : Type 0} → ℕ → Trace → Tracer S → Tracer S
put_trace i trace t = record t { heap = set t.heap i trace }

-- `stateTime[States()[i]] += duration`, skipped for a duration of zero, which changes nothing.
unfoldable pub add_times : List ℤ → List ℤ → List ℤ
add_times [] ds = []
add_times (x ∷ xs) [] = x ∷ xs
add_times (x ∷ xs) (d ∷ ds) = (x +ℤ d) ∷ add_times xs ds

-- onError
unfoldable pub report : {S : Type 0} → Result (Unit {0}) → Tracer S → Tracer S
report (ok u) t = t
report (fail e) t = record t { errors = t.errors ++ (e ∷ []) }

-- SetEnabled
unfoldable pub set_enabled : {S : Type 0} → Bool → Tracer S → Tracer S
set_enabled enabled t = record t { enabled = enabled }
