-- ===== src/Model/Data.antt =====
-- The records of package model: spans, log entries and traces (model/span.go, model/logentry.go,
-- model/trace.go, model/tracebox.go, model/traceoptions.go, model/model.go).
-- A time is a count of nanoseconds on one absolute scale, a duration an integer of nanoseconds.
use oida.Prelude.{get_or, replicate, ℤ, pos, Text, Map, ℕ, Bool, false, Option, none, List, [], map}
use oida.Model.State.{State, unknown, num_states}

-- A value of type `any`. Values that are neither an integer nor a string are told apart by a tag.
pub data Value : Type 0 where
  int : ℤ → Value
  text : Text → Value
  opaque : ℕ → Value

-- A nil map is `none`.
abbrev pub Attributes : Type 0
Attributes = Option (Map Value)

-- An error value: its identity and what Error() returns.
pub record GoError : Type 0 where
  pub identity : ℕ
  pub message : Text

pub record HttpInfo : Type 0 where
  pub method : Text
  pub uri : Text
  pub route : Text
  pub host : Text
  pub protocol : Text
  pub remote_address : Text
  pub user_agent : Text
  pub status : ℤ
  pub response_bytes : ℤ

pub record MemoryUse : Type 0 where
  pub heap_delta : ℤ
  pub allocated_bytes : ℕ
  pub allocations : ℕ
  pub gc_cycles : ℕ
  pub gc_pause : ℤ

pub record MemCounters : Type 0 where
  pub heap_bytes : ℕ
  pub alloc_bytes : ℕ
  pub allocs : ℕ
  pub gc_count : ℕ
  pub pause_ns : ℕ

pub record LogEntry : Type 0 where
  pub at : ℕ
  pub level : Text
  pub message : Text
  pub span_id : ℕ
  pub request_id : Text
  pub attributes : Attributes

-- `attached` says whether the pointer to the owning trace is set; inert copies have none.
pub record Span : Type 0 where
  pub id : ℕ
  pub parent_id : ℕ
  pub trace_id : Text
  pub name : Text
  pub kind : Text
  pub debug : Bool
  pub started_at : ℕ
  pub duration : ℤ
  pub depth : ℕ
  pub filename : Text
  pub line : ℤ
  pub attributes : Attributes
  pub error_text : Text
  pub err : Option GoError
  pub attached : Bool
  pub ended : Bool

-- The part of the pooled box that decides behaviour: the inline slots handed out, the last
-- recorded reading of the clock, and whether the finalizer is armed.
pub record Box : Type 0 where
  pub used : ℕ
  pub last_nanos : ℕ
  pub armed : Bool

-- Spans are shared by pointer: `store` holds every span allocated for the trace, and `spans` is the
-- recorded list, of positions in the store. A limit below one means none, as the code tests it.
pub record Trace : Type 0 where
  pub id : Text
  pub name : Text
  pub service : Text
  pub state : State
  pub started_at : ℕ
  pub updated_at : ℕ
  pub duration : ℤ
  pub error_text : Text
  pub in_flight : Bool
  pub http : Option HttpInfo
  pub memory : MemoryUse
  pub attributes : Attributes
  pub store : List Span
  pub spans : List ℕ
  pub dropped_spans : ℕ
  pub err : Option GoError
  pub debug_min_span : ℕ
  pub max_spans : ℕ
  pub sequence : ℕ
  pub changed_at : ℕ
  pub state_time : List ℤ
  pub mem_before : MemCounters
  pub finished : Bool
  pub logs : List LogEntry
  pub dropped_logs : ℕ
  pub capture_logs : Bool
  pub box : Option Box

pub record TraceOptions : Type 0 where
  pub service : Text
  pub max_spans : ℕ
  pub debug_span_min_duration : ℕ
  pub capture_logs : Bool

abbrev pub no_memory : MemoryUse
no_memory = record {
  heap_delta = pos 0;
  allocated_bytes = 0;
  allocations = 0;
  gc_cycles = 0;
  gc_pause = pos 0;
}

abbrev pub no_counters : MemCounters
no_counters = record { heap_bytes = 0; alloc_bytes = 0; allocs = 0; gc_count = 0; pause_ns = 0 }

-- The zero values.
abbrev pub zero_span : Span
zero_span = record {
  id = 0;
  parent_id = 0;
  trace_id = [];
  name = [];
  kind = [];
  debug = false;
  started_at = 0;
  duration = pos 0;
  depth = 0;
  filename = [];
  line = pos 0;
  attributes = none;
  error_text = [];
  err = none;
  attached = false;
  ended = false;
}

abbrev pub zero_trace : Trace
zero_trace = record {
  id = [];
  name = [];
  service = [];
  state = unknown [];
  started_at = 0;
  updated_at = 0;
  duration = pos 0;
  error_text = [];
  in_flight = false;
  http = none;
  memory = no_memory;
  attributes = none;
  store = [];
  spans = [];
  dropped_spans = 0;
  err = none;
  debug_min_span = 0;
  max_spans = 0;
  sequence = 0;
  changed_at = 0;
  state_time = replicate num_states (pos 0);
  mem_before = no_counters;
  finished = false;
  logs = [];
  dropped_logs = 0;
  capture_logs = false;
  box = none;
}

-- What a span pointer points at, and the recorded spans in order.
abbrev pub span_at : ℕ → Trace → Span
span_at i t = get_or t.store i zero_span

abbrev pub span_list : Trace → List Span
span_list t = map (λ i. get_or t.store i zero_span) t.spans
