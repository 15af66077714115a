-- ===== src/Model/Recording.antt =====
-- Creating a trace and recording on it, model/trace.go. A method takes the answers of the clock
-- first and the trace last; the locked body of a method is one step. A nil receiver is not modelled.
use oida.Prelude.{
  if◌then◌else◌, length, ℤ, pos, sub_ℕ, ◌+ℤ◌, ltb_ℤ, Text, text_eq, Map, lookup, insert, ℕ, zero,
  suc, Bool, false, not, ◌&&◌, ◌||◌, Option, none, some, List, [], ◌∷◌,
}
use oida.Model.State.{State, starting, error, state_index, is_error}
use oida.Model.Data.{
  Value, Attributes, GoError, HttpInfo, Span, Trace, TraceOptions, zero_trace, span_list,
}
use oida.Model.Clock.{time, peek}

-- The box comes cleared from the pool; `now` is the reading of opts.now().
unfoldable pub new_trace : ℕ → Text → Text → TraceOptions → Trace
new_trace now id name opts = record zero_trace {
  id = id;
  name = name;
  service = opts.service;
  state = starting;
  started_at = now;
  updated_at = now;
  max_spans = opts.max_spans;
  changed_at = now;
  debug_min_span = opts.debug_span_min_duration;
  capture_logs = opts.capture_logs;
  box = some (record { used = 0; last_nanos = now; armed = false });
}

-- `stateTime[i] += d`
unfoldable pub add_at : ℕ → ℤ → List ℤ → List ℤ
add_at i d [] = []
add_at zero d (x ∷ xs) = (x +ℤ d) ∷ xs
add_at (suc i) d (x ∷ xs) = x ∷ add_at i d xs

-- The time in the state that ends at `now`, accumulated, and the next state entered.
unfoldable pub enter : ℕ → State → Trace → Trace
enter now s t = record t {
  state_time = add_at (state_index t.state) (sub_ℕ now t.changed_at) t.state_time;
  state = s;
  changed_at = now;
  updated_at = now;
}

unfoldable pub set_state : ℕ → State → Trace → Trace
unfolding enter time
set_state raw s t =
    let (now, t') = time raw t in if is_error t.state && not (is_error s) then t else enter now s t'

unfoldable pub record_error : ℕ → Option GoError → Trace → Trace
unfolding enter time
record_error raw none t = t
record_error raw (some e) t =
    let (now, t') = time raw t in
    enter now error (record t' { err = some e; error_text = e.message })

unfoldable pub set_name : Text → Trace → Trace
set_name name t = if text_eq name [] then t else record t { name = name }

-- The map of attributes, made if it is nil.
abbrev pub made : Attributes → Map Value
made none = []
made (some m) = m

unfoldable pub set_attribute : Text → Value → Trace → Trace
set_attribute key value t =
    if text_eq key []
    then t
    else record t { attributes = some (insert key value (made t.attributes)) }

-- maps.Copy
unfoldable pub copy_into : Map Value → Map Value → Map Value
copy_into dst [] = dst
copy_into dst ((k, v) ∷ src) = copy_into (insert k v dst) src

unfoldable pub set_attributes : Map Value → Trace → Trace
set_attributes [] t = t
set_attributes (kv ∷ src) t = record t {
  attributes = some (copy_into (made t.attributes) (kv ∷ src));
}

unfoldable pub attribute : Text → Trace → Option Value
attribute key t = lookup key (made t.attributes)

unfoldable pub set_http_info : Option HttpInfo → Trace → Trace
set_http_info none t = t
set_http_info (some info) t = record t { http = some info }

abbrev pub no_http : HttpInfo
no_http = record {
  method = [];
  uri = [];
  route = [];
  host = [];
  protocol = [];
  remote_address = [];
  user_agent = [];
  status = pos 0;
  response_bytes = pos 0;
}

pub answered : ℤ → ℤ → Text → HttpInfo → HttpInfo
answered status written route info = record info {
  status = status;
  response_bytes = written;
  route = if text_eq route [] then info.route else route;
}

unfoldable pub set_response : ℕ → ℤ → ℤ → Text → Trace → Trace
unfolding answered time
set_response raw status written route t =
    let info : HttpInfo = elim t.http [ none ↦ no_http | some info ↦ info ] in
    let (now, t') = time raw t in
    record t' { http = some (answered status written route info); updated_at = now }

-- errors.New makes a value of its own, here with the identity 0.
unfoldable pub err : Trace → Option GoError
err t = elim t.err [
  | some e ↦ some e
  | none ↦
      if text_eq t.error_text []
      then none
      else some (record { identity = 0; message = t.error_text })
]

unfoldable pub failed : Trace → Bool
failed t = not (text_eq t.error_text []) || is_error t.state

unfoldable pub span_count : Trace → ℕ
span_count t = length t.spans

unfoldable pub elapsed : ℕ → Trace → ℤ
unfolding peek
elapsed raw t = if ltb_ℤ (pos 0) t.duration then t.duration else sub_ℕ (peek raw t) t.started_at

unfoldable pub status : Trace → ℤ
status t = elim t.http [ none ↦ pos 0 | some info ↦ info.status ]

unfoldable pub contains : Text → List Text → Bool
contains k [] = false
contains k (j ∷ js) = text_eq j k || contains k js

-- The loop of Kinds over the spans, with the kinds seen so far.
unfoldable pub kinds_from : List Text → List Span → List Text
unfolding contains
kinds_from seen [] = []
kinds_from seen (s ∷ ss) =
    let old = kinds_from seen ss in
    let fresh = s.kind ∷ kinds_from (s.kind ∷ seen) ss in
    if contains s.kind seen then old else fresh

unfoldable pub kinds : Trace → List Text
unfolding kinds_from
kinds t = kinds_from [] (span_list t)

unfoldable pub has_kind : Text → Trace → Bool
unfolding kinds
has_kind kind t = if text_eq kind [] then false else contains kind (kinds t)
