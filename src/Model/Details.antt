-- ===== src/Model/Details.antt =====
-- The setters of a trace and of a span, which record what describes them: model/trace.go and
-- model/span.go.
use oida.Prelude.{
  Bool-cases, ℤ, Text, List, get_or, text_eq, Map, insert, ℕ, ◌≡◌, refl, ◌⊎◌, inl, inr, Option,
  none, some, [], ◌∷◌, arith,
}
use oida.Model.Data.{Value, HttpInfo, MemCounters, Span, Trace, span_at, zero_span}
use oida.Model.Recording.{set_name, made, set_attribute, copy_into, set_attributes, set_http_info}
use oida.Model.Spans.{put_span, set_source, set_span_name, set_span_attribute, set_span_attributes}
use oida.Model.Memory.{track_memory, record_memory}

-- The part of a span that its start decides.
pub record Core : Type 0 where
  pub id : ℕ
  pub parent : ℕ
  pub depth : ℕ
  pub start : ℕ

abbrev pub core : Span → Core
core s = record { id = s.id; parent = s.parent_id; depth = s.depth; start = s.started_at }

abbrev pub core_at : List Span → ℕ → Core
core_at store i = core (get_or store i zero_span)

-- SetName, SetAttribute, SetAttributes, SetHTTPInfo, TrackMemory and RecordMemory of a trace.
pub data Detail : Type 0 where
  names : Text → Detail
  describes : Text → Value → Detail
  describes_all : Map Value → Detail
  requests : Option HttpInfo → Detail
  tracks_memory records_memory : MemCounters → Detail

-- SetName, SetAttribute, SetAttributes and SetSource of a span.
pub data SpanDetail : Type 0 where
  names_span : Text → SpanDetail
  describes_span : Text → Value → SpanDetail
  describes_span_all : Map Value → SpanDetail
  locates : Text → ℤ → SpanDetail

unfoldable pub describe : Detail → Trace → Trace
describe (names name) t = set_name name t
describe (describes key value) t = set_attribute key value t
describe (describes_all values) t = set_attributes values t
describe (requests info) t = set_http_info info t
describe (tracks_memory counters) t = track_memory counters t
describe (records_memory counters) t = record_memory counters t

unfoldable pub describe_span : SpanDetail → ℕ → Trace → Trace
describe_span (names_span name) i t = set_span_name name i t
describe_span (describes_span key value) i t = set_span_attribute key value i t
describe_span (describes_span_all values) i t = set_span_attributes values i t
describe_span (locates filename line) i t = set_source filename line i t

-- What a setter of the trace leaves alone.
pub record Aside (t u : Trace) : Type 0 where
  pub box : u.box ≡ t.box
  pub id : u.id ≡ t.id
  pub state : u.state ≡ t.state
  pub error_text : u.error_text ≡ t.error_text
  pub started_at : u.started_at ≡ t.started_at
  pub changed_at : u.changed_at ≡ t.changed_at
  pub state_time : u.state_time ≡ t.state_time
  pub sequence : u.sequence ≡ t.sequence
  pub store : u.store ≡ t.store
  pub spans : u.spans ≡ t.spans
  pub max_spans : u.max_spans ≡ t.max_spans
  pub dropped_spans : u.dropped_spans ≡ t.dropped_spans
  pub logs : u.logs ≡ t.logs
  pub dropped_logs : u.dropped_logs ≡ t.dropped_logs

pub describe-Aside : (d : Detail) (t : Trace) → Aside t (describe d t)
unfolding describe set_name set_attribute set_attributes set_http_info track_memory record_memory
describe-Aside (names name) t = ground arith
describe-Aside (describes key value) t = ground arith
describe-Aside (describes_all []) t = ground arith
describe-Aside (describes_all (kv ∷ values)) t = ground arith
describe-Aside (requests none) t = ground arith
describe-Aside (requests (some info)) t = ground arith
describe-Aside (tracks_memory counters) t = ground arith
describe-Aside (records_memory counters) t = ground arith

-- A setter of a span changes nothing, or puts back the span with the same start.
describe_span-cases :
    (d : SpanDetail) (i : ℕ) (t : Trace)
    → (describe_span d i t ≡ t)
      ⊎ ((s : Span) × (core s ≡ core_at t.store i) × (describe_span d i t ≡ put_span i s t))
unfolding describe_span set_span_name set_span_attribute set_span_attributes set_source
describe_span-cases (names_span name) i t = elim (Bool-cases (text_eq name [])) [
  | inl y ↦ inl (rw y refl)
  | inr n ↦ inr (record (span_at i t) { name = name }, refl, rw n refl)
]
describe_span-cases (describes_span key value) i t =
    let s = span_at i t in
    elim (Bool-cases (text_eq key [])) [
      | inl y ↦ inl (rw y refl)
      | inr n ↦
          inr
            (record s { attributes = some (insert key value (made s.attributes)) }, refl, rw n refl)
    ]
describe_span-cases (describes_span_all []) i t = inl refl
describe_span-cases (describes_span_all (kv ∷ values)) i t =
    let s = span_at i t in
    inr (record s { attributes = some (copy_into (made s.attributes) (kv ∷ values)) }, refl, refl)
describe_span-cases (locates filename line) i t =
    inr (record (span_at i t) { filename = filename; line = line }, refl, refl)

-- What holds of a trace, and of any that a span with the same start is put back into, holds after
-- a setter of a span.
pub describe_span-keeps {ℓ} :
    (P : Trace → Type ℓ) (d : SpanDetail) (i : ℕ) (t : Trace)
    → P t
    → ((s : Span) → core s ≡ core_at t.store i → P (put_span i s t))
    → P (describe_span d i t)
describe_span-keeps P d i t p put = elim (describe_span-cases d i t) [
  | inl e ↦ rw e p
  | inr (s, c, e) ↦ rw e (put s c)
]
