-- ===== src/Model/Spans.antt =====
-- Spans of a trace, model/span.go, model/debug_span.go and the span part of model/trace.go. A span
-- is named by its position in the store of the trace that allocated it.
use oida.Prelude.{
  ltb, leb, ◌==◌, if◌then◌else◌, length, get_or, set, ℤ, pos, sub_ℕ, leb_ℤ, Text, bytes, text_eq,
  insert, Map, ℕ, ◌+◌, Bool, true, ◌&&◌, ◌||◌, Option, none, some, List, [], ◌∷◌, ◌++◌,
}
use oida.Model.Data.{Value, GoError, Span, Box, Trace, zero_span, span_at}
use oida.Model.Clock.{time, peek}
use oida.Model.Recording.{record_error, made, copy_into}

abbrev pub kind_http : Text
kind_http = bytes "http"

abbrev pub kind_internal : Text
kind_internal = bytes "internal"

-- firstKind
pub first_kind : List Text → Text
first_kind [] = kind_internal
first_kind (k ∷ ks) = if text_eq k [] then first_kind ks else k

-- The slots that a pooled box hands out before the heap.
abbrev pub inline_slots : ℕ
inline_slots = 4

unfoldable pub take_slot : Option Box → Option Box
take_slot none = none
take_slot (some b) = some (if ltb b.used inline_slots then record b { used = b.used + 1 } else b)

-- The new span below its parent, which counts only when it belongs to the same trace.
unfoldable pub below : Text → Option Span → Span → Span
below trace_id none s = s
below trace_id (some p) s =
    if text_eq p.trace_id trace_id then record s { parent_id = p.id; depth = p.depth + 1 } else s

unfoldable pub allocate : ℕ → Option Span → Text → Text → Trace → Option ℕ × Trace
unfolding below take_slot time
allocate raw parent name kind t =
    let (now, t') = time raw (record t { sequence = t.sequence + 1; box = take_slot t.box }) in
    let span = below t.id parent (record zero_span {
      id = t.sequence + 1;
      trace_id = t.id;
      name = name;
      kind = kind;
      started_at = now;
      attached = true;
    }) in
    (
      some (length t.store),
      record t' {
        store = t.store ++ (span ∷ []);
        spans = t.spans ++ (length t.store ∷ []);
        updated_at = now;
      },
    )

-- `maxSpans > 0 && len(Spans) >= maxSpans`
unfoldable pub at_limit : ℕ → ℕ → Bool
at_limit limit n = ltb 0 limit && leb limit n

unfoldable pub append_span : ℕ → Option Span → Text → Text → Trace → Option ℕ × Trace
unfolding allocate at_limit
append_span raw parent name kind t =
    if t.finished
    then (none, t)
    else if at_limit t.max_spans (length t.spans)
    then (none, record t { dropped_spans = t.dropped_spans + 1 })
    else allocate raw parent name kind t

-- StartSpan: the parent is the active span of the context, and the new span becomes the active one.
unfoldable pub start_span :
    ℕ → Option Span → Text → List Text → Trace → Option Span × Option ℕ × Trace
unfolding append_span first_kind
start_span raw active name kind t =
    let (i, t') = append_span raw active name (first_kind kind) t in
    (elim i [ none ↦ active | some i ↦ some (span_at i t') ], i, t')

unfoldable pub root : Trace → Option ℕ
root t = elim t.spans [ [] ↦ none | i ∷ is ↦ some i ]

-- openSpan, going back over the recorded spans.
pub last_open : List Span → List ℕ → Option ℕ
last_open store [] = none
last_open store (i ∷ is) = elim (last_open store is) [
  | some j ↦ some j
  | none ↦ if (get_or store i zero_span).ended then none else some i
]

unfoldable pub open_span : Trace → Option ℕ
unfolding last_open
open_span t = last_open t.store t.spans

-- The list without the last entry that is `i`.
unfoldable pub remove_last : ℕ → List ℕ → Option (List ℕ)
remove_last i [] = none
remove_last i (j ∷ js) = elim (remove_last i js) [
  | some ks ↦ some (j ∷ ks)
  | none ↦ if j == i then some js else none
]

unfoldable pub filter_debug_span : ℕ → ℤ → Trace → Trace
unfolding remove_last
filter_debug_span i duration t =
    if t.debug_min_span == 0 || leb_ℤ (pos t.debug_min_span) duration
    then t
    else if t.finished
    then t
    else elim (remove_last i t.spans) [
      | none ↦ t
      | some rest ↦ record t { spans = rest; dropped_spans = t.dropped_spans + 1 }
    ]

unfoldable pub put_span : ℕ → Span → Trace → Trace
put_span i s t = record t { store = set t.store i s }

-- The body of End on a span that is still running.
unfoldable pub close : ℕ → ℕ → Span → Trace → Trace
unfolding put_span filter_debug_span time
close raw i s t =
    let (now, t') = if s.attached then time raw t else (raw, t) in
    let duration = sub_ℕ now s.started_at in
    let t'' = put_span i (record s { ended = true; duration = duration }) t' in
    if s.debug && s.attached then filter_debug_span i duration t'' else t''

unfoldable pub end_span : ℕ → ℕ → Trace → Trace
unfolding close
end_span raw i t = let s = span_at i t in if s.ended then t else close raw i s t

-- RecordError of a span: on the span first, then on its trace.
unfoldable pub record_span_error : ℕ → Option GoError → ℕ → Trace → Trace
unfolding put_span record_error
record_span_error raw none i t = t
record_span_error raw (some e) i t =
    let s = span_at i t in
    let t' = put_span i (record s { err = some e; error_text = e.message }) t in
    if s.attached then record_error raw (some e) t' else t'

-- EndWithError
unfoldable pub end_with_error : ℕ → ℕ → Option GoError → ℕ → Trace → Trace
unfolding record_span_error end_span
end_with_error raw raw' e i t = end_span raw' i (record_span_error raw e i t)

unfoldable pub set_debug : ℕ → Trace → Trace
unfolding put_span
set_debug i t = put_span i (record (span_at i t) { debug = true }) t

unfoldable pub set_source : Text → ℤ → ℕ → Trace → Trace
unfolding put_span
set_source filename line i t =
    put_span i (record (span_at i t) { filename = filename; line = line }) t

unfoldable pub set_span_name : Text → ℕ → Trace → Trace
unfolding put_span
set_span_name name i t =
    if text_eq name [] then t else put_span i (record (span_at i t) { name = name }) t

unfoldable pub set_span_attribute : Text → Value → ℕ → Trace → Trace
unfolding put_span
set_span_attribute key value i t =
    let s = span_at i t in
    if text_eq key []
    then t
    else put_span i (record s { attributes = some (insert key value (made s.attributes)) }) t

unfoldable pub set_span_attributes : Map Value → ℕ → Trace → Trace
unfolding put_span
set_span_attributes [] i t = t
set_span_attributes (kv ∷ src) i t =
    let s = span_at i t in
    put_span i (record s { attributes = some (copy_into (made s.attributes) (kv ∷ src)) }) t

unfoldable pub span_elapsed : ℕ → ℕ → Trace → ℤ
unfolding peek
span_elapsed raw i t =
    let s = span_at i t in
    if s.ended then s.duration else sub_ℕ (if s.attached then peek raw t else raw) s.started_at

-- Spans.Find
unfoldable pub find_span : ℕ → List Span → Option Span
find_span id [] = none
find_span id (s ∷ ss) = if s.id == id then some s else find_span id ss
