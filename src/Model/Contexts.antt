-- ===== src/Model/Contexts.antt =====
-- Traces and spans carried by a context, model/context.go and model/spanctx.go. A trace is named by
-- its position in a heap of traces, and a span by its trace and its position in the trace's store.
pub mod Nesting
use oida.Prelude.{
  ltb, leb, ◌==◌, if◌then◌else◌, ltb→lt, lt→ltb, ==_iff, Bool-cases, Option-cases, if-split,
  sum_cases, length, get_or, set, take, drop, replicate, keep, All, length-append, length-set,
  length-replicate, length-take, get_or-set_self, get_or-set_ne, take-take, take_all,
  length-keep-le, get_or-append_lt, get_or-append_end, All-append, All-reverse, All-take,
  take-append_left, length-reverse, length-map, ℤ, pos, negsuc, pos_part, neg_part, sub_ℕ, ◌+ℤ◌,
  ◌≤ℤ◌, ◌<ℤ◌, ltb_ℤ, leb_ℤ, sub_ℕ_parts, +ℤ_parts, eq_of_parts, int_laws, Text, bytes, text_eq,
  text_eq_refl, text_eq_sound, text_eq_iff, has_prefix, cut_suffix, has_prefix_sound,
  has_prefix-append, cut_suffix_sound, cut_suffix-append, Map, lookup, insert, delete,
  lookup-insert, lookup-delete, lead, split, join, has_byte, cut, contains_text, split-piece,
  split_one, join-lead, split-append, join-split, contains_text_sound, contains_text-append, ℕ,
  zero, suc, ◌+◌, ◌-◌, ◌*◌, ◌/◌, ◌%◌, ◌^◌, ◌≤◌, ◌<◌, min, fun_ext, ◌≡◌, refl, sym, ap, ap₂, ◌∙◌,
  subst, ◌≢◌, ◌↔◌, ◌⊎◌, inl, inr, Bool, true, false, not, ◌&&◌, ◌||◌, Option, none, some, List, [],
  ◌∷◌, ◌++◌, map, reverse, arith,
}
use oida.Model.Data.{GoError, Span, Trace, zero_trace, span_at}
use oida.Model.Spans.{start_span, end_with_error}

-- A context as its layers: what WithTrace and Span.Context add, and values of other packages. A nil
-- context is `none`.
pub data Context : Type 0 where
  background : Context
  trace_layer : ℕ → Context → Context
  span_layer : ℕ × ℕ → Context → Context
  other_layer : Context → Context

-- ctx.Value(traceKey{})
pub trace_value : Context → Option ℕ
trace_value background = none
trace_value (trace_layer i c) = some i
trace_value (span_layer s c) = trace_value c
trace_value (other_layer c) = trace_value c

-- ctx.Value(spanKey{})
pub span_value : Context → Option (ℕ × ℕ)
span_value background = none
span_value (trace_layer i c) = span_value c
span_value (span_layer s c) = some s
span_value (other_layer c) = span_value c

abbrev is_current : Option ℕ → ℕ → Bool
is_current none i = false
is_current (some j) i = j == i

unfoldable with_trace : Option Context → Option ℕ → Context
unfolding trace_value
with_trace ctx t =
    let c : Context = elim ctx [ none ↦ background | some c ↦ c ] in
    elim t [ none ↦ c | some i ↦ if is_current (trace_value c) i then c else trace_layer i c ]

unfoldable pub trace_from_context : Option Context → Option ℕ
unfolding trace_value span_value
trace_from_context none = none
trace_from_context (some c) = elim (trace_value c) [
  | some i ↦ some i
  | none ↦ elim (span_value c) [ none ↦ none | some s ↦ some s.0 ]
]

pub span_from_context : Option Context → Option (ℕ × ℕ)
unfolding span_value
span_from_context none = none
span_from_context (some c) = span_value c

abbrev pub trace_in : List Trace → ℕ → Trace
trace_in heap i = get_or heap i zero_trace

abbrev pub span_in : List Trace → ℕ × ℕ → Span
span_in heap s = span_at s.1 (trace_in heap s.0)

unfoldable pub trace_id : List Trace → Option Context → Text
unfolding trace_from_context
trace_id heap ctx = elim (trace_from_context ctx) [ none ↦ [] | some i ↦ (trace_in heap i).id ]

-- The span that StartSpan takes for the parent.
pub active_span : List Trace → Option Context → Option Span
unfolding span_from_context
active_span heap ctx = elim (span_from_context ctx) [ none ↦ none | some s ↦ some (span_in heap s) ]

-- Span.Context: the span on top of the context. On a nil context, which Start does not give it, the
-- program makes one that panics when it is asked for a trace; here it stands on the background.
abbrev pub span_context : ℕ × ℕ → Option Context → Context
span_context s ctx = elim ctx [ none ↦ span_layer s background | some c ↦ span_layer s c ]

-- StartSpan of a trace.
pub start_in :
    ℕ
    → Option Context
    → Text
    → List Text
    → List Trace
    → ℕ
    → Option Context × Option (ℕ × ℕ) × List Trace
unfolding active_span start_span
start_in raw ctx name kind heap i =
    let (active, k, t) = start_span raw (active_span heap ctx) name kind (trace_in heap i) in
    (
      elim k [ none ↦ ctx | some j ↦ some (span_context (i, j) ctx) ],
      elim k [ none ↦ none | some j ↦ some (i, j) ],
      set heap i t,
    )

-- Start: the context to go on with, the span if one is recorded, and the heap.
unfoldable pub start :
    ℕ
    → Option Context
    → Text
    → List Text
    → List Trace
    → Option Context × Option (ℕ × ℕ) × List Trace
unfolding trace_from_context start_in
start raw ctx name kind heap = elim (trace_from_context ctx) [
  | none ↦ (ctx, none, heap)
  | some i ↦ start_in raw ctx name kind heap i
]

-- Do: `fn` runs in the context of the span, and its error is recorded and returned. `raws` are the
-- readings of the clock: at the start, for the error and at the end.
unfoldable do_in_span :
    (ℕ → ℕ)
    → Option Context
    → Text
    → (Option Context → List Trace → Option GoError × List Trace)
    → List Text
    → List Trace
    → Option GoError × List Trace
unfolding start end_with_error
do_in_span raws ctx name fn kind heap =
    let (inner, span, heap') = start (raws 0) ctx name kind heap in
    let (err, heap'') = fn inner heap' in
    (
      err,
      elim span [
        | none ↦ heap''
        | some (i, j) ↦ set heap'' i (end_with_error (raws 1) (raws 2) err j (trace_in heap'' i))
      ],
    )
