-- ===== src/Frontend/Rows.antt =====
-- The rows of a trace's page, Rows in frontend/view/timeline.go. The recursion is on fuel, where
-- running out is `none`; shares of the trace's duration and memory readings are left out.
pub mod Walking
use oida.Prelude.{
  ltb, leb, ◌==◌, if◌then◌else◌, ltb→lt, lt→ltb, ==_iff, Bool-cases, Option-cases, if-split,
  sum_cases, length, get_or, set, take, drop, replicate, keep, All, length-append, length-set,
  length-replicate, length-take, get_or-set_self, get_or-set_ne, take-take, take_all,
  length-keep-le, get_or-append_lt, get_or-append_end, All-append, All-reverse, All-take,
  take-append_left, length-reverse, length-map, ℤ, pos, negsuc, pos_part, neg_part, sub_ℕ, ◌+ℤ◌,
  ◌≤ℤ◌, ◌<ℤ◌, ltb_ℤ, leb_ℤ, sub_ℕ_parts, +ℤ_parts, eq_of_parts, int_laws, Text, bytes, text_eq,
  text_eq_refl, text_eq_sound, text_eq_iff, has_prefix, cut_suffix, has_prefix_sound,
  has_prefix-append, cut_suffix_sound, cut_suffix-append, Map, lookup, insert, delete,
  lookup-insert, lookup-delete, lead, split, join, has_byte, cut, contains_text, split-piece,
  split_one, join-lead, split-append, join-split, contains_text_sound, contains_text-append, ℕ,
  zero, suc, ◌+◌, ◌-◌, ◌*◌, ◌/◌, ◌%◌, ◌^◌, ◌≤◌, ◌<◌, min, fun_ext, ◌≡◌, refl, sym, ap, ap₂, ◌∙◌,
  subst, ◌≢◌, ◌↔◌, ◌⊎◌, inl, inr, Bool, true, false, not, ◌&&◌, ◌||◌, Option, none, some, List, [],
  ◌∷◌, ◌++◌, map, reverse, arith,
}
use oida.Model.Data.{Span, Trace, span_list}

pub record SpanRow : Type 0 where
  pub span : Span
  pub offset : ℤ
  pub is_open : Bool
  pub is_last : Bool

-- `started` is the start of the trace, and `is_last` says that no sibling follows.
abbrev pub row_of : ℕ → Bool → Span → SpanRow
row_of started is_last s = record {
  span = record s { attached = false };
  offset = sub_ℕ s.started_at started;
  is_open = pos_part s.duration == 0 && neg_part s.duration == 0;
  is_last = is_last;
}

-- `children[parent]`
abbrev pub children : ℕ → List Span → List Span
children parent spans = keep (λ s. s.parent_id == parent) spans

-- The loop over siblings, where `below` walks the spans below one.
pub walk_each : (ℕ → Option (List SpanRow)) → ℕ → List Span → Option (List SpanRow)
walk_each below started [] = some []
walk_each below started (s ∷ siblings) =
    let rest = walk_each below started siblings in
    elim (below s.id) [
      | none ↦ none
      | some rows ↦ elim rest [
        | none ↦ none
        | some more ↦ some (row_of started (length siblings == 0) s ∷ (rows ++ more))
      ]
    ]

pub walk : ℕ → ℕ → List Span → ℕ → Option (List SpanRow)
unfolding walk_each
walk zero started spans parent = none
walk (suc fuel) started spans parent =
    walk_each (walk fuel started spans) started (children parent spans)

abbrev has_row : List SpanRow → ℕ → Bool
has_row [] id = false
has_row (r ∷ rows) id = r.span.id == id || has_row rows id

-- Spans whose parent is not recorded.
abbrev unseen : List SpanRow → List Span → List Span
unseen rows spans = keep (λ s. not (has_row rows s.id)) spans

abbrev pub with_orphans : ℕ → List Span → List SpanRow → List SpanRow
with_orphans started spans rows =
    if ltb (length rows) (length spans)
    then rows ++ map (row_of started true) (unseen rows spans)
    else rows

unfoldable pub rows : ℕ → Trace → Option (List SpanRow)
unfolding walk
rows fuel t = elim (walk fuel t.started_at (span_list t) 0) [
  | none ↦ none
  | some found ↦ some (with_orphans t.started_at (span_list t) found)
]
