-- ===== src/Frontend/Timeline.antt =====
-- The timeline of a trace, Timeline in frontend/view/timeline.go. Shares of the duration, which are
-- floats, are left out of a segment. Times are numbers of nanoseconds; a span of the list is not nil.
pub mod Layout
pub mod Coverage
pub mod Moments
use oida.Prelude.{
  ltb, leb, ◌==◌, if◌then◌else◌, ltb→lt, lt→ltb, ==_iff, Bool-cases, Option-cases, if-split,
  sum_cases, length, get_or, set, take, drop, replicate, keep, All, length-append, length-set,
  length-replicate, length-take, get_or-set_self, get_or-set_ne, take-take, take_all,
  length-keep-le, get_or-append_lt, get_or-append_end, All-append, All-reverse, All-take,
  take-append_left, length-reverse, length-map, ℤ, pos, negsuc, pos_part, neg_part, sub_ℕ, ◌+ℤ◌,
  ◌≤ℤ◌, ◌<ℤ◌, ltb_ℤ, leb_ℤ, sub_ℕ_parts, +ℤ_parts, eq_of_parts, int_laws, Text, bytes, text_eq,
  text_eq_refl, text_eq_sound, text_eq_iff, has_prefix, cut_suffix, has_prefix_sound,
  has_prefix-append, cut_suffix_sound, cut_suffix-append, Map, lookup, insert, delete,
  lookup-insert, lookup-delete, lead, split, join, has_byte, cut, contains_text, split-piece,
  split_one, join-lead, split-append, join-split, contains_text_sound, contains_text-append, ℕ,
  zero, suc, ◌+◌, ◌-◌, ◌*◌, ◌/◌, ◌%◌, ◌^◌, ◌≤◌, ◌<◌, min, fun_ext, ◌≡◌, refl, sym, ap, ap₂, ◌∙◌,
  subst, ◌≢◌, ◌↔◌, ◌⊎◌, inl, inr, Bool, true, false, not, ◌&&◌, ◌||◌, Option, none, some, List, [],
  ◌∷◌, ◌++◌, map, reverse, arith,
}
use oida.Model.Data.{Span, Trace, span_list}
use oida.Model.Spans.{kind_http}
use oida.Model.Statistics.Sorting.{sort_stable}

pub record Segment : Type 0 where
  pub kind : Text
  pub offset : ℕ
  pub duration : ℕ

-- A span, cut to the trace.
pub record Interval : Type 0 where
  pub kind : Text
  pub depth : ℕ
  pub start : ℕ
  pub stop : ℕ

abbrev pub is_request_span : Span → Bool
is_request_span s = text_eq s.kind kind_http && s.depth == 0

-- `from` and `until` are the start and the end of the trace.
pub interval_of : ℕ → ℕ → Span → Option Interval
unfolding text_eq
interval_of from until s =
    let stop = s.started_at + pos_part s.duration in
    let start = if ltb s.started_at from then from else s.started_at in
    let cut = if ltb until stop then until else stop in
    if leb_ℤ s.duration (pos 0)
    then none
    else if is_request_span s
    then none
    else if leb cut start
    then none
    else some (record { kind = s.kind; depth = s.depth; start = start; stop = cut })

pub intervals_of : ℕ → ℕ → List Span → List Interval
unfolding interval_of
intervals_of from until [] = []
intervals_of from until (s ∷ spans) =
    let rest = intervals_of from until spans in
    elim (interval_of from until s) [ none ↦ rest | some i ↦ i ∷ rest ]

abbrev pub boundaries_of : List Interval → List ℕ
boundaries_of [] = []
boundaries_of (i ∷ is) = i.start ∷ i.stop ∷ boundaries_of is

-- slices.Compact
pub compact : List ℕ → List ℕ
compact [] = []
compact (x ∷ []) = x ∷ []
compact (x ∷ y ∷ xs) = let rest = compact (y ∷ xs) in if x == y then rest else x ∷ rest

-- The innermost interval that is active at `start`, `best` so far: a deeper one, or one as deep that
-- starts later.
pub innermost : ℕ → Option Interval → List Interval → Option Interval
innermost start best [] = best
innermost start best (c ∷ cs) =
    let better : Bool = elim best [
      | none ↦ true
      | some a ↦ ltb a.depth c.depth || (c.depth == a.depth && ltb a.start c.start)
    ] in
    let active = leb c.start start && ltb start c.stop in
    innermost start (if active && better then some c else best) cs

-- A segment that continues the last one prolongs it.
pub add_segment : Segment → List Segment → List Segment
unfolding text_eq
add_segment s [] = s ∷ []
add_segment s (p ∷ []) =
    if text_eq p.kind s.kind && p.offset + p.duration == s.offset
    then record p { duration = p.duration + s.duration } ∷ []
    else p ∷ s ∷ []
add_segment s (p ∷ q ∷ result) = p ∷ add_segment s (q ∷ result)

-- The loop over neighbouring boundaries.
pub lay_out : ℕ → List Interval → List ℕ → List Segment → List Segment
unfolding innermost add_segment
lay_out from intervals [] result = result
lay_out from intervals (start ∷ []) result = result
lay_out from intervals (start ∷ stop ∷ bs) result =
    let after : List Segment = elim (innermost start none intervals) [
      | none ↦ result
      | some a ↦
          add_segment (record { kind = a.kind; offset = start - from; duration = stop - start })
            result
    ] in
    lay_out from intervals (stop ∷ bs) after

unfoldable pub timeline : Trace → List Segment
unfolding intervals_of compact sort_stable lay_out
timeline t =
    let intervals = intervals_of t.started_at (t.started_at + pos_part t.duration) (span_list t) in
    if leb_ℤ t.duration (pos 0)
    then []
    else lay_out t.started_at intervals (compact (sort_stable ltb (boundaries_of intervals))) []
