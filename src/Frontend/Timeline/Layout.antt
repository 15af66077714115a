-- ===== src/Frontend/Timeline/Layout.antt =====
-- The segments of a timeline follow one another inside the trace.
use oida.Prelude.{
  ltb, leb, ◌==◌, if◌then◌else◌, ==_iff, if-split, All, pos, pos_part, leb_ℤ, text_eq, ℕ, suc, ◌+◌,
  ◌-◌, ◌≤◌, ◌<◌, ◌≡◌, refl, subst, true, ◌&&◌, Option, none, some, List, [], ◌∷◌, arith,
}
use oida.Model.Data.{Span, Trace, span_list}
use oida.Model.Statistics.Sorting.{place, sort_stable}
use mathlib.Core.Option.{some-injective, none-ne-some}
use oida.Frontend.Timeline.{
  Segment, Interval, is_request_span, interval_of, intervals_of, boundaries_of, compact, innermost,
  add_segment, lay_out, timeline,
}

-- Segments from `low` on, one after the other, that end by `high`.
abbrev IsLaid : ℕ → List Segment → ℕ → Type 0
IsLaid low [] high = low ≤ high
IsLaid low (s ∷ ss) high =
    (low ≤ s.offset) × (0 < s.duration) × IsLaid (s.offset + s.duration) ss high

IsLaid-weaken :
    (low high higher : ℕ) (ss : List Segment)
    → high ≤ higher
    → IsLaid low ss high
    → IsLaid low ss higher
IsLaid-weaken low high higher [] h l = omega arith
IsLaid-weaken low high higher (s ∷ ss) h (a, b, l) =
    (a, b, IsLaid-weaken (s.offset + s.duration) high higher ss h l)

add_segment-IsLaid :
    (s : Segment) (low : ℕ) (ss : List Segment)
    → IsLaid low ss s.offset
    → 0 < s.duration
    → IsLaid low (add_segment s ss) (s.offset + s.duration)
unfolding add_segment
add_segment-IsLaid s low [] l d = (l, d, omega arith)
add_segment-IsLaid s low (p ∷ []) (a, b, l) d =
    if-split (λ r. IsLaid low r (s.offset + s.duration))
      (text_eq p.kind s.kind && p.offset + p.duration == s.offset)
      (λ y.
        let joined : (p.offset + p.duration == s.offset) ≡ true = ground arith in
        (a, omega arith, omega (arith, (==_iff (p.offset + p.duration) s.offset).0 joined)))
      (λ n. (a, b, (l, d, omega arith)))
add_segment-IsLaid s low (p ∷ q ∷ ss) (a, b, l) d =
    (a, b, add_segment-IsLaid s (p.offset + p.duration) (q ∷ ss) l d)

-- Boundaries that rise strictly, within bounds.
abbrev pub Rises : ℕ → List ℕ → ℕ → Type 0
Rises low [] high = Unit {0}
Rises low (x ∷ xs) high = (low ≤ x) × (x ≤ high) × Rises (suc x) xs high

stepped-IsLaid :
    (from start stop : ℕ) (o : Option Interval) (result : List Segment)
    → from ≤ start
    → start < stop
    → IsLaid 0 result (start - from)
    → IsLaid 0
        (elim o as (λ x. List Segment) [
          | none ↦ result
          | some a ↦
              add_segment
                (record { kind = a.kind; offset = start - from; duration = stop - start })
                result
        ])
        (stop - from)
stepped-IsLaid from start stop none result f h l =
    IsLaid-weaken 0 (start - from) (stop - from) result (omega arith) l
stepped-IsLaid from start stop (some a) result f h l =
    IsLaid-weaken 0 ((start - from) + (stop - start)) (stop - from) _ (omega arith) (
      add_segment-IsLaid (record { kind = a.kind; offset = start - from; duration = stop - start })
        0 result l (omega arith))

lay_out-IsLaid :
    (from until : ℕ) (intervals : List Interval) (low : ℕ) (bs : List ℕ) (result : List Segment)
    → from ≤ low
    → low ≤ until
    → Rises low bs until
    → IsLaid 0 result (low - from)
    → IsLaid 0 (lay_out from intervals bs result) (until - from)
unfolding lay_out
lay_out-IsLaid from until intervals low [] result f u r l =
    IsLaid-weaken 0 (low - from) (until - from) result (omega arith) l
lay_out-IsLaid from until intervals low (start ∷ []) result f u r l =
    IsLaid-weaken 0 (low - from) (until - from) result (omega arith) l
lay_out-IsLaid from until intervals low (start ∷ stop ∷ bs) result f u (a, b, (c, d, r)) l =
    lay_out-IsLaid from until intervals stop (stop ∷ bs) _ (omega arith) d (omega arith, d, r)
      (stepped-IsLaid from start stop (innermost start none intervals) result (omega arith)
        (omega arith) (IsLaid-weaken 0 (low - from) (start - from) result (omega arith) l))

-- Sorting the boundaries and dropping repetitions makes them rise.
abbrev IsSorted : ℕ → List ℕ → Type 0
IsSorted low [] = Unit {0}
IsSorted low (x ∷ xs) = (low ≤ x) × IsSorted x xs

abbrev Within : ℕ → ℕ → List ℕ → Type 0
Within low high xs = All (λ x. (low ≤ x) × (x ≤ high)) xs

place-IsSorted :
    (low x : ℕ) (xs : List ℕ) → low ≤ x → IsSorted low xs → IsSorted low (place ltb x xs)
unfolding place
place-IsSorted low x [] h s = (h, tt)
place-IsSorted low x (y ∷ ys) h (a, s) =
    if-split (IsSorted low) (ltb y x) (λ b. (a, place-IsSorted y x ys (ground arith) s))
      (λ n. (h, (ground arith, s)))

place-Within :
    (low high x : ℕ) (xs : List ℕ)
    → (low ≤ x) × (x ≤ high)
    → Within low high xs
    → Within low high (place ltb x xs)
unfolding place
place-Within low high x [] h w = (h, tt)
place-Within low high x (y ∷ ys) h (a, w) =
    if-split (Within low high) (ltb y x) (λ b. (a, place-Within low high x ys h w))
      (λ n. (h, (a, w)))

pub sort_stable-IsSorted :
    (low high : ℕ) (xs : List ℕ)
    → Within low high xs
    → IsSorted low (sort_stable ltb xs) × Within low high (sort_stable ltb xs)
unfolding sort_stable
sort_stable-IsSorted low high [] w = (tt, tt)
sort_stable-IsSorted low high (x ∷ xs) (a, w) =
    let (s, v) = sort_stable-IsSorted low high xs w in
    (
      place-IsSorted low x (sort_stable ltb xs) a.0 s,
      place-Within low high x (sort_stable ltb xs) a v,
    )

pub compact-Rises :
    (low bottom high : ℕ) (xs : List ℕ)
    → IsSorted low xs
    → Within bottom high xs
    → Rises low (compact xs) high
unfolding compact
compact-Rises low bottom high [] s w = tt
compact-Rises low bottom high (x ∷ []) (a, s) (b, w) = (a, b.1, tt)
compact-Rises low bottom high (x ∷ y ∷ xs) (a, (c, s)) (b, w) =
    if-split (λ r. Rises low r high) (x == y)
      (λ e. compact-Rises low bottom high (y ∷ xs) (omega arith, s) w)
      (λ n. (a, b.1, compact-Rises (suc x) bottom high (y ∷ xs) (ground arith, s) w))

-- An interval lies in the trace.
abbrev IsInside : ℕ → ℕ → Interval → Type 0
IsInside from until i = (from ≤ i.start) × (i.start < i.stop) × (i.stop ≤ until)

pub interval_of-IsInside :
    (from until : ℕ) (s : Span) (i : Interval)
    → interval_of from until s ≡ some i
    → IsInside from until i
unfolding interval_of
interval_of-IsInside from until s i =
    let Sound : Option Interval → Type 0 = λ o. o ≡ some i → IsInside from until i in
    let stop = s.started_at + pos_part s.duration in
    let start = if ltb s.started_at from then from else s.started_at in
    let cut = if ltb until stop then until else stop in
    if-split Sound (leb_ℤ s.duration (pos 0)) (λ y e. elim (none-ne-some i e) [ ])
      (λ n.
        if-split Sound (is_request_span s) (λ y e. elim (none-ne-some i e) [ ])
          (λ n.
            if-split Sound (leb cut start) (λ y e. elim (none-ne-some i e) [ ])
              (λ n e.
                subst (IsInside from until) (some-injective _ _ e)
                  (ground arith, ground arith, ground arith))))

added-Within :
    (from until : ℕ) (o : Option Interval) (rest : List Interval)
    → ((i : Interval) → o ≡ some i → IsInside from until i)
    → Within from until (boundaries_of rest)
    → Within from until
        (boundaries_of (elim o as (λ x. List Interval) [ none ↦ rest | some i ↦ i ∷ rest ]))
added-Within from until none rest f w = w
added-Within from until (some i) rest f w =
    let (a, b, c) = f i refl in ((a, omega arith), ((omega arith, c), w))

pub boundaries-Within :
    (from until : ℕ) (spans : List Span)
    → Within from until (boundaries_of (intervals_of from until spans))
unfolding intervals_of
boundaries-Within from until [] = tt
boundaries-Within from until (s ∷ spans) =
    added-Within from until (interval_of from until s) (intervals_of from until spans)
      (interval_of-IsInside from until s) (boundaries-Within from until spans)

-- Each segment of a timeline has a positive duration, each starts where the one before it ends or
-- later, and the last ends within the duration of the trace (at its start, if the duration is not
-- positive and there is none).
timeline-IsLaid : (t : Trace) → IsLaid 0 (timeline t) (pos_part t.duration)
unfolding timeline
timeline-IsLaid t =
    let from = t.started_at in
    let until = t.started_at + pos_part t.duration in
    let is = intervals_of from until (span_list t) in
    let (s, w) =
      sort_stable-IsSorted from until (boundaries_of is)
        (boundaries-Within from until (span_list t)) in
    if-split (λ r. IsLaid 0 r (pos_part t.duration)) (leb_ℤ t.duration (pos 0)) (λ y. omega arith)
      (λ n. IsLaid-weaken 0 (until - from) (pos_part t.duration) _ (omega arith) (
        lay_out-IsLaid from until is from (compact (sort_stable ltb (boundaries_of is))) []
          (omega arith) (omega arith)
          (compact-Rises from from until (sort_stable ltb (boundaries_of is)) s w) (omega arith)))
