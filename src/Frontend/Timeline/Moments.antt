-- ===== src/Frontend/Timeline/Moments.antt =====
-- The segments of a timeline are the moments at which a span is active.
use oida.Prelude.{
  ltb, leb, ◌==◌, ==_iff, if-split, All, ℤ, pos, negsuc, pos_part, leb_ℤ, Text, ℕ, suc, ◌+◌, ◌-◌,
  ◌≤◌, ◌<◌, ◌≡◌, refl, ap, ap₂, ◌∙◌, Bool, true, false, not, ◌&&◌, ◌||◌, Option, none, some, List,
  [], ◌∷◌, arith,
}
use oida.Model.Data.{Span, Trace, span_list}
use oida.Model.Statistics.Sorting.{place, sort_stable}
use oida.Frontend.Timeline.{
  Segment, Interval, is_request_span, interval_of, intervals_of, boundaries_of, compact, innermost,
  add_segment, lay_out, timeline,
}
use oida.Frontend.Timeline.Layout.{
  Rises, interval_of-IsInside, sort_stable-IsSorted, compact-Rises, boundaries-Within,
}
use oida.Frontend.Timeline.Coverage.{
  any_of, in_segment, is_active, is_found, between, mem, covered-add_segment, found-innermost,
  between-interval,
}

mem-place : (e x : ℕ) (xs : List ℕ) → mem e (place ltb x xs) ≡ mem e (x ∷ xs)
unfolding place
mem-place e x [] = refl
mem-place e x (y ∷ ys) = ground (arith, mem-place e x ys)

mem-sort_stable : (e : ℕ) (xs : List ℕ) → mem e (sort_stable ltb xs) ≡ mem e xs
unfolding sort_stable
mem-sort_stable e [] = refl
mem-sort_stable e (x ∷ xs) =
    mem-place e x (sort_stable ltb xs) ∙ ap ((x == e) ||◌) (mem-sort_stable e xs)

mem-compact : (e : ℕ) (xs : List ℕ) → mem e (compact xs) ≡ mem e xs
unfolding compact
mem-compact e [] = refl
mem-compact e (x ∷ []) = refl
mem-compact e (x ∷ y ∷ xs) =
    if-split (λ r. mem e r ≡ mem e (x ∷ y ∷ xs)) (x == y)
      (λ s. mem-compact e (y ∷ xs) ∙ ground (arith, ==_iff x y))
      (λ n. ap ((x == e) ||◌) (mem-compact e (y ∷ xs)))

between-none : (y : ℕ) (bs : List ℕ) → between y (λ a. false) bs ≡ false
unfolding between
between-none y [] = refl
between-none y (a ∷ []) = refl
between-none y (a ∷ b ∷ bs) = ground (arith, between-none y (b ∷ bs))

between-or :
    (y : ℕ) (f g : ℕ → Bool) (bs : List ℕ)
    → between y (λ a. f a || g a) bs ≡ between y f bs || between y g bs
unfolding between
between-or y f g [] = refl
between-or y f g (a ∷ []) = refl
between-or y f g (a ∷ b ∷ bs) = ground (arith, between-or y f g (b ∷ bs))

-- An interval has its two ends among the boundaries.
abbrev IsBounded : List ℕ → Interval → Type 0
IsBounded bs i = (i.start < i.stop) × (mem i.start bs ≡ true) × (mem i.stop bs ≡ true)

between-active :
    (y low high : ℕ) (bs : List ℕ) (is : List Interval)
    → Rises low bs high
    → All (IsBounded bs) is
    → between y (λ a. any_of (is_active a) is) bs ≡ any_of (is_active y) is
between-active y low high bs [] r h = between-none y bs
between-active y low high bs (i ∷ is) r ((a, b, c), h) =
    between-or y (λ a. is_active a i) (λ a. any_of (is_active a) is) bs
    ∙ ap₂ ◌||◌ (between-interval y i.start i.stop low high bs r a b c)
        (between-active y low high bs is r h)

in_segment-shifted :
    (from x a b : ℕ) (kind : Text)
    → from ≤ a
    → a < b
    → in_segment x (record { kind = kind; offset = a - from; duration = b - a })
      ≡ leb a (from + x) && ltb (from + x) b
in_segment-shifted from x a b kind f h = ground arith

covered-stepped :
    (from x a b : ℕ) (o : Option Interval) (result : List Segment)
    → from ≤ a
    → a < b
    → any_of (in_segment x) (elim o as (λ x. List Segment) [
      | none ↦ result
      | some i ↦ add_segment (record { kind = i.kind; offset = a - from; duration = b - a }) result
    ])
      ≡ any_of (in_segment x) result || (leb a (from + x) && ltb (from + x) b && is_found o)
unfolding is_found
covered-stepped from x a b none result f h = ground arith
covered-stepped from x a b (some i) result f h =
    covered-add_segment x (record { kind = i.kind; offset = a - from; duration = b - a }) result
    ∙ rw (in_segment-shifted from x a b i.kind f h) (ground arith)

or_assoc : (a b c : Bool) → (a || b) || c ≡ a || (b || c)
or_assoc true b c = refl
or_assoc false b c = refl

covered-lay_out :
    (from x : ℕ) (is : List Interval) (low high : ℕ) (bs : List ℕ) (result : List Segment)
    → from ≤ low
    → Rises low bs high
    → any_of (in_segment x) (lay_out from is bs result)
      ≡ any_of (in_segment x) result || between (from + x) (λ a. any_of (is_active a) is) bs
unfolding lay_out between is_found
covered-lay_out from x is low high [] result f r = ground arith
covered-lay_out from x is low high (a ∷ []) result f r = ground arith
covered-lay_out from x is low high (a ∷ b ∷ bs) result f (p, q, r) =
    let y = from + x in
    let here = any_of (in_segment x) result in
    let gap = leb a y && ltb y b in
    let rest = between y (λ a. any_of (is_active a) is) (b ∷ bs) in
    covered-lay_out from x is (suc a) high (b ∷ bs) _ (omega arith) r
    ∙ ap (λ c. c || rest)
        (covered-stepped from x a b (innermost a none is) result (omega arith) (omega (arith, r.0)))
    ∙ ap (λ c. (here || (gap && c)) || rest) (found-innermost a none is)
    ∙ or_assoc here (gap && any_of (is_active a) is) rest

-- A span is active at a time, the request's own span left aside.
abbrev pub is_running : ℕ → Span → Bool
is_running y s =
    not (is_request_span s) && leb s.started_at y && ltb y (s.started_at + pos_part s.duration)

active-interval_of :
    (from until y : ℕ) (s : Span)
    → from ≤ y
    → y < until
    → (elim (interval_of from until s) [ none ↦ false | some i ↦ is_active y i ]) ≡ is_running y s
unfolding interval_of
active-interval_of from until y s f u = ground arith

added-active :
    (y : ℕ) (o : Option Interval) (rest : List Interval)
    → any_of (is_active y) (elim o as (λ x. List Interval) [ none ↦ rest | some i ↦ i ∷ rest ])
      ≡ (elim o [ none ↦ false | some i ↦ is_active y i ]) || any_of (is_active y) rest
added-active y none rest = refl
added-active y (some i) rest = refl

active-intervals_of :
    (from until y : ℕ) (spans : List Span)
    → from ≤ y
    → y < until
    → any_of (is_active y) (intervals_of from until spans) ≡ any_of (is_running y) spans
unfolding intervals_of
active-intervals_of from until y [] f u = refl
active-intervals_of from until y (s ∷ spans) f u =
    added-active y (interval_of from until s) (intervals_of from until spans)
    ∙ ap₂ ◌||◌ (active-interval_of from until y s f u) (active-intervals_of from until y spans f u)

-- The intervals have their ends among the boundaries.
IsBounded-more :
    (x y : ℕ) (bs : List ℕ) (is : List Interval)
    → All (IsBounded bs) is
    → All (IsBounded (x ∷ y ∷ bs)) is
IsBounded-more x y bs [] h = tt
IsBounded-more x y bs (i ∷ is) ((a, b, c), h) =
    ((a, ground arith, ground arith), IsBounded-more x y bs is h)

added-IsBounded :
    (o : Option Interval) (rest : List Interval)
    → ((i : Interval) → o ≡ some i → i.start < i.stop)
    → All (IsBounded (boundaries_of rest)) rest
    → All
        (IsBounded
          (boundaries_of (elim o as (λ x. List Interval) [ none ↦ rest | some i ↦ i ∷ rest ])))
        (elim o as (λ x. List Interval) [ none ↦ rest | some i ↦ i ∷ rest ])
added-IsBounded none rest f h = h
added-IsBounded (some i) rest f h = (
  (f i refl, ground (arith, ==_iff i.start i.start), ground (arith, ==_iff i.stop i.stop)),
  IsBounded-more i.start i.stop (boundaries_of rest) rest h,
)

intervals_of-IsBounded :
    (from until : ℕ) (spans : List Span)
    → All
        (IsBounded (boundaries_of (intervals_of from until spans)))
        (intervals_of from until spans)
unfolding intervals_of
intervals_of-IsBounded from until [] = tt
intervals_of-IsBounded from until (s ∷ spans) =
    added-IsBounded (interval_of from until s) (intervals_of from until spans)
      (λ i e. (interval_of-IsInside from until s i e).1) (intervals_of-IsBounded from until spans)

IsBounded-sorted :
    (bs : List ℕ) (is : List Interval)
    → All (IsBounded bs) is
    → All (IsBounded (compact (sort_stable ltb bs))) is
IsBounded-sorted bs [] h = tt
IsBounded-sorted bs (i ∷ is) ((a, b, c), h) =
    let same = λ (e : ℕ). mem-compact e (sort_stable ltb bs) ∙ mem-sort_stable e bs in
    ((a, same i.start ∙ b, same i.stop ∙ c), IsBounded-sorted bs is h)

lasting : (d : ℤ) (x : ℕ) → x < pos_part d → leb_ℤ d (pos 0) ≡ false
lasting (pos n) x h = ground arith
lasting (negsuc n) x h = ground arith

-- A moment within a trace's positive duration lies in a segment of its timeline exactly when some
-- span of the trace, other than an HTTP span at the top, is running at that moment.
pub timeline-covers :
    (t : Trace) (x : ℕ)
    → x < pos_part t.duration
    → any_of (in_segment x) (timeline t) ≡ any_of (is_running (t.started_at + x)) (span_list t)
unfolding timeline
timeline-covers t x h =
    let from = t.started_at in
    let until = t.started_at + pos_part t.duration in
    let is = intervals_of from until (span_list t) in
    let bs = compact (sort_stable ltb (boundaries_of is)) in
    let (s, w) =
      sort_stable-IsSorted from until (boundaries_of is)
        (boundaries-Within from until (span_list t)) in
    let r = compact-Rises from from until (sort_stable ltb (boundaries_of is)) s w in
    let positive : leb_ℤ t.duration (pos 0) ≡ false = lasting t.duration x h in
    rw positive (
      covered-lay_out from x is from until bs [] (omega arith) r
      ∙ between-active (from + x) from until bs is r
          (IsBounded-sorted (boundaries_of is) is (intervals_of-IsBounded from until (span_list t)))
      ∙ active-intervals_of from until (from + x) (span_list t) (omega arith) (omega arith))
