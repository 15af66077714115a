-- ===== src/Model/Statistics/Totals.antt =====
-- The ranking of the groups: its order, and what it adds up to.
use oida.Prelude.{
  ltb, ◌==◌, if◌then◌else◌, ltb→lt, ==_iff, Bool-cases, if-split, length, keep, ℤ, Text, Map,
  lookup, insert, ℕ, ◌+◌, ◌≤◌, ◌≡◌, refl, sym, ap, ◌∙◌, inl, inr, Bool, true, false, Option, none,
  some, List, [], ◌∷◌, map, arith,
}
use oida.Model.Data.{Trace}
use oida.Model.Statistics.Tallies.{
  Statistic, Averaged, key_of, has_failed, new_statistic, tally, group_trace, group_all, averaged,
}
use oida.Model.Statistics.Sorting.{place, sort_stable, limited_to}
use oida.Model.Statistics.Report.{group_before, statistics}

abbrev pub total : {A : Type 0} → (A → ℕ) → List A → ℕ
total f [] = 0
total f (x ∷ xs) = f x + total f xs

-- No group has more traces than the one in front of it.
abbrev pub IsRanked : List Averaged → Type 0
IsRanked [] = Unit {0}
IsRanked (a ∷ []) = Unit {0}
IsRanked (a ∷ b ∷ xs) = (b.statistic.count ≤ a.statistic.count) × IsRanked (b ∷ xs)

group_before-count :
    (a b : Averaged) → group_before a b ≡ true → b.statistic.count ≤ a.statistic.count
unfolding group_before
group_before-count a b h =
    let m = a.statistic.count in
    let n = b.statistic.count in
    elim (Bool-cases (m == n)) [
      | inl y ↦ omega (arith, (==_iff m n).0 y)
      | inr d ↦ omega (arith, ltb→lt n m (sym (rw d refl) ∙ h))
    ]

group_before-not :
    (a b : Averaged) → group_before a b ≡ false → a.statistic.count ≤ b.statistic.count
unfolding group_before
group_before-not a b h =
    let m = a.statistic.count in
    let n = b.statistic.count in
    elim (Bool-cases (m == n)) [
      | inl y ↦ omega (arith, (==_iff m n).0 y)
      | inr d ↦
          let q : group_before a b ≡ ltb n m = rw d refl in
          let r : ltb n m ≡ false = sym q ∙ h in ground arith
    ]

-- The first of a list has no more traces.
abbrev IsLed : Averaged → List Averaged → Type 0
IsLed y [] = Unit {0}
IsLed y (z ∷ zs) = z.statistic.count ≤ y.statistic.count

IsRanked-cons : (y : Averaged) (xs : List Averaged) → IsLed y xs → IsRanked xs → IsRanked (y ∷ xs)
IsRanked-cons y [] l h = tt
IsRanked-cons y (x ∷ xs) l h = (l, h)

IsRanked-IsLed : (y : Averaged) (xs : List Averaged) → IsRanked (y ∷ xs) → IsLed y xs × IsRanked xs
IsRanked-IsLed y [] h = (tt, tt)
IsRanked-IsLed y (x ∷ xs) h = h

place-IsLed :
    (y x : Averaged) (xs : List Averaged)
    → x.statistic.count ≤ y.statistic.count
    → IsLed y xs
    → IsLed y (place group_before x xs)
unfolding place
place-IsLed y x [] h l = h
place-IsLed y x (z ∷ zs) h l = if-split (IsLed y) (group_before z x) (λ b. l) (λ n. h)

place-IsRanked :
    (x : Averaged) (xs : List Averaged) → IsRanked xs → IsRanked (place group_before x xs)
unfolding place
place-IsRanked x [] h = tt
place-IsRanked x (y ∷ ys) h =
    let (led, rest) = IsRanked-IsLed y ys h in
    if-split IsRanked (group_before y x)
      (λ b.
        IsRanked-cons y (place group_before x ys)
          (place-IsLed y x ys (group_before-count y x b) led) (place-IsRanked x ys rest))
      (λ n. (group_before-not y x n, h))

sort_stable-IsRanked : (xs : List Averaged) → IsRanked (sort_stable group_before xs)
unfolding sort_stable
sort_stable-IsRanked [] = tt
sort_stable-IsRanked (x ∷ xs) =
    place-IsRanked x (sort_stable group_before xs) (sort_stable-IsRanked xs)

module _ {A : Type 0} (before : A → A → Bool) (f : A → ℕ) where
  total-place : (x : A) (xs : List A) → total f (place before x xs) ≡ f x + total f xs
  unfolding place
  total-place x [] = refl
  total-place x (y ∷ ys) = ground (arith, total-place x ys)

  total-sort_stable : (xs : List A) → total f (sort_stable before xs) ≡ total f xs
  unfolding sort_stable
  total-sort_stable [] = refl
  total-sort_stable (x ∷ xs) =
      omega (arith, total-place x (sort_stable before xs), total-sort_stable xs)

module _ (f : Statistic → ℕ) (g : Trace → ℕ) (fresh : (t : Trace) → f (new_statistic t) ≡ 0)
    (step : (t : Trace) (s : Statistic) → f (tally t s) ≡ f s + g t) where
  total-insert :
      (key : Text) (s : Statistic) (m : Map Statistic)
      → total (λ e. f e.1) (insert key s m) + (elim (lookup key m) [ none ↦ 0 | some old ↦ f old ])
        ≡ total (λ e. f e.1) m + f s
  unfolding insert lookup
  total-insert key s [] = omega arith
  total-insert key s ((j, old) ∷ m) = ground (arith, total-insert key s m)

  -- The figures that a trace is added to.
  abbrev entry_of : Trace → Option Statistic → Statistic
  entry_of t o = elim o [ none ↦ new_statistic t | some s ↦ s ]

  weighs :
      (t : Trace) (o : Option Statistic) → f (entry_of t o) ≡ (elim o [ none ↦ 0 | some s ↦ f s ])
  weighs t none = fresh t
  weighs t (some s) = refl

  total-group_trace :
      (t : Trace) (m : Map Statistic)
      → total (λ e. f e.1) (group_trace t m) ≡ total (λ e. f e.1) m + g t
  unfolding group_trace
  total-group_trace t m =
      let o = lookup (key_of t) m in
      omega (
        arith,
        total-insert (key_of t) (tally t (entry_of t o)) m,
        step t (entry_of t o),
        weighs t o,
      )

  total-group_all :
      (ts : List Trace) (m : Map Statistic)
      → total (λ e. f e.1) (group_all ts m) ≡ total (λ e. f e.1) m + total g ts
  unfolding group_all
  total-group_all [] m = omega arith
  total-group_all (t ∷ ts) m =
      omega (arith, total-group_all ts (group_trace t m), total-group_trace t m)

total-averaged :
    (f : Statistic → ℕ) (window : ℕ) (groups : Map Statistic)
    → total (λ (a : Averaged). f a.statistic) (map (λ entry. averaged window entry.1) groups)
      ≡ total (λ e. f e.1) groups
unfolding averaged
total-averaged f window [] = refl
total-averaged f window (e ∷ groups) = ap (f e.1 +◌) (total-averaged f window groups)

total-ones : (ts : List Trace) → total (λ t. 1) ts ≡ length ts
total-ones [] = refl
total-ones (t ∷ ts) = omega (arith, total-ones ts)

abbrev failure_of : Trace → ℕ
failure_of t = if has_failed t then 1 else 0

total-failures : (ts : List Trace) → total failure_of ts ≡ length (keep has_failed ts)
total-failures [] = refl
total-failures (t ∷ ts) = ground (arith, total-failures ts)

errors-tally : (t : Trace) (s : Statistic) → (tally t s).errors ≡ s.errors + failure_of t
unfolding tally
errors-tally t s = ground arith

-- The top list of the statistics is a ranking of groups cut to the limit, in which no group has
-- more traces than the one in front of it, and the counts and failures of the whole ranking add up
-- to the traces of the window and to those that failed.
pub statistics-ranking :
    (window : List Trace) (window_limit top_limit : ℤ) (requests : Map ℕ)
    → (ranking : List Averaged) × ((statistics window window_limit top_limit requests).top
        ≡ limited_to top_limit ranking)
      × IsRanked ranking
      × (total (λ e. e.statistic.count) ranking ≡ length window)
      × (total (λ e. e.statistic.errors) ranking ≡ length (keep has_failed window))
unfolding statistics averaged tally
statistics-ranking window window_limit top_limit requests =
    let groups = group_all window [] in
    let all = map (λ entry. averaged (length window) entry.1) groups in
    (
      sort_stable group_before all,
      refl,
      sort_stable-IsRanked all,
      total-sort_stable group_before (λ e. e.statistic.count) all
          ∙ total-averaged (λ s. s.count) (length window) groups
          ∙ total-group_all (λ s. s.count) (λ t. 1) (λ t. refl) (λ t s. refl) window []
          ∙ omega (arith, total-ones window),
      total-sort_stable group_before (λ e. e.statistic.errors) all
          ∙ total-averaged (λ s. s.errors) (length window) groups
          ∙ total-group_all (λ s. s.errors) failure_of (λ t. refl) errors-tally window []
          ∙ omega (arith, total-failures window),
    )
