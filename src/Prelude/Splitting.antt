-- ===== src/Prelude/Splitting.antt =====
-- strings.Split and strings.Cut at one byte, strings.Contains and strings.Join with one byte.
use Prim.Native.Nat.{ℕ}
use mathlib.Core.Path.{◌≡◌, refl, sym, ap, ap₂, ◌∙◌, subst}
use mathlib.Core.Logic.{inl, inr}
use mathlib.Core.Bool.{Bool, true, false, ◌||◌}
use mathlib.Core.Option.{Option, none, some}
use mathlib.Core.List.{◌++◌, List, [], ◌∷◌}
use native.Mathlib.Omega.{arith}
use oida.Prelude.Tests.{==_iff, if◌then◌else◌, Bool-cases, ◌==◌}
use oida.Prelude.Strings.{Text, has_prefix, has_prefix_sound, has_prefix-append}

-- The byte put in front of the first piece.
abbrev pub lead : ℕ → List Text → List Text
lead c [] = (c ∷ []) ∷ []
lead c (p ∷ ps) = (c ∷ p) ∷ ps

unfoldable pub split : ℕ → Text → List Text
split sep [] = [] ∷ []
split sep (c ∷ s) = let rest = split sep s in if c == sep then [] ∷ rest else lead c rest

unfoldable pub join : ℕ → List Text → Text
join sep [] = []
join sep (p ∷ []) = p
join sep (p ∷ q ∷ ps) = p ++ (sep ∷ join sep (q ∷ ps))

unfoldable pub has_byte : ℕ → Text → Bool
has_byte b [] = false
has_byte b (c ∷ s) = c == b || has_byte b s

-- What stands before and after the first separator.
unfoldable pub cut : ℕ → Text → Option (Text × Text)
cut sep [] = none
cut sep (c ∷ s) =
    let rest = cut sep s in
    if c == sep then some ([], s) else elim rest [ none ↦ none | some (a, b) ↦ some (c ∷ a, b) ]

unfoldable pub contains_text : Text → Text → Bool
unfolding has_prefix
contains_text p [] = has_prefix p []
contains_text p (c ∷ s) = let rest = contains_text p s in has_prefix p (c ∷ s) || rest

-- A piece without the separator comes off whole.
pub split-piece :
    (sep : ℕ) (p s : Text) → has_byte sep p ≡ false → split sep (p ++ (sep ∷ s)) ≡ p ∷ split sep s
unfolding split has_byte
split-piece sep [] s h = ground (arith, ==_iff sep sep)
split-piece sep (c ∷ p) s h = ground (arith, split-piece sep p s)

pub split_one : (sep : ℕ) (p : Text) → has_byte sep p ≡ false → split sep p ≡ p ∷ []
unfolding split has_byte
split_one sep [] h = refl
split_one sep (c ∷ p) h = ground (arith, split_one sep p)

pub join-lead : (sep c : ℕ) (ps : List Text) → join sep (lead c ps) ≡ c ∷ join sep ps
unfolding join
join-lead sep c [] = refl
join-lead sep c (p ∷ []) = refl
join-lead sep c (p ∷ q ∷ ps) = refl

split_cons : (sep : ℕ) (s : Text) → (p : Text) × (ps : List Text) × (split sep s ≡ p ∷ ps)
unfolding split
split_cons sep [] = ([], [], refl)
split_cons sep (c ∷ s) = elim (Bool-cases (c == sep)) [
  | inl y ↦ ([], split sep s, rw y refl)
  | inr n ↦ let (p, ps, e) = split_cons sep s in (c ∷ p, ps, rw (n, e) refl)
]

lead-append :
    (sep c : ℕ) (s : Text) (qs : List Text)
    → lead c (split sep s ++ qs) ≡ lead c (split sep s) ++ qs
lead-append sep c s qs =
    let (p, ps, e) = split_cons sep s in
    subst (λ xs. lead c (xs ++ qs) ≡ lead c xs ++ qs) (sym e) refl

-- Splitting works on both sides of a separator.
pub split-append : (sep : ℕ) (s t : Text) → split sep (s ++ (sep ∷ t)) ≡ split sep s ++ split sep t
unfolding split
split-append sep [] t = ground (arith, ==_iff sep sep)
split-append sep (c ∷ s) t = elim (Bool-cases (c == sep)) [
  | inl y ↦ rw y (ap ([] ∷◌) (split-append sep s t))
  | inr n ↦ rw n (ap (lead c) (split-append sep s t) ∙ lead-append sep c s (split sep t))
]

pub join-split : (sep : ℕ) (s : Text) → join sep (split sep s) ≡ s
unfolding split join
join-split sep [] = refl
join-split sep (c ∷ s) = elim (Bool-cases (c == sep)) [
  | inl y ↦
      let (p, ps, e) = split_cons sep s in
      rw y (rw e (ap₂ ◌∷◌ (sym ((==_iff c sep).0 y)) (ap (join sep) (sym e) ∙ join-split sep s)))
  | inr n ↦ rw n (join-lead sep c (split sep s) ∙ ap (◌∷◌ c) (join-split sep s))
]

pub contains_text_sound :
    (p s : Text) → contains_text p s ≡ true → (u : Text) × (v : Text) × (s ≡ u ++ (p ++ v))
unfolding contains_text
contains_text_sound p [] h = let (v, e) = has_prefix_sound p [] h in ([], v, e)
contains_text_sound p (c ∷ s) h = elim (Bool-cases (has_prefix p (c ∷ s))) [
  | inl y ↦ let (v, e) = has_prefix_sound p (c ∷ s) y in ([], v, e)
  | inr n ↦ let (u, v, e) = contains_text_sound p s (ground arith) in (c ∷ u, v, ap (◌∷◌ c) e)
]

contains_front : (p s : Text) → has_prefix p s ≡ true → contains_text p s ≡ true
unfolding contains_text
contains_front p [] h = h
contains_front p (c ∷ s) h = ground arith

pub contains_text-append : (p u v : Text) → contains_text p (u ++ (p ++ v)) ≡ true
unfolding contains_text
contains_text-append p [] v = contains_front p (p ++ v) (has_prefix-append p v)
contains_text-append p (c ∷ u) v = ground (arith, contains_text-append p u v)

-- Cutting where there is no separator, and at the first one.
pub cut-none : (sep : ℕ) (s : Text) → has_byte sep s ≡ false → cut sep s ≡ none
unfolding cut has_byte
cut-none sep [] h = refl
cut-none sep (c ∷ s) h = ground (arith, cut-none sep s)

pub cut_at :
    (sep : ℕ) (p s : Text) → has_byte sep p ≡ false → cut sep (p ++ (sep ∷ s)) ≡ some (p, s)
unfolding cut has_byte
cut_at sep [] s h = ground (arith, ==_iff sep sep)
cut_at sep (c ∷ p) s h = ground (arith, cut_at sep p s)
