-- ===== src/Model/Statistics/Sorting.antt =====
-- Sorting, as sort.SliceStable does it, the order of strings, and the limit on a list.
use oida.Prelude.{
  ltb, ◌==◌, if◌then◌else◌, length, take, ℤ, pos, pos_part, ltb_ℤ, Text, Bool, true, false, ◌&&◌,
  List, [], ◌∷◌,
}

-- The order of strings.
unfoldable pub text_before : Text → Text → Bool
text_before [] [] = false
text_before [] (d ∷ t) = true
text_before (c ∷ s) [] = false
text_before (c ∷ s) (d ∷ t) = let rest = text_before s t in if c == d then rest else ltb c d

-- sort.SliceStable: an item comes in front of the first that it is not after.
module _ {A : Type 0} (before : A → A → Bool) where
  unfoldable pub place : A → List A → List A
  place x [] = x ∷ []
  place x (y ∷ ys) = let rest = place x ys in if before y x then y ∷ rest else x ∷ y ∷ ys

  unfoldable pub sort_stable : List A → List A
  unfolding place
  sort_stable [] = []
  sort_stable (x ∷ xs) = place x (sort_stable xs)

abbrev pub limited_to : {A : Type 0} → ℤ → List A → List A
limited_to limit xs =
    if ltb_ℤ (pos 0) limit && ltb_ℤ limit (pos (length xs)) then take (pos_part limit) xs else xs
