-- ===== src/Model/Statistics/Stable.antt =====
-- What a stable sort returns: the same items, in order, and equal ones as they came.
use mathlib.Core.List.{Perm}
use mathlib.Core.List.Perm
use oida.Prelude.{
  if-split, length, take, drop, keep, All, All-take, ℕ, zero, suc, ◌≡◌, refl, ap, ◌∙◌, Bool, true,
  false, List, [], ◌∷◌, ◌++◌, arith,
}
use oida.Model.Statistics.Sorting.{place, sort_stable}

-- Every item stands in the relation to all items behind it.
abbrev pub IsOrdered : {A : Type 0} → (A → A → Type 0) → List A → Type 0
IsOrdered R [] = Unit
IsOrdered R (x ∷ xs) = All (R x) xs × IsOrdered R xs

module _ {A : Type 0} where
  pub All-weaken : {P Q : A → Type 0} → ((a : A) → P a → Q a) → (xs : List A) → All P xs → All Q xs
  All-weaken f [] h = tt
  All-weaken f (x ∷ xs) h = (f x h.0, All-weaken f xs h.1)

  pub IsOrdered-weaken :
      {R Q : A → A → Type 0}
      → ((a b : A) → R a b → Q a b)
      → (xs : List A) → IsOrdered R xs
      → IsOrdered Q xs
  IsOrdered-weaken f [] h = tt
  IsOrdered-weaken f (x ∷ xs) h = (All-weaken (f x) xs h.0, IsOrdered-weaken f xs h.1)

  All-drop : (P : A → Type 0) (n : ℕ) (xs : List A) → All P xs → All P (drop n xs)
  All-drop P zero xs h = h
  All-drop P (suc n) [] h = tt
  All-drop P (suc n) (x ∷ xs) h = All-drop P n xs h.1

  -- What is cut off an ordered list is in order with what is kept.
  pub IsOrdered-take :
      (R : A → A → Type 0) (n : ℕ) (xs : List A)
      → IsOrdered R xs
      → IsOrdered R (take n xs) × All (λ x. All (R x) (drop n xs)) (take n xs)
  IsOrdered-take R zero xs h = (tt, tt)
  IsOrdered-take R (suc n) [] h = (tt, tt)
  IsOrdered-take R (suc n) (x ∷ xs) (h, hs) =
      let (o, c) = IsOrdered-take R n xs hs in
      ((All-take (R x) n xs h, o), (All-drop (R x) n xs h, c))

  pub keep_all : {f : A → Bool} → ((a : A) → f a ≡ true) → (xs : List A) → keep f xs ≡ xs
  keep_all h [] = refl
  keep_all h (x ∷ xs) = rw h (ap (x ∷◌) (keep_all h xs))

  pub take-drop : (n : ℕ) (xs : List A) → take n xs ++ drop n xs ≡ xs
  take-drop zero xs = refl
  take-drop (suc n) [] = refl
  take-drop (suc n) (x ∷ xs) = ap (x ∷◌) (take-drop n xs)

module _ {A : Type 0} (before : A → A → Bool) where
  place-perm : (x : A) (xs : List A) → Perm (place before x xs) (x ∷ xs)
  unfolding place
  place-perm x [] = Perm.refl (x ∷ [])
  place-perm x (y ∷ ys) =
      if-split (λ r. Perm r (x ∷ y ∷ ys)) (before y x)
        (λ _. Perm.trans (Perm.cons y (place-perm x ys)) (Perm.swap x y ys))
        (λ _. Perm.refl (x ∷ y ∷ ys))

  pub sort_stable-perm : (xs : List A) → Perm (sort_stable before xs) xs
  unfolding sort_stable
  sort_stable-perm [] = Perm.refl []
  sort_stable-perm (x ∷ xs) =
      Perm.trans (place-perm x (sort_stable before xs)) (Perm.cons x (sort_stable-perm xs))

  length-place : (x : A) (xs : List A) → length (place before x xs) ≡ suc (length xs)
  unfolding place
  length-place x [] = refl
  length-place x (y ∷ ys) =
      if-split (λ (r : List A). length r ≡ suc (suc (length ys))) (before y x)
        (λ _. ap suc (length-place x ys)) (λ _. refl)

  pub length-sort_stable : (xs : List A) → length (sort_stable before xs) ≡ length xs
  unfolding sort_stable
  length-sort_stable [] = refl
  length-sort_stable (x ∷ xs) =
      length-place x (sort_stable before xs) ∙ ap suc (length-sort_stable xs)

  place-each : (P : A → Type 0) (x : A) (xs : List A) → P x → All P xs → All P (place before x xs)
  unfolding place
  place-each P x [] h hs = (h, tt)
  place-each P x (y ∷ ys) h (k, hs) =
      if-split (All P) (before y x) (λ _. (k, place-each P x ys h hs)) (λ _. (h, (k, hs)))

  pub sort_stable-each : (P : A → Type 0) (xs : List A) → All P xs → All P (sort_stable before xs)
  unfolding sort_stable
  sort_stable-each P [] h = tt
  sort_stable-each P (x ∷ xs) (h, hs) =
      place-each P x (sort_stable before xs) h (sort_stable-each P xs hs)

  -- No item is before one that stands in front of it, for an order that is asymmetric and where not
  -- being before is transitive.
  module _ (asymmetric : (a b : A) → before a b ≡ true → before b a ≡ false)
      (transitive : (a b c : A)
        → before b a ≡ false
        → before c b ≡ false
        → before c a ≡ false) where
    abbrev Behind : A → A → Type 0
    Behind a b = before b a ≡ false

    place-All :
        (y x : A) (xs : List A)
        → Behind y x
        → All (Behind y) xs
        → All (Behind y) (place before x xs)
    unfolding place
    place-All y x [] h hs = (h, tt)
    place-All y x (z ∷ zs) h (k, hs) =
        if-split (All (Behind y)) (before z x) (λ _. (k, place-All y x zs h hs)) (λ _. (h, (k, hs)))

    place-IsOrdered :
        (x : A) (xs : List A) → IsOrdered Behind xs → IsOrdered Behind (place before x xs)
    unfolding place
    place-IsOrdered x [] h = (tt, tt)
    place-IsOrdered x (y ∷ ys) (h, hs) =
        if-split (IsOrdered Behind) (before y x)
          (λ b. (place-All y x ys (asymmetric y x b) h, place-IsOrdered x ys hs))
          (λ n. ((n, All-weaken (λ z g. transitive x y z n g) ys h), (h, hs)))

    pub sort_stable-IsOrdered : (xs : List A) → IsOrdered Behind (sort_stable before xs)
    unfolding sort_stable
    sort_stable-IsOrdered [] = tt
    sort_stable-IsOrdered (x ∷ xs) =
        place-IsOrdered x (sort_stable before xs) (sort_stable-IsOrdered xs)

  -- Items of one kind, none of them before another, keep their order.
  module _ (p : A → Bool) (level : (a b : A) → p a ≡ true → p b ≡ true → before a b ≡ false) where
    keep-place : (x : A) (xs : List A) → keep p (place before x xs) ≡ keep p (x ∷ xs)
    unfolding place
    keep-place x [] = refl
    keep-place x (y ∷ ys) =
        if-split (λ r. keep p r ≡ keep p (x ∷ y ∷ ys)) (before y x)
          (λ b. ground (arith, keep-place x ys, level y x)) (λ _. refl)

    pub keep-sort_stable : (xs : List A) → keep p (sort_stable before xs) ≡ keep p xs
    unfolding sort_stable
    keep-sort_stable [] = refl
    keep-sort_stable (x ∷ xs) =
        keep-place x (sort_stable before xs) ∙ ground (arith, keep-sort_stable xs)
