-- ===== src/Ring/History.antt =====
-- The ring buffer over a whole history of pushes, and the lookups on it.
use mathlib.Core.List.{reverse-cons, append_assoc, append-nil}
use oida.Prelude.{
  Bool-cases, take, keep, length-replicate, take-take, ℤ, pos_part, Text, text_eq, text_eq_iff, ℕ,
  zero, suc, ◌≡◌, refl, sym, ap, ◌∙◌, ◌≢◌, ◌↔◌, ◌⊎◌, inl, inr, some, List, [], ◌∷◌, ◌++◌, map,
  reverse, arith,
}
use oida.Ring.{Retained, Ring, cap, new, named, push, find_in, find}
use oida.Ring.Slots.{IsValid, new-IsValid, push-IsValid, cap-push}
use oida.Ring.Window.{window-new, window, window-push, list-window}

-- A push as the tracer makes it: the answers of the clock to CloneInto, and the trace.
abbrev pub Pushed : Type 0 → Type 0
Pushed A = (ℕ → ℕ) × A

take_front {ℓ} :
    {A : Type ℓ} (k : ℕ) (x : A) (xs : List A) → take k (x ∷ take k xs) ≡ take k (x ∷ xs)
take_front zero x xs = refl
take_front (suc k) x xs = ap (◌∷◌ x) (take-take k (suc k) xs (omega arith))

cap-new : {A : Type 0} (e : Retained A) (size : ℤ) → cap (new ⦃e = e⦄ size) ≡ pos_part size
unfolding cap new
cap-new e size = length-replicate (pos_part size) e.blank

module _ {A : Type 0} ⦃e : Retained A⦄ where
  -- Pushes in order, oldest first.
  unfoldable pub push_all : List (Pushed A) → Ring A → Ring A
  push_all [] r = r
  push_all ((answers, a) ∷ ps) r = push_all ps (push answers (some a) r).0

  abbrev pub copies : List (Pushed A) → List A
  copies = map λ p. e.copy p.0 p.1

  pub push_all-IsValid : (ps : List (Pushed A)) (r : Ring A) → IsValid r → IsValid (push_all ps r)
  unfolding push_all
  push_all-IsValid [] r v = v
  push_all-IsValid ((answers, a) ∷ ps) r v =
      push_all-IsValid ps (push answers (some a) r).0 (push-IsValid answers (some a) r v)

  pub window-push_all :
      (ps : List (Pushed A)) (r : Ring A) (older : List A)
      → IsValid r
      → window r ≡ take (cap r) older
      → window (push_all ps r) ≡ take (cap r) (reverse (copies ps) ++ older)
  unfolding push_all
  window-push_all [] r older v h = h
  window-push_all ((answers, a) ∷ ps) r older v h =
      let r' = (push answers (some a) r).0 in
      let c = cap-push answers (some a) r in
      window-push_all ps r' (e.copy answers a ∷ older) (push-IsValid answers (some a) r v)
        (window-push answers a r v ∙ rw (c, h) (take_front (cap r) (e.copy answers a) older))
      ∙ rw (c, reverse-cons (e.copy answers a) (copies ps))
          (ap (take (cap r))
            (sym (append_assoc (reverse (copies ps)) (e.copy answers a ∷ []) older)))

  -- After any history of pushes on a new buffer of `size` slots, what the buffer holds is the last
  -- `size` copies, newest first; a negative size is none.
  pub window-history :
      (size : ℤ) (ps : List (Pushed A))
      → window (push_all ps (new size)) ≡ take (pos_part size) (reverse (copies ps))
  window-history size ps =
      let c = cap-new e size in
      window-push_all ps (new size) [] (new-IsValid size) (rw c (window-new size))
      ∙ rw (c, append-nil)

  -- `a` is the first item of the list with the ID.
  abbrev pub Newest : Text → List A → A → Type 0
  Newest id [] a = ⊥
  Newest id (x ∷ xs) a = ((e.ident x ≡ id) × (x ≡ a)) ⊎ ((e.ident x ≢ id) × Newest id xs a)

  find_in-Newest : (id : Text) (xs : List A) (a : A) → find_in id xs ≡ some a → Newest id xs a
  unfolding find_in
  find_in-Newest id [] a h = cc
  find_in-Newest id (x ∷ xs) a h = elim (Bool-cases (text_eq (e.ident x) id)) [
    | inl y ↦ inl ((text_eq_iff (e.ident x) id).0 y, ground arith)
    | inr n ↦
        inr (λ q. ground (arith, text_eq_iff (e.ident x) id), find_in-Newest id xs a (rw n at h))
  ]

  Newest-find_in : (id : Text) (xs : List A) (a : A) → Newest id xs a → find_in id xs ≡ some a
  unfolding find_in
  Newest-find_in id [] a h = elim h [ ]
  Newest-find_in id (x ∷ xs) a (inl (i, q)) = ground (arith, text_eq_iff (e.ident x) id)
  Newest-find_in id (x ∷ xs) a (inr (i, n)) =
      ground (arith, text_eq_iff (e.ident x) id, Newest-find_in id xs a n)

  -- Items without an ID do not matter to a search for an ID.
  find_in-keep-named :
      (id : Text) (xs : List A) → id ≢ [] → find_in id (keep named xs) ≡ find_in id xs
  unfolding find_in
  find_in-keep-named id [] h = refl
  find_in-keep-named id (x ∷ xs) h =
      ground
        (arith, text_eq_iff (e.ident x) [], text_eq_iff (e.ident x) id, find_in-keep-named id xs h)

  find-window : (id : Text) (r : Ring A) → IsValid r → id ≢ [] → find id r ≡ find_in id (window r)
  unfolding find
  find-window id r v h = elim (Bool-cases (text_eq id [])) [
    | inl y ↦ absurd (h ((text_eq_iff id []).0 y))
    | inr n ↦ rw (n, list-window r v) (find_in-keep-named id (window r) h)
  ]

  -- On a valid buffer Find returns an item for a nonempty ID exactly when that item is the newest
  -- one held with this ID, so it returns nothing exactly when none is held.
  pub find-Newest :
      (id : Text) (r : Ring A) (a : A)
      → IsValid r
      → id ≢ []
      → (find id r ≡ some a) ↔ Newest id (window r) a
  find-Newest id r a v h = (
    λ p. find_in-Newest id (window r) a (sym (find-window id r v h) ∙ p),
    λ n. find-window id r v h ∙ Newest-find_in id (window r) a n,
  )
