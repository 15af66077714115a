-- ===== src/Ring/Window.antt =====
-- The ring buffer as the list of what it holds, newest first, internal/ring/ring.go.
use Prim.Native.Nat.{◌≤◌, ◌<◌}
use oida.Prelude.{
  take_all, ℤ, pos_part, length-replicate, ℕ, zero, suc, ◌+◌, ◌-◌, ◌%◌, ◌≡◌, refl, sym, ap, ap₂,
  ◌∙◌, inl, inr, true, some, List, [], ◌∷◌, min, arith, length, length-set, get_or, get_or-set_self,
  get_or-set_ne, take, keep, ◌==◌, Bool-cases, length-replicate,
}
use oida.Ring.{new, Ring, Retained, push, push_slot, len, cap, reset, index, named, list, list_from}
use oida.Ring.Slots.{IsValid, back_after, back_first, after_cases}

zero_min : (n : ℕ) → min 0 n ≡ 0
zero_min n = omega arith

min_zero : (n : ℕ) → min n 0 ≡ 0
min_zero n = omega arith

min-suc : (k n : ℕ) → min (suc k) (suc n) ≡ suc (min k n)
min-suc k n = omega arith

module _ {A : Type 0} ⦃e : Retained A⦄ where
  -- `n` slots, going back from the i-th newest.
  pub slots : Ring A → ℕ → ℕ → List A
  slots r i zero = []
  slots r i (suc n) = get_or r.items (index r i) e.blank ∷ slots r (suc i) n

  pub window : Ring A → List A
  window r = slots r 0 (len r)

  length-slots : (r : Ring A) (i n : ℕ) → length (slots r i n) ≡ n
  unfolding slots
  length-slots r i zero = refl
  length-slots r i (suc n) = ap suc (length-slots r (suc i) n)

  take-slots : (r : Ring A) (i k n : ℕ) → take k (slots r i n) ≡ slots r i (min k n)
  unfolding slots
  take-slots r i zero n = rw (zero_min n)
  take-slots r i (suc k) zero = rw (min_zero (suc k))
  take-slots r i (suc k) (suc n) =
      rw (min-suc k n) (ap (◌∷◌ (get_or r.items (index r i) e.blank)) (take-slots r (suc i) k n))

  -- The slots behind the one just written are those of before.
  slots-push_slot :
      (answers : ℕ → ℕ) (a : A) (r : Ring A) (i n : ℕ)
      → r.next < length r.items
      → suc i + n ≤ length r.items
      → slots (push_slot answers a r).0 (suc i) n ≡ slots r i n
  unfolding slots push_slot
  slots-push_slot answers a r i zero h k = refl
  slots-push_slot answers a r i (suc n) h k =
      let m = (r.next + 1) % length r.items in
      let l = length-set r.items r.next (e.copy answers a) in
      let back = back_after r.next (length r.items) i m h (omega arith) refl in
      ap₂ ◌∷◌
        (rw (l, back.0) (get_or-set_ne r.items r.next (index r i) _ e.blank (λ q. back.1 (sym q))))
        (slots-push_slot answers a r (suc i) n h (omega arith))

  -- The slot just written comes first.
  slots-push_slot_first :
      (answers : ℕ → ℕ) (a : A) (r : Ring A) (n : ℕ)
      → r.next < length r.items
      → suc n ≤ length r.items
      → slots (push_slot answers a r).0 0 (suc n) ≡ e.copy answers a ∷ slots r 0 n
  unfolding slots push_slot
  slots-push_slot_first answers a r n h k =
      let m = (r.next + 1) % length r.items in
      let l = length-set r.items r.next (e.copy answers a) in
      let first = back_first r.next (length r.items) m h refl in
      ap₂ ◌∷◌ (rw (l, first) (get_or-set_self r.items r.next _ e.blank h))
        (slots-push_slot answers a r 0 n h (omega arith))

  len-push_slot :
      (answers : ℕ → ℕ) (a : A) (r : Ring A)
      → IsValid r
      → r.next < length r.items
      → len (push_slot answers a r).0 ≡ min (length r.items) (suc (len r))
  unfolding len push_slot
  len-push_slot answers a r v h =
      ground
        (arith, length-set r.items r.next (e.copy answers a), after_cases r.next (length r.items) h)

  push-some :
      (answers : ℕ → ℕ) (a : A) (r : Ring A)
      → r.next < length r.items
      → push answers (some a) r ≡ push_slot answers a r
  unfolding push push_slot
  push-some answers a r h = ground arith

  push_no_slot :
      (answers : ℕ → ℕ) (a : A) (r : Ring A)
      → length r.items ≡ 0
      → push answers (some a) r ≡ (r, true)
  unfolding push
  push_no_slot answers a r h = ground arith

  len-no_slot : (r : Ring A) → IsValid r → length r.items ≡ 0 → len r ≡ 0
  unfolding len
  len-no_slot r v h = ground arith

  slots_none : (r : Ring A) → IsValid r → length r.items ≡ 0 → slots r 0 (len r) ≡ []
  unfolding slots
  slots_none r v h = rw (len-no_slot r v h)

  -- Pushing an item on a valid buffer puts the item's copy in front of what the buffer holds and
  -- keeps the newest as many as there are slots; with no slots the buffer stays empty.
  pub window-push :
      (answers : ℕ → ℕ) (a : A) (r : Ring A)
      → IsValid r
      → window (push answers (some a) r).0 ≡ take (cap r) (e.copy answers a ∷ window r)
  unfolding window cap
  window-push answers a r v = elim v.inside [
    | inl h ↦ rw (push-some answers a r h, len-push_slot answers a r v h) (filled h)
    | inr z ↦ rw (push_no_slot answers a r z.0, z.0) (slots_none r v z.0)
  ]
    where
      filled :
          r.next < length r.items
          → slots (push_slot answers a r).0 0 (min (length r.items) (suc (len r)))
            ≡ take (cap r) (e.copy answers a ∷ slots r 0 (len r))
      filled h =
          let k = length r.items - 1 in
          let l : length r.items ≡ suc k = omega arith in
          let m : min (length r.items) (suc (len r)) ≡ suc (min k (len r)) = omega arith in
          rw m (
            slots-push_slot_first answers a r (min k (len r)) h (omega arith)
            ∙ ap (◌∷◌ (e.copy answers a)) (sym (take-slots r 0 k (len r)))
            ∙ ap (λ c. take c (e.copy answers a ∷ slots r 0 (len r))) (sym l))

  list_from-slots : (r : Ring A) (i n : ℕ) → list_from r i n ≡ keep named (slots r i n)
  unfolding list_from slots
  list_from-slots r i zero = refl
  list_from-slots r i (suc n) = ground (arith, list_from-slots r (suc i) n)

  -- List returns what a valid buffer holds, newest first, without the items that have no ID.
  pub list-window : (r : Ring A) → IsValid r → list r ≡ keep named (window r)
  unfolding list window
  list-window r v = elim (Bool-cases (length r.items == 0)) [
    | inl z ↦ rw (z, slots_none r v (ground arith))
    | inr p ↦ rw (p, list_from-slots r 0 (len r))
  ]

  -- A reset leaves the slots and empties them.
  window-reset : (r : Ring A) → (window (reset r) ≡ []) × (cap (reset r) ≡ cap r)
  unfolding window reset len cap slots
  window-reset r = (refl, length-replicate (length r.items) e.blank)

  pub list-reset : (r : Ring A) → list (reset r) ≡ []
  unfolding list reset list_from len
  list-reset r = ground arith

  pub length-window : (r : Ring A) → length (window r) ≡ len r
  unfolding window
  length-window r = length-slots r 0 (len r)

  pub window-new : (size : ℤ) → window (new {A = A} size) ≡ take (pos_part size) []
  unfolding window new len slots
  window-new size = sym (take_all (pos_part size) [] (omega arith))
