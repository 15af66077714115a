-- ===== src/Ring/Slots.antt =====
-- The representation invariant of the ring buffer, and where its index arithmetic lands.
use Prim.Native.Nat.{◌≤◌, ◌<◌}
use native.Mathlib.Decide.{dec_lt}
use native.Mathlib.Nat.{mod-eq_of_lt, mod-eq-sub-mod}
use oida.Prelude.{
  ℕ, suc, ◌+◌, ◌-◌, ◌*◌, ◌%◌, ◌≡◌, refl, ◌⊎◌, ◌≢◌, inl, inr, Option, none, some, arith, length,
  length-set, length-replicate, ℤ, pos_part,
}
use oida.Ring.{Ring, Retained, new, push, len, cap, reset}

-- The write position is a slot, if there is one.
pub record IsValid {A : Type 0} (r : Ring A) : Type 0 where
  pub inside : (r.next < length r.items) ⊎ ((length r.items ≡ 0) × (r.next ≡ 0))

mod-two-laps : (v l : ℕ) → 0 < l → l ≤ v → v < l + l → v % l ≡ v - l
mod-two-laps v l h a b =
    omega (arith, mod-eq-sub-mod {n = v} {m = l} a, mod-eq_of_lt {n = v - l} {m = l} (omega arith))

mod-three-laps : (v l : ℕ) → 0 < l → l + l ≤ v → v < l + l + l → v % l ≡ v - l - l
mod-three-laps v l h a b = omega (
  arith,
  mod-eq-sub-mod {n = v} {m = l} (omega arith),
  mod-two-laps (v - l) l h (omega arith) (omega arith),
)

-- Counting back from the write position `n` of `l` slots stays inside the slots already written in
-- this lap ...
back_below : (n l i : ℕ) → n < l → i < n → (n + l * 2 - 1 - i) % l ≡ n - 1 - i
back_below n l i h k =
    omega (arith, mod-three-laps (n + l * 2 - 1 - i) l (omega arith) (omega arith) (omega arith))

-- ... and goes on from the last slot.
back_above : (n l i : ℕ) → n < l → n ≤ i → i < l → (n + l * 2 - 1 - i) % l ≡ n + l - 1 - i
back_above n l i h k b =
    omega (arith, mod-two-laps (n + l * 2 - 1 - i) l (omega arith) (omega arith) (omega arith))

-- (next + 1) % len
pub after_cases :
    (n l : ℕ) → n < l → ((n + 1 < l) × ((n + 1) % l ≡ n + 1)) ⊎ ((n + 1 ≡ l) × ((n + 1) % l ≡ 0))
after_cases n l h = elim (dec_lt (n + 1) l) [
  | yes p ↦ inl (p, mod-eq_of_lt p)
  | no p ↦
      inr (
        omega arith,
        omega (arith, mod-two-laps (n + 1) l (omega arith) (omega arith) (omega arith)),
      )
]

-- One step on, the slots keep their order and the slot just written comes first.
pub back_after :
    (n l i m : ℕ)
    → n < l
    → suc i < l
    → m ≡ (n + 1) % l
    → ((m + l * 2 - 1 - suc i) % l ≡ (n + l * 2 - 1 - i) % l) × ((n + l * 2 - 1 - i) % l ≢ n)
back_after n l i m h k em = elim (dec_lt i n) [
  | yes p ↦ elim (after_cases n l h) [
    | inl c ↦
        omega (arith, back_below n l i h p, back_below m l (suc i) (omega arith) (omega arith))
    | inr c ↦
        omega (arith, back_below n l i h p, back_above m l (suc i) (omega arith) (omega arith) k)
  ]
  | no p ↦ elim (after_cases n l h) [
    | inl c ↦ omega (
      arith,
      back_above n l i h (omega arith) (omega arith),
      back_above m l (suc i) (omega arith) (omega arith) k,
    )
    | inr c ↦ omega (
      arith,
      back_above n l i h (omega arith) (omega arith),
      back_above m l (suc i) (omega arith) (omega arith) k,
    )
  ]
]

pub back_first : (n l m : ℕ) → n < l → m ≡ (n + 1) % l → (m + l * 2 - 1 - 0) % l ≡ n
back_first n l m h em = elim (after_cases n l h) [
  | inl c ↦ omega (arith, back_below m l 0 (omega arith) (omega arith))
  | inr c ↦ omega (arith, back_above m l 0 (omega arith) (omega arith) (omega arith))
]

module _ {A : Type 0} where
  pub len-le-cap : (r : Ring A) → IsValid r → len r ≤ cap r
  unfolding len cap
  len-le-cap r v = ground arith

module _ {A : Type 0} ⦃e : Retained A⦄ where
  pub new-IsValid : (size : ℤ) → IsValid (new {A = A} size)
  unfolding new
  new-IsValid size = ground (arith, length-replicate (pos_part size) e.blank)

  pub push-IsValid :
      (answers : ℕ → ℕ) (t : Option A) (r : Ring A) → IsValid r → IsValid (push answers t r).0
  unfolding push
  push-IsValid answers none r v = v
  push-IsValid answers (some a) r v =
      ground
        (arith, length-set r.items r.next (e.copy answers a), after_cases r.next (length r.items))

  reset-IsValid : (r : Ring A) → IsValid (reset r)
  unfolding reset
  reset-IsValid r = ground (arith, length-replicate (length r.items) e.blank)

  pub cap-push : (answers : ℕ → ℕ) (t : Option A) (r : Ring A) → cap (push answers t r).0 ≡ cap r
  unfolding cap push
  cap-push answers none r = refl
  cap-push answers (some a) r = ground (arith, length-set r.items r.next (e.copy answers a))
