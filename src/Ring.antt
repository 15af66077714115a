-- ===== src/Ring.antt =====
-- The ring buffer of completed traces, internal/ring/ring.go. The items are generic behind
-- `Retained`, the part of a trace that the buffer relies on. The nil receiver is not modelled.
pub mod Slots
pub mod Window
pub mod History
use oida.Prelude.{
  ℕ, zero, suc, ◌+◌, ◌-◌, ◌*◌, ◌%◌, ◌≡◌, Bool, true, false, not, Option, none, some, List, [], ◌∷◌,
  arith, length, get_or, set, replicate, ◌==◌, if◌then◌else◌, ℤ, pos_part, Text, text_eq,
}

-- What the buffer needs of an item. `copy` is CloneInto; it reads the clock several times, and
-- the first argument holds the answers. A blank item has no ID, and a copy keeps the ID.
pub record Retained (A : Type 0) : Type 0 where
  pub blank : A
  pub ident : A → Text
  pub copy : (ℕ → ℕ) → A → A
  pub ident-blank : ident blank ≡ []
  pub ident-copy : (answers : ℕ → ℕ) (a : A) → ident (copy answers a) ≡ ident a

pub record Ring (A : Type 0) : Type 0 where
  pub items : List A
  pub next : ℕ
  pub full : Bool

module _ {A : Type 0} where
  pub len : Ring A → ℕ
  len r = if r.full then length r.items else r.next

  unfoldable pub cap : Ring A → ℕ
  cap r = length r.items

  -- `(r.next - 1 - i + len(r.items)*2) % len(r.items)`, the sum taken first: it is not negative.
  abbrev pub index : Ring A → ℕ → ℕ
  index r i = (r.next + length r.items * 2 - 1 - i) % length r.items

module _ {A : Type 0} ⦃e : Retained A⦄ where
  unfoldable pub new : ℤ → Ring A
  new size = record { items = replicate (pos_part size) e.blank; next = 0; full = false }

  -- `ID != ""`
  abbrev pub named : A → Bool
  named a = not (text_eq (e.ident a) [])

  push_slot : (ℕ → ℕ) → A → Ring A → Ring A × Bool
  push_slot answers a r = (
    record r {
      items = set items next (e.copy answers a);
      next = after;
      full = if after == 0 then true else full;
    },
    named (get_or items next e.blank),
  )
    where
      open r use {items, next, full}

      after : ℕ
      after = (next + 1) % length items

  unfoldable pub push : (ℕ → ℕ) → Option A → Ring A → Ring A × Bool
  unfolding push_slot
  push answers none r = (r, false)
  push answers (some a) r = if length r.items == 0 then (r, true) else push_slot answers a r

  -- The loop of List over `i`, with the rounds that are left.
  pub list_from : Ring A → ℕ → ℕ → List A
  list_from r i zero = []
  list_from r i (suc n) =
      let trace = get_or r.items (index r i) e.blank in
      let rest = list_from r (suc i) n in if named trace then trace ∷ rest else rest

  unfoldable pub list : Ring A → List A
  unfolding list_from len
  list r = if length r.items == 0 then [] else list_from r 0 (len r)

  unfoldable pub find_in : Text → List A → Option A
  find_in id [] = none
  find_in id (trace ∷ rest) = if text_eq (e.ident trace) id then some trace else find_in id rest

  unfoldable pub find : Text → Ring A → Option A
  unfolding find_in list
  find id r = if text_eq id [] then none else find_in id (list r)

  pub reset : Ring A → Ring A
  reset r = record { items = replicate (length r.items) e.blank; next = 0; full = false }
