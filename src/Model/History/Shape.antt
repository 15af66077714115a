-- ===== src/Model/History/Shape.antt =====
-- The spans of a trace as a tree: numbered in the order they started, each below an earlier span
-- or at the top, and recorded in that order.
use oida.Prelude.{length, ℕ, suc, ◌+◌, ◌≤◌, ◌<◌, ◌≡◌, ◌⊎◌, true, List, [], ◌∷◌}
use oida.Model.Data.{Trace}
use oida.Model.Details.{Core, core_at}
use oida.Model.Timing.{boxed, last}

-- Span `i` has the number after `i`, started at a recorded reading, and hangs at the top or one
-- below a span that started before it.
pub record Node (at : ℕ → Core) (latest i : ℕ) : Type 0 where
  pub number : (at i).id ≡ suc i
  pub recorded : (at i).start ≤ latest
  pub hangs :
      (((at i).parent ≡ 0) × ((at i).depth ≡ 0))
      ⊎ ((p : ℕ) × (p < i)
          × ((at i).parent ≡ suc p)
          × ((at i).depth ≡ (at p).depth + 1)
          × ((at p).start < (at i).start))

-- Positions from `k` on that rise and stay below `n`.
abbrev pub Rising : ℕ → List ℕ → ℕ → Type 0
Rising k [] n = Unit {0}
Rising k (x ∷ xs) n = (k ≤ x) × (x < n) × Rising (suc x) xs n

pub record IsTree (t : Trace) : Type 0 where
  pub live : boxed t ≡ true
  pub numbered : length t.store ≡ t.sequence
  pub node : (i : ℕ) → i < length t.store → Node (core_at t.store) (last t) i
  pub rising : Rising 0 t.spans (length t.store)
