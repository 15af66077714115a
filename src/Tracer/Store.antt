-- ===== src/Tracer/Store.antt =====
-- The storage that a tracer is given: the operations of model/storage.go that it calls, and what it
-- relies on. The first argument of `save`, `load` and `list` holds the answers of the clock.
use oida.Prelude.{ℤ, Text, ℕ, ◌≡◌, List, []}
use oida.Model.Data.{Trace}
use oida.Storage.Results.{Result, ok}

pub record Store (S : Type 0) : Type 0 where
  pub save : (ℕ → ℕ) → Trace → S → Result (Unit {0}) × S
  pub load : (ℕ → ℕ) → Text → S → Result Trace
  pub list : (ℕ → ℕ → ℕ) → ℤ → S → Result (List Trace)
  pub cap : S → ℕ
  pub reset : S → Result (Unit {0}) × S
  -- A reset that succeeds leaves nothing to list.
  pub list-reset :
      (answers : ℕ → ℕ → ℕ) (limit : ℤ) (s : S)
      → (reset s).0 ≡ ok tt
      → list answers limit (reset s).1 ≡ ok []
