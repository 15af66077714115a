-- ===== src/Model/Clock.antt =====
-- Readings of the trace clock, model/clock.go. `raw` is what the configured clock answers.
use oida.Prelude.{leb, if◌then◌else◌, ℕ, ◌+◌, ◌≤◌, ◌<◌, none, some, arith}
use oida.Model.Data.{Trace}

-- The reading that `time` records over the last one; the compare-and-swap loop is one step.
pub stamp : ℕ → ℕ → ℕ
stamp last raw = if leb raw last then last + 1 else raw

unfoldable pub time : ℕ → Trace → ℕ × Trace
unfolding stamp
time raw t = elim t.box [
  | none ↦ (raw, t)
  | some b ↦ (
    stamp b.last_nanos raw,
    record t { box = some (record b { last_nanos = stamp b.last_nanos raw }) },
  )
]

unfoldable pub peek : ℕ → Trace → ℕ
peek raw t = elim t.box [ none ↦ raw | some b ↦ if leb raw b.last_nanos then b.last_nanos else raw ]

pub stamp-lt : (last raw : ℕ) → (last < stamp last raw) × (raw ≤ stamp last raw)
unfolding stamp
stamp-lt last raw = ground arith
