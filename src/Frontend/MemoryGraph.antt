-- ===== src/Frontend/MemoryGraph.antt =====
-- The memory that a trace reports and the readings of its graph: TraceMemory of
-- frontend/view/model.go and MemorySeries of frontend/view/memory.go. Coordinates and shares, which
-- are floats, are left out.
use mathlib.Core.List.{Perm}
use oida.Prelude.{
  ltb, if◌then◌else◌, Bool-cases, if-split, length, get_or, All, ℤ, pos, pos_part, sub_ℕ, ◌+ℤ◌,
  ◌≤ℤ◌, ltb_ℤ, leb_ℤ, Text, bytes, ◌-◌, ◌*◌, ◌^◌, ◌≡◌, refl, ◌⊎◌, inl, inr, Bool, true, false, not,
  ◌&&◌, ◌||◌, List, [], ◌∷◌, arith,
}
use oida.Model.Data.{Trace}
use oida.Model.Attributes.{Reals, int64}
use oida.Model.Statistics.Tallies.{max_ℤ}
use oida.Model.Statistics.Sorting.{sort_stable}
use oida.Model.Statistics.Stable.{
  IsOrdered, All-weaken, IsOrdered-weaken, sort_stable-perm, sort_stable-each,
  sort_stable-IsOrdered,
}
use oida.Frontend.Rows.{SpanRow}

pub record MemoryBudget : Type 0 where
  pub limit : ℤ
  pub has_limit : Bool
  pub used : ℤ
  pub has_used : Bool
  pub peak : ℤ
  pub spans : Bool

record MemoryPoint : Type 0 where
  pub name : Text
  pub offset : ℤ
  pub size : ℤ

record MemorySeries : Type 0 where
  pub points : List MemoryPoint
  pub ceiling : ℤ
  pub limited : Bool

-- `2*p` for a positive number of 64 bits, with its wrap.
abbrev doubled : ℤ → ℤ
doubled p = let n = 2 * pos_part p in if ltb n (2 ^ 63) then pos n else sub_ℕ n (2 ^ 64)

module _ (r : Reals) where
  -- The reading of a row, and whether it has one.
  abbrev reading : SpanRow → ℤ × Bool
  reading row = int64 r (bytes "memory_usage") row.span.attributes

  -- The loop of TraceMemory, with the peak and whether a row has reported.
  read_rows : ℤ → Bool → List SpanRow → ℤ × Bool
  unfolding int64
  read_rows peak reported [] = (peak, reported)
  read_rows peak reported (row ∷ rows) =
      if (reading row).1
      then read_rows (max_ℤ peak (reading row).0) true rows
      else read_rows peak reported rows

  unfoldable pub trace_memory : Trace → List SpanRow → MemoryBudget
  unfolding int64 read_rows
  trace_memory t rows =
      let (limit, has_limit) = int64 r (bytes "memory_limit") t.attributes in
      let (used, has_used) = int64 r (bytes "memory_usage") t.attributes in
      let (peak, reported) = read_rows (pos 0) false rows in
      record {
        limit = limit;
        has_limit = has_limit;
        used = used;
        has_used = has_used;
        peak = peak;
        spans = reported;
      }

  unfoldable pub known : MemoryBudget → Bool
  known b = b.has_limit || b.has_used || b.spans

  -- The readings in the order of the rows.
  points_of : List SpanRow → List MemoryPoint
  unfolding int64
  points_of [] = []
  points_of (row ∷ rows) =
      let rest = points_of rows in
      if (reading row).1
      then record {
        name = row.span.name;
        offset = row.offset +ℤ row.span.duration;
        size = (reading row).0;
      }
        ∷ rest
      else rest

  abbrev earlier : MemoryPoint → MemoryPoint → Bool
  earlier a b = ltb_ℤ a.offset b.offset

  -- Whether the limit shares the scale.
  abbrev within_reach : MemoryBudget → Bool
  within_reach b = b.has_limit && ltb_ℤ (pos 0) b.limit && leb_ℤ b.limit (doubled b.peak)

  memory_series : MemoryBudget → List SpanRow → MemorySeries
  unfolding points_of sort_stable
  memory_series b rows =
      if not b.spans || leb_ℤ b.peak (pos 0)
      then record { points = []; ceiling = pos 0; limited = false }
      else record {
        points = sort_stable earlier (points_of rows);
        ceiling = if within_reach b then max_ℤ b.peak b.limit else b.peak;
        limited = within_reach b;
      }

  unfoldable last_point : MemorySeries → MemoryPoint
  last_point s =
      get_or s.points (length s.points - 1) (record { name = []; offset = pos 0; size = pos 0 })

  max_ℤ-le : (a b : ℤ) → (a ≤ℤ max_ℤ a b) × (b ≤ℤ max_ℤ a b)
  max_ℤ-le a b = ground arith

  le_trans : (a b c : ℤ) → a ≤ℤ b → b ≤ℤ c → a ≤ℤ c
  le_trans a b c h k = omega arith

  read_rows-Peak :
      (peak : ℤ) (reported : Bool) (rows : List SpanRow)
      → let top = (read_rows peak reported rows).0 in
        (peak ≤ℤ top) × All (λ (p : MemoryPoint). p.size ≤ℤ top) (points_of rows)
  unfolding read_rows points_of
  read_rows-Peak peak reported [] = (omega arith, tt)
  read_rows-Peak peak reported (row ∷ rows) = elim (Bool-cases (reading row).1) [
    | inl y ↦
        let value = (reading row).0 in
        let (l, all) = read_rows-Peak (max_ℤ peak value) true rows in
        let top = (read_rows (max_ℤ peak value) true rows).0 in
        let (p, v) = max_ℤ-le peak value in
        rw y (
          le_trans peak (max_ℤ peak value) top p l,
          (le_trans value (max_ℤ peak value) top v l, all),
        )
    | inr n ↦ rw n (read_rows-Peak peak reported rows)
  ]

  earlier-order : (a b : MemoryPoint) → earlier b a ≡ false → a.offset ≤ℤ b.offset
  earlier-order a b h = ground arith

  sorted_points :
      (b : MemoryBudget) (rows : List SpanRow)
      → All (λ (p : MemoryPoint). p.size ≤ℤ b.peak) (points_of rows)
      → let s = memory_series b rows in
        All (λ (p : MemoryPoint). p.size ≤ℤ s.ceiling) s.points
        × IsOrdered (λ (p q : MemoryPoint). p.offset ≤ℤ q.offset) s.points
        × ((s.points ≡ []) ⊎ Perm s.points (points_of rows))
  unfolding memory_series
  sorted_points b rows h =
      let found = points_of rows in
      let Good = λ (s : MemorySeries).
        All (λ (p : MemoryPoint). p.size ≤ℤ s.ceiling) s.points
        × IsOrdered (λ (p q : MemoryPoint). p.offset ≤ℤ q.offset) s.points
        × ((s.points ≡ []) ⊎ Perm s.points found) in
      let top = if within_reach b then max_ℤ b.peak b.limit else b.peak in
      let covers : b.peak ≤ℤ top =
        if-split (λ c. b.peak ≤ℤ c) (within_reach b) (λ _. (max_ℤ-le b.peak b.limit).0)
          (λ _. omega arith) in
      if-split Good (not b.spans || leb_ℤ b.peak (pos 0)) (λ _. (tt, tt, inl refl))
        (λ _. (
          sort_stable-each earlier (λ (p : MemoryPoint). p.size ≤ℤ top) found
              (All-weaken (λ p k. le_trans p.size b.peak top k covers) found h),
          IsOrdered-weaken earlier-order (sort_stable earlier found) (
              sort_stable-IsOrdered earlier (λ a c k. ground arith) (λ a c d k l. ground arith)
                found),
          inr (sort_stable-perm earlier found),
        ))

  -- On the graph of what a trace reported, no reading is above the ceiling, the readings stand in the
  -- order in which they were taken, and they are those of the rows, or none at all.
  memory_series-IsOrdered :
      (t : Trace) (rows : List SpanRow)
      → let s = memory_series (trace_memory t rows) rows in
        All (λ (p : MemoryPoint). p.size ≤ℤ s.ceiling) s.points
        × IsOrdered (λ (p q : MemoryPoint). p.offset ≤ℤ q.offset) s.points
        × ((s.points ≡ []) ⊎ Perm s.points (points_of rows))
  unfolding trace_memory
  memory_series-IsOrdered t rows =
      sorted_points (trace_memory t rows) rows (read_rows-Peak (pos 0) false rows).1
