-- ===== src/Model/Memory.antt =====
-- The allocation counters of a trace, model/trace.go. Counters are 64-bit words.
pub mod Clamping
use oida.Prelude.{ltb, leb, if◌then◌else◌, ℤ, pos, negsuc, sub_ℕ, ℕ, ◌-◌, ◌%◌, ◌^◌}
use oida.Model.Data.{MemCounters, Trace, no_counters}

abbrev pub max_int64 : ℕ
max_int64 = 2 ^ 63 - 1

delta : ℕ → ℕ → ℕ
delta after before = if ltb after before then 0 else after - before

-- `negsuc max_int64` is math.MinInt64; `sub_ℕ 0 d` is `-int64(d)`.
pub signed_delta : ℕ → ℕ → ℤ
signed_delta after before =
    if leb before after
    then if ltb max_int64 (after - before) then pos max_int64 else pos (after - before)
    else if ltb max_int64 (before - after)
    then negsuc max_int64
    else sub_ℕ 0 (before - after)

-- The conversion of a 64-bit word to int64.
to_int64 : ℕ → ℤ
to_int64 x = if leb x max_int64 then pos x else sub_ℕ x (2 ^ 64)

unfoldable pub track_memory : MemCounters → Trace → Trace
track_memory counters t = record t { mem_before = counters }

unfoldable pub record_memory : MemCounters → Trace → Trace
unfolding delta signed_delta to_int64
record_memory after t = record t {
  memory = record {
    heap_delta = signed_delta after.heap_bytes t.mem_before.heap_bytes;
    allocated_bytes = delta after.alloc_bytes t.mem_before.alloc_bytes;
    allocations = delta after.allocs t.mem_before.allocs;
    gc_cycles = delta after.gc_count t.mem_before.gc_count % 2 ^ 32;
    gc_pause = to_int64 (delta after.pause_ns t.mem_before.pause_ns);
  };
  mem_before = no_counters;
}
