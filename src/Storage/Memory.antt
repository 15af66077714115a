-- ===== src/Storage/Memory.antt =====
-- The in-memory driver, storage/memory_storage.go: a ring buffer of traces behind a lock. A call is
-- one step. `done` is what ctx.Err() returns, and `answers` what the clock answers to each copy.
pub mod Retention
use oida.Prelude.{
  ltb, leb, ◌==◌, if◌then◌else◌, ltb→lt, lt→ltb, ==_iff, Bool-cases, Option-cases, if-split, length,
  get_or, set, take, drop, replicate, keep, All, length-append, length-set, length-replicate,
  length-take, get_or-set_self, get_or-set_ne, take-take, take_all, length-keep-le,
  get_or-append_lt, get_or-append_end, ℤ, pos, negsuc, pos_part, neg_part, sub_ℕ, ◌+ℤ◌, ◌≤ℤ◌, ◌<ℤ◌,
  ltb_ℤ, leb_ℤ, sub_ℕ_parts, +ℤ_parts, eq_of_parts, int_laws, Text, bytes, text_eq, text_eq_refl,
  text_eq_sound, text_eq_iff, Map, lookup, insert, delete, lookup-insert, lookup-delete, ℕ, zero,
  suc, ◌+◌, ◌-◌, ◌*◌, ◌/◌, ◌%◌, ◌^◌, ◌≤◌, ◌<◌, min, fun_ext, ◌≡◌, refl, sym, ap, ap₂, ◌∙◌, subst,
  ◌≢◌, ◌↔◌, ◌⊎◌, inl, inr, Bool, true, false, not, ◌&&◌, ◌||◌, Option, none, some, List, [], ◌∷◌,
  ◌++◌, map, reverse, arith,
}
use oida.Ring
use oida.Ring.{Ring, Retained}
use oida.Model.State.{
  State, waiting, starting, reading, processing, writing, keepalive, closing, error, unknown,
  states, num_states, state_index, is_error, get_or-states, state_index-lt,
}
use oida.Model.Data.{
  Value, int, text, opaque, Attributes, GoError, HttpInfo, MemoryUse, MemCounters, LogEntry, Span,
  Box, Trace, TraceOptions, no_memory, no_counters, zero_span, zero_trace, span_at, span_list,
}
use oida.Model.Cloning.{clamped, clone_span, clone_spans, positions, clone}
use oida.Storage.Results.{
  Failure, cancelled, not_found, invalid_id, io, Result, ok, fail, ◌>>=◌, check, ◌>>◌,
}

pub ident-clone : (answers : ℕ → ℕ) (t : Trace) → (clone answers t).id ≡ t.id
unfolding clone
ident-clone answers t = refl

-- Traces are what the ring buffer retains.
instance abbrev pub trace_Retained : Retained Trace
trace_Retained = record {
  blank = zero_trace;
  ident = λ t. t.id;
  copy = clone;
  ident-blank = refl;
  ident-copy = ident-clone;
}

abbrev pub Memory : Type 0
Memory = Ring Trace

unfoldable pub new_memory_storage : ℤ → Memory
new_memory_storage size = Ring.new size

-- A nil trace is `none`.
unfoldable pub save : Option GoError → (ℕ → ℕ) → Option Trace → Memory → Result (Unit {0}) × Memory
save (some e) answers t m = (fail (cancelled e), m)
save none answers t m = (ok tt, (Ring.push answers t m).0)

unfoldable pub load : Option GoError → (ℕ → ℕ) → Text → Memory → Result Trace
load done answers id m = do
  check done
  elim (Ring.find id m) [ none ↦ fail not_found | some t ↦ ok (clone answers t) ]

-- A deep copy of each trace.
unfoldable pub clones : (ℕ → ℕ → ℕ) → List Trace → List Trace
clones answers [] = []
clones answers (t ∷ ts) = clone (answers 0) t ∷ clones (λ k. answers (suc k)) ts

-- A limit of zero or less is none.
unfoldable pub limited : ℤ → List Trace → List Trace
limited limit ts =
    if ltb_ℤ (pos 0) limit && ltb_ℤ limit (pos (length ts)) then take (pos_part limit) ts else ts

unfoldable pub list : Option GoError → (ℕ → ℕ → ℕ) → ℤ → Memory → Result (List Trace)
unfolding clones limited
list done answers limit m = do check done; ok (clones answers (limited limit (Ring.list m)))

unfoldable pub len : Option GoError → Memory → Result ℕ
len done m = do check done; ok (Ring.len m)

unfoldable pub cap : Memory → ℕ
cap m = Ring.cap m

unfoldable pub reset : Option GoError → Memory → Result (Unit {0}) × Memory
reset (some e) m = (fail (cancelled e), m)
reset none m = (ok tt, Ring.reset m)
