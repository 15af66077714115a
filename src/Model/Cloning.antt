-- ===== src/Model/Cloning.antt =====
-- Inert deep copies, CloneInto of model/trace.go and cloneInto of model/span.go. Reusing what the
-- destination already owns changes no value, so a copy is a function of the trace and of the
-- answers of the clock, one for each span and one for the trace.
pub mod Archive
use oida.Prelude.{
  ltb, leb, ◌==◌, if◌then◌else◌, ltb→lt, lt→ltb, ==_iff, Bool-cases, Option-cases, length, get_or,
  set, take, drop, replicate, keep, All, length-append, length-set, length-replicate, length-take,
  get_or-set_self, get_or-set_ne, take-take, take_all, length-keep-le, ℤ, pos, negsuc, pos_part,
  neg_part, sub_ℕ, ◌+ℤ◌, ◌≤ℤ◌, ◌<ℤ◌, ltb_ℤ, leb_ℤ, sub_ℕ_parts, +ℤ_parts, eq_of_parts, int_laws,
  Text, bytes, text_eq, text_eq_refl, text_eq_sound, text_eq_iff, Map, lookup, insert, delete,
  lookup-insert, lookup-delete, ℕ, zero, suc, ◌+◌, ◌-◌, ◌*◌, ◌/◌, ◌%◌, ◌^◌, ◌≤◌, ◌<◌, min, ◌≡◌,
  refl, sym, ap, ap₂, ◌∙◌, subst, ◌≢◌, ◌↔◌, ◌⊎◌, inl, inr, Bool, true, false, not, ◌&&◌, ◌||◌,
  Option, none, some, List, [], ◌∷◌, ◌++◌, map, reverse, arith,
}
use oida.Model.State.{
  State, waiting, starting, reading, processing, writing, keepalive, closing, error, unknown,
  states, num_states, state_index, is_error, get_or-states, state_index-lt,
}
use oida.Model.Data.{
  Value, int, text, opaque, Attributes, GoError, HttpInfo, MemoryUse, MemCounters, LogEntry, Span,
  Box, Trace, TraceOptions, no_memory, no_counters, zero_span, zero_trace, span_at, span_list,
}
use oida.Model.Clock.{stamp, time, peek, stamp-lt}

-- `if d < 0 { d = 0 }`
pub clamped : ℤ → ℤ
clamped d = if ltb_ℤ d (pos 0) then pos 0 else d

pub clone_span : ℕ → Trace → Span → Span
unfolding clamped peek
clone_span raw t s =
    let now = if s.attached then peek raw t else raw in
    record s {
      attached = false;
      duration = if s.ended then s.duration else clamped (sub_ℕ now s.started_at);
    }

pub clone_spans : (ℕ → ℕ) → Trace → List ℕ → List Span
unfolding clone_span
clone_spans answers t [] = []
clone_spans answers t (i ∷ is) =
    clone_span (answers 0) t (span_at i t) ∷ clone_spans (λ k. answers (suc k)) t is

-- The positions k, k + 1, … for the entries of a list.
pub positions : ℕ → List ℕ → List ℕ
positions k [] = []
positions k (i ∷ is) = k ∷ positions (suc k) is

unfoldable pub clone : (ℕ → ℕ) → Trace → Trace
unfolding clone_spans positions peek
clone answers t = record t {
  in_flight = not t.finished;
  box = none;
  store = clone_spans answers t t.spans;
  spans = positions 0 t.spans;
  duration =
      if pos_part t.duration == 0 && neg_part t.duration == 0
      then sub_ℕ (peek (answers (length t.spans)) t) t.started_at
      else t.duration;
}
