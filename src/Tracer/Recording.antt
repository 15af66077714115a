-- ===== src/Tracer/Recording.antt =====
-- Starting, finishing and observing a trace, tracer.go. What the clock, the memory counters and
-- NewID answer is an argument.
use oida.Prelude.{
  if◌then◌else◌, length, Text, text_eq, insert, delete, ℕ, ◌+◌, ◌%◌, ◌^◌, ◌⊎◌, inl, inr, Bool, true,
  not, Option, none, some, [], ◌∷◌, ◌++◌,
}
use oida.Model.State.{processing}
use oida.Model.Data.{GoError, HttpInfo, MemCounters, Trace}
use oida.Tracer.Store.{Store}
use oida.Tracer.State.{
  Tracer, background_host, trace_host, count_request, trace_at, put_trace, add_times, report,
}
use oida.Model.Recording.{record_error, new_trace, set_state, set_http_info, failed}
use oida.Model.Spans.{start_span}
use oida.Model.Finishing.{state_times}
use oida.Model.Finishing as Finishing
use oida.Model.Memory.{track_memory, record_memory}
use oida.Model.Spans.{kind_internal}

-- What the calls of one Finish read: the clock for the trace and for each span, the memory
-- counters, the clock for the states, and the clock for the copy that storage makes.
pub record Readings : Type 0 where
  pub now : ℕ
  pub ends : ℕ → ℕ
  pub counters : MemCounters
  pub states_at : ℕ
  pub copy : ℕ → ℕ

-- The trace that `begin` makes.
pub begun : {S : Type 0} → ℕ → MemCounters → Text → Text → Option HttpInfo → Tracer S → Trace
unfolding new_trace set_http_info track_memory
begun now counters id name info t =
    let trace = set_http_info info (new_trace now id name t.opts.trace_options) in
    if t.opts.track_memory_use then track_memory counters trace else trace

unfoldable pub begin :
    {S : Type 0} → ℕ → MemCounters → Text → Text → Option HttpInfo → Tracer S → ℕ × Tracer S
unfolding begun trace_host count_request
begin now counters id name info t =
    let trace = begun now counters id name info t in
    (
      length t.heap,
      record t {
        heap = t.heap ++ (trace ∷ []);
        total = t.total + 1;
        sampled = t.sampled + 1;
        requests = count_request (trace_host trace) t.requests;
        active = insert id (length t.heap) t.active;
        notified = t.notified + 1;
      },
    )

-- StartTrace returns ErrDisabled, the error of NewID, or a trace.
pub data Started : Type 0 where
  disabled : Started
  unidentified : GoError → Started
  started : ℕ → Started

-- ReleaseOnCollect
release_on_collect : Trace → Trace
release_on_collect trace = elim trace.box [
  | none ↦ trace
  | some b ↦ record trace { box = some (record b { armed = true }) }
]

-- The trace that StartTrace hands out: it is processing, with a span of its name open.
prepared : ℕ → ℕ → Text → Trace → Trace
unfolding release_on_collect set_state start_span
prepared processing_at started_at name trace =
    (start_span started_at none name (kind_internal ∷ [])
      (set_state processing_at processing (release_on_collect trace))).2

unfoldable pub start_trace :
    {S : Type 0} → (ℕ → ℕ) → MemCounters → GoError ⊎ Text → Text → Tracer S → Started × Tracer S
unfolding begin prepared trace_at put_trace
start_trace answers counters new_id name t = if not t.enabled then (disabled, t) else elim new_id [
  | inl e ↦ (unidentified e, t)
  | inr id ↦
      let (i, t') = begin (answers 0) counters id name none t in
      (started i, put_trace i (prepared (answers 1) (answers 2) name (trace_at i t')) t')
]

unfoldable pub count_unsampled : {S : Type 0} → Text → Tracer S → Tracer S
unfolding count_request
count_unsampled host t = record t {
  total = t.total + 1;
  unsampled = t.unsampled + 1;
  requests = count_request (if text_eq host [] then background_host else host) t.requests;
}

-- trace.Finish and, if it is tracked, trace.RecordMemory.
unfoldable pub completed : Bool → Readings → Trace → Trace
unfolding Finishing.finish record_memory
completed tracked r trace =
    let trace' = Finishing.finish r.now r.ends trace in
    if tracked then record_memory r.counters trace' else trace'

-- What Finish does to the tracer under its lock.
unfoldable pub retire : {S : Type 0} → ℕ → Trace → Tracer S → Tracer S
unfolding add_times failed state_times
retire states_at trace t = record t {
  active = delete trace.id t.active;
  failed = if failed trace then t.failed + 1 else t.failed;
  state_time = add_times t.state_time (state_times states_at trace);
  samples = if t.opts.track_memory_use then t.samples + 1 else t.samples;
  allocated =
      if t.opts.track_memory_use
      then (t.allocated + trace.memory.allocated_bytes) % 2 ^ 64
      else t.allocated;
}

module _ {S : Type 0} (store : Store S) where
  -- The save, its failure reported, and the notification.
  unfoldable pub hand_over : (ℕ → ℕ) → Trace → Tracer S → Tracer S
  unfolding report
  hand_over copy trace t =
      let (answer, storage) = store.save copy trace t.storage in
      let t' = report answer (record t { storage = storage }) in
      record t' { notified = t'.notified + 1 }

  unfoldable pub finish_trace : Readings → ℕ → Tracer S → Tracer S
  unfolding completed retire hand_over trace_at put_trace
  finish_trace r i t =
      let trace = completed t.opts.track_memory_use r (trace_at i t) in
      hand_over r.copy trace (retire r.states_at trace (put_trace i trace t))

  -- Observe; `job` is given the trace, if there is one, and the tracer, which others use meanwhile.
  -- A job that panics is not modelled.
  unfoldable pub observe :
      (ℕ → ℕ)
      → MemCounters
      → GoError ⊎ Text
      → ℕ
      → Readings
      → Text
      → (Option ℕ → Tracer S → Option GoError × Tracer S)
      → Tracer S
      → Option GoError × Tracer S
  unfolding start_trace record_error finish_trace trace_at put_trace
  observe answers counters new_id raw r name job t =
      let (s, t1) = start_trace answers counters new_id name t in
      elim s [
        | disabled ↦ job none t1
        | unidentified e ↦ job none t1
        | started i ↦
            let (e, t2) = job (some i) t1 in
            (e, finish_trace r i (put_trace i (record_error raw e (trace_at i t2)) t2))
      ]
