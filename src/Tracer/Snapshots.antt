-- ===== src/Tracer/Snapshots.antt =====
-- Live and Snapshot, tracer.go, with the records of model/model.go. What the runtime reports about
-- the process is an argument, and of it only the figures that are computed with are kept. Traces in
-- flight that started together may come in another order in the program.
use mathlib.Core.List.{Perm}
use oida.Prelude.{
  ltb, if◌then◌else◌, length, ℤ, pos, sub_ℕ, ◌+ℤ◌, Text, Map, ℕ, suc, ◌+◌, ◌-◌, ◌*◌, ◌/◌, ◌≤◌, min,
  ◌≡◌, refl, ap, ◌∙◌, Bool, false, ◌&&◌, Option, none, some, List, [], ◌∷◌, arith,
}
use oida.Model.Data.{Trace}
use oida.Model.Cloning.{clone}
use oida.Model.Durations.{StateTimes, StateDuration, durations, state_durations}
use oida.Model.Statistics.Tallies.{Ratio}
use oida.Model.Statistics.Sorting.{sort_stable}
use oida.Model.Statistics.Stable.{
  IsOrdered, IsOrdered-weaken, sort_stable-perm, sort_stable-IsOrdered, length-sort_stable,
}
use oida.Model.Statistics.Report.{Stats, statistics}
use oida.Tracer.Store.{Store}
use oida.Tracer.State.{TracerOptions, Tracer, trace_at, new_tracer, add_times}
use oida.Tracer.Reading.{traces}
use oida.Tracer.Counters.{Call, run, run-IsBalanced}

-- The memory of the process, and its limit.
pub record ProcessMemory : Type 0 where
  pub heap_alloc : ℕ
  pub system : ℕ
  pub next_gc : ℕ
  pub limit : ℕ

pub record PoolEstimate : Type 0 where
  pub samples : ℕ
  pub average_allocated_bytes : ℕ
  pub before_next_gc : ℕ
  pub within_memory_limit : ℕ

-- `failed_share` is what the SLA lacks of 100 percent, none of which stands for no sampled trace.
pub record Snapshot : Type 0 where
  pub service : Text
  pub started_at : ℕ
  pub uptime : ℤ
  pub total : ℕ
  pub sampled : ℕ
  pub dropped : ℕ
  pub active : ℕ
  pub errors : ℕ
  pub failed_share : Option Ratio
  pub state_time : List StateDuration
  pub memory : ProcessMemory
  pub pool : PoolEstimate
  pub live : List Trace
  pub log : List Trace
  pub statistics : Stats

abbrev pub zero_snapshot : Snapshot
zero_snapshot = record {
  service = [];
  started_at = 0;
  uptime = pos 0;
  total = 0;
  sampled = 0;
  dropped = 0;
  active = 0;
  errors = 0;
  failed_share = none;
  state_time = [];
  memory = record { heap_alloc = 0; system = 0; next_gc = 0; limit = 0 };
  pool = record {
    samples = 0;
    average_allocated_bytes = 0;
    before_next_gc = 0;
    within_memory_limit = 0;
  };
  live = [];
  log = [];
  statistics = record {
    window_size = 0;
    window_limit = pos 0;
    top_limit = pos 0;
    top = [];
    hosts = [];
  };
}

abbrev pub newer : Trace → Trace → Bool
newer a b = ltb b.started_at a.started_at

-- The loop over the map of active traces; `answers k` are the readings for the k-th of them.
pub clones : {S : Type 0} → (ℕ → ℕ → ℕ) → Map ℕ → Tracer S → List Trace
unfolding clone trace_at
clones answers [] t = []
clones answers ((id, i) ∷ more) t =
    clone (answers 0) (trace_at i t) ∷ clones (λ k. answers (k + 1)) more t

pub live : {S : Type 0} → (ℕ → ℕ → ℕ) → Tracer S → List Trace
unfolding clones sort_stable
live answers t = sort_stable newer (clones answers t.active t)

-- The same loop adding the durations of each trace, which are read from the copied trace's clock.
time_in_states : {S : Type 0} → (ℕ → ℕ) → Map ℕ → Tracer S → StateTimes → StateTimes
unfolding durations trace_at add_times
time_in_states raws [] t times = times
time_in_states raws ((id, i) ∷ more) t times =
    let spent = durations (raws 0) (trace_at i t) in
    time_in_states (λ k. raws (k + 1)) more t
      (record {
        slots = add_times times.slots spent.slots;
        elsewhere = times.elsewhere +ℤ spent.elsewhere;
      })

pool_estimate : ProcessMemory → ℕ → ℕ → PoolEstimate
pool_estimate m samples allocated =
    let average = if ltb 0 samples then allocated / samples else 0 in
    record {
      samples = samples;
      average_allocated_bytes = average;
      before_next_gc =
          if ltb 0 average && ltb m.heap_alloc m.next_gc
          then (m.next_gc - m.heap_alloc) / average
          else 0;
      within_memory_limit =
          if ltb 0 average && ltb m.system m.limit then (m.limit - m.system) / average else 0;
    }

-- When the tracer started, the limit on ranked groups, and what is read for a snapshot: the memory,
-- the clocks of the traces in flight, those of the storage and that of the tracer.
pub record Observed : Type 0 where
  pub started : ℕ
  pub top_requests : ℤ
  pub memory : ProcessMemory
  pub copies : ℕ → ℕ → ℕ
  pub states_at : ℕ → ℕ
  pub listed : ℕ → ℕ → ℕ
  pub now : ℕ

-- Started no earlier.
abbrev pub IsNewer : Trace → Trace → Type 0
IsNewer a b = b.started_at ≤ a.started_at

pub newer-IsNewer : (a b : Trace) → newer b a ≡ false → IsNewer a b
newer-IsNewer a b h = ground arith

module _ {S : Type 0} (store : Store S) where
  pub snapshot : Observed → Tracer S → Snapshot × Tracer S
  unfolding live time_in_states state_durations pool_estimate traces
  snapshot o t =
      let in_flight = live o.copies t in
      let times =
        time_in_states o.states_at t.active t
          (record { slots = t.state_time; elsewhere = pos 0 }) in
      let (log, t') = traces store o.listed t in
      let retained = length log + length in_flight in
      (
        record {
          service = t.opts.trace_options.service;
          started_at = o.started;
          uptime = sub_ℕ o.now o.started;
          total = t.total;
          sampled = t.sampled;
          dropped =
              if ltb retained t.sampled then t.unsampled + (t.sampled - retained) else t.unsampled;
          active = length in_flight;
          errors = t.failed;
          failed_share =
              if ltb 0 t.sampled
              then some (record { part = t.failed * 100; whole = t.sampled })
              else none;
          state_time = state_durations times;
          memory = o.memory;
          pool = pool_estimate o.memory t.samples t.allocated;
          live = in_flight;
          log = log;
          statistics = statistics log (pos (store.cap t.storage)) o.top_requests t.requests;
        },
        t',
      )

  length-clones :
      (answers : ℕ → ℕ → ℕ) (m : Map ℕ) (t : Tracer S) → length (clones answers m t) ≡ length m
  unfolding clones
  length-clones answers [] t = refl
  length-clones answers ((id, i) ∷ more) t = ap suc (length-clones (λ k. answers (k + 1)) more t)

  length-live : (answers : ℕ → ℕ → ℕ) (t : Tracer S) → length (live answers t) ≡ length t.active
  unfolding live
  length-live answers t =
      length-sort_stable newer (clones answers t.active t) ∙ length-clones answers t.active t

  balance :
      (total sampled unsampled retained : ℕ)
      → total ≡ sampled + unsampled
      → (if ltb retained sampled then unsampled + (sampled - retained) else unsampled)
          + min sampled retained
        ≡ total
  balance total sampled unsampled retained h = ground arith

  -- Live returns the copies of the active traces, newest first.
  live-IsOrdered :
      (answers : ℕ → ℕ → ℕ) (t : Tracer S)
      → Perm (live answers t) (clones answers t.active t) × IsOrdered IsNewer (live answers t)
  unfolding live
  live-IsOrdered answers t =
      let found = clones answers t.active t in
      (
        sort_stable-perm newer found,
        IsOrdered-weaken newer-IsNewer (sort_stable newer found)
            (sort_stable-IsOrdered newer (λ a b h. ground arith) (λ a b c h k. ground arith) found),
      )

  -- In a snapshot after any calls on a new tracer, the dropped traces and the sampled ones, of
  -- which no more count than are listed or in flight, add up to the total, and the number of
  -- active traces is that of the tracer's map.
  pub snapshot-Accounts :
      (opts : TracerOptions) (enabled : Bool) (s : S) (cs : List Call) (o : Observed)
      → let seen = (snapshot o (run store cs (new_tracer opts enabled s))).0 in
        (seen.dropped + min seen.sampled (length seen.log + length seen.live) ≡ seen.total)
        × (seen.active ≡ length (run store cs (new_tracer opts enabled s)).active)
  unfolding snapshot
  snapshot-Accounts opts enabled s cs o =
      let (counted, hosts) = run-IsBalanced store opts enabled s cs in
      let t = run store cs (new_tracer opts enabled s) in
      (
        balance t.total t.sampled t.unsampled
            (length (traces store o.listed t).0 + length (live o.copies t)) counted,
        length-live o.copies t,
      )
