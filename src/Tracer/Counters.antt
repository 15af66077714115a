-- ===== src/Tracer/Counters.antt =====
-- The counters of a tracer over any interleaving of calls.
use oida.Prelude.{
  if◌then◌else◌, Text, text_eq, Map, lookup, insert, ℕ, ◌+◌, ◌≡◌, refl, ◌⊎◌, inl, inr, Bool, Option,
  none, some, List, [], ◌∷◌, arith,
}
use oida.Model.Data.{GoError, MemCounters, Trace}
use oida.Storage.Results.{Result, ok, fail}
use oida.Internal.ResponseWriter.{Writer}
use oida.Tracer.Store.{Store}
use oida.Tracer.State.{
  TracerOptions, Tracer, background_host, trace_host, count_request, new_tracer, trace_at,
  put_trace, report, set_enabled,
}
use oida.Tracer.Recording.{
  Readings, begun, begin, start_trace, count_unsampled, completed, retire, hand_over, finish_trace,
}
use oida.Tracer.Requests.{
  Request, http_info, titled, recovered_into, responded, Clocks, finalize, arrive, leave,
}
use oida.Tracer.Reading.{reset}

-- The sum of the counts per host.
pub requests_sum : Map ℕ → ℕ
requests_sum [] = 0
requests_sum ((host, n) ∷ m) = n + requests_sum m

-- A call, or a part of a request: concurrent requests arrive and leave in any order.
pub data Call : Type 0 where
  starts : (ℕ → ℕ) → MemCounters → GoError ⊎ Text → Text → Call
  finishes : Readings → ℕ → Call
  arrives : Clocks → Text → Request → Call
  leaves : Clocks → Request → ℕ → Option ℕ → Writer → Option GoError → Call
  rejects : Text → Call
  enables : Bool → Call
  clears : Call

-- Every unit of work was sampled or not, and every one is counted under one host.
abbrev pub IsBalanced : {S : Type 0} → Tracer S → Type 0
IsBalanced t = (t.total ≡ t.sampled + t.unsampled) × (requests_sum t.requests ≡ t.total)

requests_sum-insert :
    (host : Text) (n : ℕ) (m : Map ℕ)
    → requests_sum (insert host n m) + (elim (lookup host m) [ none ↦ 0 | some k ↦ k ])
      ≡ requests_sum m + n
unfolding requests_sum insert lookup
requests_sum-insert host n [] = omega arith
requests_sum-insert host n ((j, k) ∷ m) = ground (arith, requests_sum-insert host n m)

requests_sum-count :
    (host : Text) (m : Map ℕ) → requests_sum (count_request host m) ≡ requests_sum m + 1
unfolding count_request
requests_sum-count host m =
    omega (arith, requests_sum-insert host ((elim (lookup host m) [ none ↦ 0 | some k ↦ k ]) + 1) m)

module _ {S : Type 0} (store : Store S) where
  unfoldable pub step : Call → Tracer S → Tracer S
  unfolding start_trace finish_trace arrive leave count_unsampled set_enabled reset
  step (starts answers counters new_id name) t = (start_trace answers counters new_id name t).1
  step (finishes r i) t = finish_trace store r i t
  step (arrives c id r) t = (arrive store c id r t).1
  step (leaves c r i s w panicked) t = leave store c r i s w panicked t
  step (rejects host) t = count_unsampled host t
  step (enables b) t = set_enabled b t
  step clears t = reset store t

  unfoldable pub run : List Call → Tracer S → Tracer S
  unfolding step
  run [] t = t
  run (c ∷ cs) t = run cs (step c t)

  report-IsBalanced :
      (a : Result (Unit {0})) (t : Tracer S) → IsBalanced t → IsBalanced (report a t)
  unfolding report
  report-IsBalanced (ok u) t v = v
  report-IsBalanced (fail e) t v = v

  hand_over-IsBalanced :
      (copy : ℕ → ℕ) (trace : Trace) (t : Tracer S)
      → IsBalanced t
      → IsBalanced (hand_over store copy trace t)
  unfolding hand_over
  hand_over-IsBalanced copy trace t v =
      let (answer, storage) = store.save copy trace t.storage in
      report-IsBalanced answer (record t { storage = storage }) v

  finish_trace-IsBalanced :
      (r : Readings) (i : ℕ) (t : Tracer S) → IsBalanced t → IsBalanced (finish_trace store r i t)
  unfolding finish_trace retire put_trace
  finish_trace-IsBalanced r i t v =
      let trace = completed t.opts.track_memory_use r (trace_at i t) in
      hand_over-IsBalanced r.copy trace (retire r.states_at trace (put_trace i trace t)) v

  reset-IsBalanced : (t : Tracer S) → IsBalanced (reset store t)
  unfolding reset report requests_sum
  reset-IsBalanced t = elim (store.reset t.storage).0 [
    | ok u ↦ (refl, refl)
    | fail e ↦ (refl, refl)
  ]

  step-IsBalanced : (c : Call) (t : Tracer S) → IsBalanced t → IsBalanced (step c t)
  unfolding step start_trace arrive begin leave finalize put_trace set_enabled count_unsampled reset
  step-IsBalanced (starts answers counters (inl e) name) t v = ground arith
  step-IsBalanced (starts answers counters (inr id) name) t v = ground (
    arith,
    requests_sum-count (trace_host (begun (answers 0) counters id name none t)) t.requests,
  )
  step-IsBalanced (finishes r i) t v = finish_trace-IsBalanced r i t v
  step-IsBalanced (arrives c id r) t v = ground (
    arith,
    requests_sum-count
        (trace_host
          (begun (c.before 0) c.counters id (titled r.method r.path) (some (http_info r)) t))
        t.requests,
  )
  step-IsBalanced (leaves c r i s w panicked) t v =
      let trace =
        responded c.after c.http_error r w (recovered_into c.recovered s panicked w.trace) in
      finish_trace-IsBalanced c.last i (put_trace i trace t) v
  step-IsBalanced (rejects host) t v =
      ground
        (arith, requests_sum-count (if text_eq host [] then background_host else host) t.requests)
  step-IsBalanced (enables b) t v = v
  step-IsBalanced clears t v = reset-IsBalanced t

  run-balances : (cs : List Call) (t : Tracer S) → IsBalanced t → IsBalanced (run cs t)
  unfolding run
  run-balances [] t v = v
  run-balances (c ∷ cs) t v = run-balances cs (step c t) (step-IsBalanced c t v)

  -- Over any calls on a new tracer, requests that overlap and resets between them included, the
  -- total is the sampled and the unsampled work together, and the counts per host add up to it.
  pub run-IsBalanced :
      (opts : TracerOptions) (enabled : Bool) (s : S) (cs : List Call)
      → IsBalanced (run cs (new_tracer opts enabled s))
  run-IsBalanced opts enabled s cs =
      run-balances cs (new_tracer opts enabled s) (unfold new_tracer requests_sum in (refl, refl))
