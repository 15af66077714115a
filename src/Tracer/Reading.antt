-- ===== src/Tracer/Reading.antt =====
-- Reading what a tracer recorded and resetting it, tracer.go.
use oida.Prelude.{
  if◌then◌else◌, replicate, pos, Text, text_eq, lookup, ℕ, ◌≡◌, refl, Option, none, some, List, [],
}
use oida.Model.State.{num_states}
use oida.Model.Data.{Trace}
use oida.Model.Cloning.{clone}
use oida.Storage.Results.{cancelled, not_found, invalid_id, io, ok, fail}
use oida.Tracer.Store.{Store}
use oida.Tracer.State.{Tracer, trace_at, report}

module _ {S : Type 0} (store : Store S) where
  unfoldable pub traces : (ℕ → ℕ → ℕ) → Tracer S → List Trace × Tracer S
  unfolding report
  traces answers t = elim (store.list answers (pos 0) t.storage) [
    | ok ts ↦ (ts, t)
    | fail e ↦ ([], report (fail e) t)
  ]

  -- The copy of the trace in flight under the ID.
  pub in_flight : (ℕ → ℕ) → Text → Tracer S → Option Trace
  unfolding trace_at clone
  in_flight answers id t = elim (lookup id t.active) [
    | none ↦ none
    | some i ↦ some (clone answers (trace_at i t))
  ]

  -- Trace: a retained trace, or one in flight; a failure but ErrTraceNotFound is reported.
  unfoldable pub trace : (ℕ → ℕ) → Text → Tracer S → Option Trace × Tracer S
  unfolding in_flight report
  trace answers id t =
      let active = in_flight answers id t in
      if text_eq id [] then (none, t) else elim (store.load answers id t.storage) [
        | ok found ↦ (some found, t)
        | fail e ↦ elim e [
          | cancelled x ↦ (active, report (fail (cancelled x)) t)
          | not_found ↦ (active, t)
          | invalid_id ↦ (active, report (fail invalid_id) t)
          | io x ↦ (active, report (fail (io x)) t)
        ]
      ]

  unfoldable pub reset : Tracer S → Tracer S
  unfolding report
  reset t =
      let (answer, storage) = store.reset t.storage in
      record (report answer (record t { storage = storage })) {
        total = 0;
        sampled = 0;
        unsampled = 0;
        failed = 0;
        samples = 0;
        allocated = 0;
        state_time = replicate num_states (pos 0);
        requests = [];
      }

  traces-listed :
      (answers : ℕ → ℕ → ℕ) (t : Tracer S) (ts : List Trace)
      → store.list answers (pos 0) t.storage ≡ ok ts
      → traces answers t ≡ (ts, t)
  unfolding traces
  traces-listed answers t ts h = rw (h, traces) refl

  -- After a reset that storage carries out, Traces lists nothing and reports no failure of its
  -- own.
  traces-reset :
      (answers : ℕ → ℕ → ℕ) (t : Tracer S)
      → (store.reset t.storage).0 ≡ ok tt
      → traces answers (reset t) ≡ ([], reset t)
  unfolding reset report
  traces-reset answers t h =
      traces-listed answers (reset t) [] (rw h (store.list-reset answers (pos 0) t.storage h))
