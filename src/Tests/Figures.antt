-- ===== src/Tests/Figures.antt =====
-- An event stream, a snapshot, a child span, and figures in words.
use oida.Prelude.{
  length, All, pos, sub_ℕ, ◌+ℤ◌, ◌≤ℤ◌, bytes, ℕ, ◌+◌, ◌/◌, ◌<◌, min, ◌≡◌, refl, ◌≢◌, ◌⊎◌, true,
  Option, some, List, [], ◌∷◌, ◌++◌, arith,
}
use oida.Frontend.Streaming.{
  Phase, opening, listening, settling, drained, returned, Stream, Event, changes, notifies,
  receives, settles, draws, pings, disconnects, open_stream, returns, write_live_event,
  receive_event, drain, step, run, own_event, proceed, IsCurrent, IsIdle, run-IsIdle,
}
use oida.Frontend.Streaming as Streaming
use oida.Frontend.Format.{Figures, unit_size, prefixes, letter, bytes_text}
use oida.Frontend.Format.Sizes.{IsScaled, bytes_text-IsScaled}
use oida.Model.Data.{Trace}
use oida.Model.Contexts.{Context, background, trace_layer, trace_from_context, span_in, start}
use oida.Model.Contexts.Nesting.{start-Nests}
use oida.Model.Recording.{new_trace, set_state, add_at}
use oida.Model.State.{processing, state_index}
use oida.Model.Clock.{peek}
use oida.Model.Durations.{durations, state_durations, duration_sum, state_durations-sum}
use oida.Model.History as History
use oida.Model.History.{run-IsTimed}
use oida.Tracer.State.{new_tracer}
use oida.Tracer.Counters as Counters
use oida.Tracer.Retained.{memory_Store}
use oida.Tracer.Snapshots.{Observed, snapshot, snapshot-Accounts}
use oida.Tests.Traces.{options, print}
use oida.Tests.Retained.{driver}
use oida.Tests.Requests.{settings, work}

-- A trace starts and ends while an event is being prepared.
abbrev burst : List Event
burst =
    draws true
    ∷ changes
    ∷ notifies
    ∷ receives
    ∷ changes
    ∷ notifies
    ∷ settles
    ∷ changes
    ∷ draws true
    ∷ notifies
    ∷ []

abbrev streamed : Stream
streamed = Streaming.run burst (open_stream 4)

still_open : streamed.phase ≢ returned
unfolding Streaming.run open_stream
still_open e = cc e

run-IsIdle_example : IsIdle streamed (proceed 4 streamed)
run-IsIdle_example = run-IsIdle 4 burst still_open

abbrev figures : Figures
figures = record { itoa = λ n. 0 ∷ []; tenths = λ n d. n / d ∷ [] }

bytes_text-IsScaled_example :
    (3000000 < unit_size
      × (bytes_text figures 3000000 ≡ some (figures.itoa (pos 3000000) ++ bytes " B")))
    ⊎ ((div : ℕ) × (exp : ℕ) × (c : ℕ) × IsScaled 3000000 div exp
        × (letter exp prefixes ≡ some c)
        × (bytes_text figures 3000000
            ≡ some (figures.tenths 3000000 div ++ bytes " " ++ (c ∷ bytes "iB"))))
bytes_text-IsScaled_example = bytes_text-IsScaled 3000000 (omega arith) figures

abbrev heap : List Trace
heap = new_trace 100 (bytes "01A") (bytes "GET /") options ∷ []

abbrev root_context : Option Context
root_context = some (trace_layer 0 background)

-- A span and a span in its context: the second stands below the first.
start-Nests_example :
    let (inner, span, heap') = start 101 root_context (bytes "page") [] heap in
    let (innermost, span', heap'') = start 102 inner (bytes "SELECT") [] heap' in
    (trace_from_context inner ≡ some 0)
    × (span' ≡ some (0, 1)
        → ((span_in heap'' (0, 1)).parent_id ≡ (span_in heap' (0, 0)).id)
          × ((span_in heap'' (0, 1)).depth ≡ (span_in heap' (0, 0)).depth + 1))
unfolding start trace_from_context new_trace
start-Nests_example =
    start-Nests 101 102 root_context (bytes "page") (bytes "SELECT") [] [] heap 0 0 1 refl
      (omega arith) refl

abbrev entered : List (ℕ × History.Call)
entered = (105, History.enters processing) ∷ []

abbrev running : Trace
running = History.run print entered (new_trace 100 (bytes "01A") (bytes "GET /") options)

running_slots : All (λ d. pos 0 ≤ℤ d) (durations 120 running).slots
unfolding durations History.run History.step set_state new_trace sub_ℕ state_index add_at ◌+ℤ◌
running_slots = (
  omega arith,
  (
    omega arith,
    (omega arith, (omega arith, (omega arith, (omega arith, (omega arith, (omega arith, tt)))))),
  ),
)

state_durations-sum_example :
    duration_sum (state_durations (durations 120 running))
    ≡ sub_ℕ (peek 120 running) running.started_at
unfolding History.run History.step set_state new_trace
state_durations-sum_example =
    state_durations-sum 120 running
      (run-IsTimed print 100 (bytes "01A") (bytes "GET /") options entered) refl refl running_slots

abbrev observed : Observed
observed = record {
  started = 50;
  top_requests = pos 3;
  memory = record { heap_alloc = 100; system = 200; next_gc = 300; limit = 0 };
  copies = λ i k. k;
  states_at = λ i. 500;
  listed = λ i k. k;
  now = 600;
}

snapshot-Accounts_example :
    let seen =
      (snapshot memory_Store observed
        (Counters.run memory_Store work (new_tracer settings true driver))).0 in
    (seen.dropped + min seen.sampled (length seen.log + length seen.live) ≡ seen.total)
    × (seen.active
        ≡ length (Counters.run memory_Store work (new_tracer settings true driver)).active)
snapshot-Accounts_example = snapshot-Accounts memory_Store settings true driver work observed
