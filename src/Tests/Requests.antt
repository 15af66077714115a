-- ===== src/Tests/Requests.antt =====
-- A recorder with in-memory storage, its requests, and what stands around it.
use oida.Prelude.{
  if◌then◌else◌, pos, Text, bytes, ℕ, ◌+◌, ◌/◌, ◌≡◌, refl, ◌↔◌, ◌⊎◌, inr, true, some, List, [], ◌∷◌,
  arith, Option, ◌<◌, length,
}
use oida.Model.Data.{MemCounters, GoError}
use oida.Model.Cloning.Archive.{archived}
use oida.Model.History.{run, run-IsTimed}
use oida.Model.History.Tree.{run-IsTree}
use oida.Storage.Memory.{Memory, trace_Retained}
use oida.Internal.RateSampler.{RateSampler, sampled, sampled-count}
use oida.Internal.IgnoredPath.{ignored_path, Under, AnyCovers, ignored_path_iff}
use oida.Internal.ResponseWriter.{Writer, new_response_writer}
use oida.Internal.ResponseWriter.Answer as Answer
use oida.Internal.ResponseWriter.Answer.{Outcome, run-Outcome}
use oida.Internal.Broker.{Broker, new_broker, idle}
use oida.Internal.Broker.Delivery as Delivery
use oida.Internal.Broker.Delivery.{Notified, notify-Notified, run-never_panics, release_once}
use oida.Internal.Broker.Sending.{IsOpen}
use oida.Tracer.State.{TracerOptions, Tracer, new_tracer, trace_at}
use oida.Tracer.Recording.{Readings, completed, finish_trace, start_trace, started}
use oida.Tracer.Requests.{Request, recovered_into, Clocks, leave}
use oida.Tracer.Reading.{trace}
use oida.Tracer.Counters.{IsBalanced, run-IsBalanced}
use oida.Tracer.Counters as Counters
use oida.Tracer.Outcome.{has_failed, leave-failed}
use oida.Tracer.Retained.{memory_Store, trace-finish_trace}
use oida.Tests.Retained.{nonempty, driver, driver-IsValid, driver_room}
use oida.Tests.Traces.{request, request-id, request-runs_on, options, boom, calls, print, ends_at}

-- One request in three.
abbrev thirds : RateSampler
thirds = record { every = 3; counter = 1 }

sampled-count_example :
    sampled 7 thirds + thirds.counter / thirds.every ≡ (thirds.counter + 7) / thirds.every
sampled-count_example = sampled-count 7 thirds (omega arith) (omega arith)

abbrev ignores : List Text
ignores = bytes "/assets/*" ∷ bytes "/health" ∷ []

ignored_path_iff_example :
    (ignored_path (bytes "/debug") ignores (bytes "/assets/x.js") ≡ true)
    ↔ (Under (bytes "/debug") (bytes "/assets/x.js") ⊎ AnyCovers ignores (bytes "/assets/x.js"))
ignored_path_iff_example = ignored_path_iff (bytes "/debug") ignores (bytes "/assets/x.js")

abbrev answers_404 : List (ℕ × Answer.Call)
answers_404 =
    (300, Answer.heads (pos 404)) ∷ (301, Answer.writes 10) ∷ (302, Answer.heads (pos 500)) ∷ []

run-Outcome_example :
    Outcome answers_404
      (new_response_writer request)
      (Answer.run answers_404 (new_response_writer request))
run-Outcome_example = run-Outcome answers_404 request

abbrev views : Broker
views = record { channels = idle ∷ idle ∷ []; subscribers = 0 ∷ 1 ∷ [] }

views-IsOpen : IsOpen views
views-IsOpen = ((omega arith, refl), ((omega arith, refl), tt))

notify-Notified_example : (b' : Broker) × Notified views b'
notify-Notified_example = notify-Notified views views-IsOpen

abbrev traffic : List Delivery.Call
traffic =
    Delivery.subscribes
    ∷ Delivery.subscribes
    ∷ Delivery.releases 0
    ∷ Delivery.notifies
    ∷ Delivery.closes 0
    ∷ Delivery.notifies
    ∷ []

run-never_panics_example : (b : Broker) × (Delivery.run traffic new_broker ≡ some b) × IsOpen b
run-never_panics_example = run-never_panics traffic

abbrev pub settings : TracerOptions
settings = record {
  trace_options = options;
  track_memory_use = true;
  trust_request_id = true;
  path = bytes "/debug";
  ignore_paths = ignores;
}

abbrev counters : MemCounters
counters = record { heap_bytes = 50; alloc_bytes = 900; allocs = 9; gc_count = 1; pause_ns = 4 }

abbrev readings : Readings
readings = record {
  now = 400;
  ends = ends_at;
  counters = counters;
  states_at = 401;
  copy = ends_at;
}

-- The request of the traces module is in flight in it.
abbrev recorder : Tracer Memory
recorder = record (new_tracer settings true driver) {
  storage = driver;
  heap = request ∷ [];
  active = (bytes "01A", 0) ∷ [];
}

trace-finish_trace_example :
    (trace memory_Store ends_at
      (trace_at 0 recorder).id
      (finish_trace memory_Store readings 0 recorder)).0
    ≡ some (archived (completed true readings (trace_at 0 recorder)))
unfolding trace_at run new_tracer
trace-finish_trace_example =
    trace-finish_trace readings 0 ends_at recorder
      (run-IsTimed print 100 (bytes "01A") (bytes "GET /") options calls)
      (run-IsTree print 100 (bytes "01A") (bytes "GET /") options calls) request-runs_on
      (rw request-id (nonempty 48 (bytes "1A"))) driver-IsValid driver_room

abbrev clocks : Clocks
clocks = record {
  counters = counters;
  before = λ k. 500 + k;
  recovered = 510;
  after = λ k. 520 + k;
  http_error = record { identity = 9; message = bytes "http 503" };
  last = readings;
}

abbrev get : Request
get = record {
  method = bytes "GET";
  path = bytes "/";
  uri = bytes "/";
  host = bytes "shop";
  protocol = bytes "HTTP/1.1";
  remote_address = bytes "::1";
  user_agent = [];
  given = [];
  route = [];
}

abbrev pub work : List Counters.Call
work =
    Counters.arrives clocks (bytes "01A") get
    ∷ Counters.rejects (bytes "shop")
    ∷ Counters.starts (λ k. 600 + k) counters (inr (bytes "01B")) (bytes "cron")
    ∷ Counters.finishes readings 1
    ∷ Counters.leaves clocks get 0 (some 0) (new_response_writer request) (some boom)
    ∷ []

run-IsBalanced_example :
    IsBalanced (Counters.run memory_Store work (new_tracer settings true driver))
run-IsBalanced_example = run-IsBalanced memory_Store settings true driver work

abbrev answered_503 : Writer
answered_503 = record (new_response_writer request) { status = pos 503 }

leave-failed_example :
    (leave memory_Store clocks get 0 (some 0) answered_503 (some boom) recorder).failed
    ≡ recorder.failed
      + (if has_failed answered_503
            (recovered_into clocks.recovered (some 0) (some boom) answered_503.trace)
          then 1
          else 0)
unfolding run new_response_writer
leave-failed_example =
    leave-failed memory_Store clocks get 0 (some 0) answered_503 (some boom) recorder (omega arith)

-- A job that fails.
abbrev job : Option ℕ → Tracer Memory → Option GoError × Tracer Memory
job i t = (some boom, t)

abbrev opened : Tracer Memory
opened = (start_trace ends_at counters (inr (bytes "01C")) (bytes "cron") recorder).1

opened_second :
    (start_trace ends_at counters (inr (bytes "01C")) (bytes "cron") recorder).0 ≡ started 1
unfolding start_trace new_tracer
opened_second = refl

opened_room : 1 < length opened.heap
unfolding start_trace new_tracer
opened_room = omega arith
