-- ===== src/Lib.antt =====
-- A model of oida, a request tracer for Go services: a recorder traces requests and background
-- work, storage retains the completed traces, and a debug front end shows them.
--
-- The parts and how they work together:
-- * A trace (model/trace.go, model/span.go, model/debug_span.go, model/log.go, model/clock.go,
--   model/tracebox.go) is a record of type Model.Data.Trace. Its spans are shared by pointer in
--   the program; here `store` holds every span that was allocated for the trace and `spans` the
--   positions of the recorded ones. Methods that lock are one step each and take what the clock
--   answers as a number of nanoseconds. Model.Recording has NewTrace, SetState, RecordError and the
--   other setters; Model.Spans has appendSpan, StartSpan, End, RecordError of a span and the debug
--   filter; Model.Finishing has Finish and StateTimes; Model.Logs has Info, Warn and Error with
--   appendLog; Model.Cloning has CloneInto; Model.Memory has TrackMemory and RecordMemory;
--   Model.Ids has NewID and ValidID (model/id.go). Model.History makes histories of these calls on
--   a trace that is not released, with the setters as Model.Details groups them, and its children
--   are about what holds after any history.
-- * The ring buffer (internal/ring/ring.go) is Ring, over items behind the interface Retained. The
--   in-memory driver (storage/memory_storage.go) is Storage.Memory, a ring buffer of traces.
-- * The disk driver (storage/disk_storage.go) is Storage.Disk: a folder of documents behind the
--   in-memory driver. What the operating system answers to a call, the codec and the sorting of names
--   are arguments; a decoded trace has the fields that encoding/json can set, so it has not finished.
--   Storage.Disk.Persistence is about Save and Load, Storage.Disk.Restoring about
--   Restore.
-- * The recorder (tracer.go) is Tracer: Tracer.State has its fields, Tracer.Recording StartTrace,
--   begin, Finish and Observe, Tracer.Requests serve, finalize and Middleware, Tracer.Reading Traces, Trace
--   and Reset. It works over the interface Tracer.Store, which Tracer.Retained fills with the
--   in-memory driver. Traces are shared between the recorder and its callers, so the recorder has a
--   heap of traces and names a trace by its position there.
-- * Around it stand the event broker (internal/broker.go; a release is two steps, the delete under
--   the lock and the close after it), the rate sampler
--   (internal/rate_sampler.go), the ignored paths (internal/ignored_path.go) and the response
--   writer (internal/response_writer.go), in the modules under Internal, and the address of a client
--   (internal/remote_addr.go) in Internal.RemoteAddress.
--   Internal.MemoryLimit is the memory limit of the process (internal/memory_limit.go), and
--   Internal.Choosing what the tracer takes from its options.
-- * The options (model/options.go) are Model.Options, with NewOptions, WithDefaults and Validate. What
--   the environment sets (internal/options_from_env.go) is in Internal.Environment: Variables reads
--   one variable, Applying builds the storage, the users and the options.
-- * Statistics (model/stats.go) is Model.Statistics: Tallies has the groups of a window, Hosts the
--   figures by host, Report the ranking.
-- * Authentication (model/auth.go) is Model.Auth, over an interface with HMAC, base64url, JSON, bcrypt
--   and netip, whose laws are that base64url has no dot and that decoding undoes encoding.
-- * The front end (frontend/handler.go, frontend/login.go, frontend/negotiate.go) is Frontend:
--   Frontend.Requests reads a request and finds its route, Frontend.Serving answers it, with the
--   recorded data that a response shows in place of its markup, Frontend.Events has writeSSE and
--   Frontend.Streaming the loop of serveEvents, and Frontend.Rows and Frontend.Timeline the rows and
--   the segments of a trace (frontend/view/timeline.go); Frontend.Access is about the gate,
--   Frontend.Login about a sign in. It asks Model.Auth who is let in and the recorder for a trace.
-- * The page that a view is rendered from (frontend/view/page.go) is Frontend.Page, made of a request
--   and of a snapshot of the recorder (Snapshot of tracer.go, in Tracer.Snapshots), with its links in
--   Frontend.Page.Links and its controls in Frontend.Page.Fields. Frontend.Listing has the filters,
--   the order and the cut of the list and of the live feed (frontend/view/filter.go,
--   frontend/view/sort.go), and Frontend.Format the wording of sizes (frontend/view/funcs.go).
--   Frontend.Page.Detail is the page of one trace, and Frontend.MemoryGraph the readings of its memory
--   (frontend/view/memory.go).
-- * The context helpers (model/context.go) are Model.Contexts, the time per state as a table
--   (Durations, StateDurations) is Model.Durations, and numbers in attributes (model/attributes.go)
--   are Model.Attributes.
--
-- The Go calls correspond to functions of the same words in snake_case. Strings are lists of bytes,
-- maps are association lists without repeated keys, a nil map is `none`, `int` and durations are
-- unbounded integers, and 64-bit counters that can wrap in practice (the sampler's, the allocated
-- bytes, the sums of the statistics) are written with their wrap. A float is an opaque value, or the
-- two numbers it is the quotient of. Loops run over lists; the walk over the rows of a trace alone is
-- on fuel, where one more than the number of spans that were started is enough.
--
-- Not modelled: nil receivers, the pool of boxes as shared memory (Release takes the box from the
-- trace), scheduling inside a locked section, fmt.Sprint (a parameter), and reading the runtime's
-- memory counters (an argument). Of the disk driver, creating the folder and the temporary file of a
-- write; of the front end, the markup and its generated
-- templates, the plain text view, the coordinates of the memory graph and the wording of durations and
-- ages.
--
-- Prelude has the lists, integers, strings and maps that the parts share; Tests has concrete runs.
pub mod Prelude
pub mod Frontend
pub mod Ring
pub mod Model
pub mod Storage
pub mod Internal
pub mod Tracer
pub mod Tests
