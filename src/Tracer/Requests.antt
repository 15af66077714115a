-- ===== src/Tracer/Requests.antt =====
-- Recording requests through the middleware, tracer.go and internal/request_id.go.
use oida.Prelude.{
  if◌then◌else◌, pos, leb_ℤ, Text, bytes, text_eq, ℕ, suc, ◌⊎◌, inl, inr, Bool, true, false, not,
  ◌&&◌, ◌||◌, Option, none, some, [], ◌∷◌, ◌++◌,
}
use oida.Model.State.{reading, processing}
use oida.Model.Data.{GoError, HttpInfo, MemCounters, Trace}
use oida.Tracer.Store.{Store}
use oida.Tracer.State.{Tracer, trace_at, put_trace}
use oida.Model.Ids.{valid_id}
use oida.Model.Recording.{set_state, set_name, set_response, record_error, err}
use oida.Model.Spans.{start_span, record_span_error, kind_http}
use oida.Internal.ResponseWriter.{Writer, new_response_writer}
use oida.Internal.RateSampler.{RateSampler, sample}
use oida.Internal.IgnoredPath.{ignored_path}
use oida.Tracer.Recording.{Readings, begin, count_unsampled, finish_trace}

-- What the middleware reads of a request: `given` is the Request-Id header with its spaces trimmed,
-- `route` what internal.RoutePattern returns after the handler ran.
pub record Request : Type 0 where
  pub method : Text
  pub path : Text
  pub uri : Text
  pub host : Text
  pub protocol : Text
  pub remote_address : Text
  pub user_agent : Text
  pub given : Text
  pub route : Text

-- The empty text is no identifier.
pub request_id : Bool → Text → GoError ⊎ Text → Text
unfolding valid_id
request_id trusted given new_id =
    if trusted && valid_id given then given else elim new_id [ inl e ↦ [] | inr id ↦ id ]

abbrev pub http_info : Request → HttpInfo
http_info r = record {
  method = r.method;
  uri = r.uri;
  route = [];
  host = r.host;
  protocol = r.protocol;
  remote_address = r.remote_address;
  user_agent = r.user_agent;
  status = pos 0;
  response_bytes = pos 0;
}

-- `method + " " + path`
abbrev pub titled : Text → Text → Text
titled method path = method ++ (bytes " " ++ path)

-- The error of a panic, `panicked` being what the recovered value prints as.
abbrev panic_error : GoError → GoError
panic_error e = record { identity = e.identity; message = bytes "panic: " ++ e.message }

-- The trace as the handler gets it, and the position of its span.
entered : (ℕ → ℕ) → Text → Trace → Option ℕ × Trace
unfolding set_state start_span
entered answers name trace =
    let (active, s, t') =
      start_span (answers 1) none name (kind_http ∷ []) (set_state (answers 0) reading trace) in
    (s, set_state (answers 2) processing t')

-- A recovered panic is recorded on the span of the request.
unfoldable pub recovered_into : ℕ → Option ℕ → Option GoError → Trace → Trace
unfolding record_span_error
recovered_into raw none e trace = trace
recovered_into raw (some s) none trace = trace
recovered_into raw (some s) (some e) trace = record_span_error raw (some (panic_error e)) s trace

-- What finalize records before Finish; `http_error` is the error made of the status.
unfoldable pub responded : (ℕ → ℕ) → GoError → Request → Writer → Trace → Trace
unfolding set_response set_name err record_error
responded answers http_error r w trace =
    let trace1 = set_response (answers 0) w.status w.bytes r.route trace in
    let trace2 = if text_eq r.route [] then trace1 else set_name (titled r.method r.route) trace1 in
    let bare : Bool = elim (err trace2) [ none ↦ true | some e ↦ false ] in
    if leb_ℤ (pos 500) w.status && bare
    then record_error (answers 1) (some http_error) trace2
    else trace2

-- Release: the box goes back to the pool.
released : Trace → Trace
released trace = record trace { box = none }

-- What a handler does: it is given the writer and the tracer, which other goroutines use meanwhile,
-- and leaves both; a panic carries its value.
abbrev Handler : Type 0 → Type 0
Handler S = Writer → Tracer S → Writer × Option GoError × Tracer S

-- The answers of the clock before the handler and in finalize.
pub record Clocks : Type 0 where
  pub counters : MemCounters
  pub before : ℕ → ℕ
  pub recovered : ℕ
  pub after : ℕ → ℕ
  pub http_error : GoError
  pub last : Readings

module _ {S : Type 0} (store : Store S) where
  unfoldable pub finalize : Clocks → Request → ℕ → Writer → Trace → Tracer S → Tracer S
  unfolding responded released finish_trace trace_at put_trace
  finalize c r i w trace t =
      let t' =
        finish_trace store c.last i (put_trace i (responded c.after c.http_error r w trace) t) in
      put_trace i (released (trace_at i t')) t'

  -- What serve does before the handler: the position of the trace, the span and the trace.
  unfoldable pub arrive : Clocks → Text → Request → Tracer S → (ℕ × Option ℕ × Trace) × Tracer S
  unfolding begin entered trace_at put_trace
  arrive c id r t =
      let name = titled r.method r.path in
      let (i, t') = begin (c.before 0) c.counters id name (some (http_info r)) t in
      let (s, trace) = entered (λ k. c.before (suc k)) name (trace_at i t') in
      ((i, s, trace), put_trace i trace t')

  -- The deferred function.
  unfoldable pub leave :
      Clocks → Request → ℕ → Option ℕ → Writer → Option GoError → Tracer S → Tracer S
  unfolding recovered_into finalize
  leave c r i s w panicked t = finalize c r i w (recovered_into c.recovered s panicked w.trace) t

  -- The panic is raised again.
  serve :
      Clocks
      → GoError ⊎ Text
      → Handler S
      → Request
      → Writer
      → Tracer S
      → Writer × Option GoError × Tracer S
  unfolding request_id arrive leave new_response_writer
  serve c new_id next r plain t =
      let id = request_id t.opts.trust_request_id r.given new_id in
      let ((i, s, trace), t1) = arrive c id r t in
      let (w, panicked, t2) = next (new_response_writer trace) t1 in
      if text_eq id [] then next plain t else (w, panicked, leave c r i s w panicked t2)

  -- The sampler is a RateSampler; a request that is not recorded goes to the handler as it came.
  unfoldable middleware :
      Clocks
      → GoError ⊎ Text
      → Handler S
      → Request
      → Writer
      → RateSampler × Tracer S
      → Writer × Option GoError × RateSampler × Tracer S
  unfolding ignored_path sample count_unsampled serve
  middleware c new_id next r plain (sampler, t) =
      if not t.enabled || ignored_path t.opts.path t.opts.ignore_paths r.path
      then (let (w, panicked, t') = next plain t in (w, panicked, sampler, t'))
      else let (yes_it_is, sampler') = sample sampler in
        if yes_it_is
        then (let (w, panicked, t') = serve c new_id next r plain t in (w, panicked, sampler', t'))
        else (let (w, panicked, t') = next plain (count_unsampled r.host t) in
            (w, panicked, sampler', t'))
