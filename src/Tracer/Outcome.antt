-- ===== src/Tracer/Outcome.antt =====
-- What the tracer counts as a failure, tracer.go.
use oida.Prelude.{
  if◌then◌else◌, if-split, length, get_or-set_self, pos, leb_ℤ, ℕ, ◌+◌, ◌<◌, ◌≡◌, refl, sym, ap,
  ◌∙◌, Bool, true, false, ◌&&◌, ◌||◌, Option, none, some, arith, ◌⊎◌, Text, get_or, set,
}
use oida.Model.History.Failing.{Agrees, Agrees-failed, finish-Agrees}
use oida.Model.Data.{GoError, Trace, zero_trace, span_at, MemCounters}
use oida.Model.Memory.{record_memory}
use oida.Model.Recording.{enter, set_name, set_response, record_error, err, failed}
use oida.Model.Spans.{record_span_error}
use oida.Storage.Results.{Result, ok, fail}
use oida.Internal.ResponseWriter.{Writer}
use oida.Tracer.Store.{Store}
use oida.Tracer.State.{Tracer, trace_at, put_trace, report}
use oida.Tracer.Recording.{
  Readings, completed, retire, hand_over, finish_trace, observe, start_trace, started,
}
use oida.Tracer.Requests.{Request, recovered_into, responded, Clocks, finalize, leave}

pub completed-Agrees :
    (tracked : Bool) (r : Readings) (t : Trace) → Agrees t (completed tracked r t)
unfolding completed record_memory
completed-Agrees tracked r t =
    let h = finish-Agrees r.now r.ends t in if-split (Agrees t) tracked (λ _. h) (λ _. h)

-- A response is failed when the trace was, or when its status is 500 or more and the trace holds
-- no error value.
abbrev pub has_failed : Writer → Trace → Bool
has_failed w t =
    failed t || (leb_ℤ (pos 500) w.status && (elim (err t) [ none ↦ true | some e ↦ false ]))

responded-failed :
    (answers : ℕ → ℕ) (e : GoError) (r : Request) (w : Writer) (t : Trace)
    → failed (responded answers e r w t) ≡ has_failed w t
unfolding responded failed set_response set_name record_error err enter
responded-failed answers e r w t = ground arith

report-failed : {S : Type 0} (a : Result (Unit {0})) (t : Tracer S) → (report a t).failed ≡ t.failed
unfolding report
report-failed (ok u) t = refl
report-failed (fail e) t = refl

hand_over-failed :
    {S : Type 0} (store : Store S) (copy : ℕ → ℕ) (trace : Trace) (t : Tracer S)
    → (hand_over store copy trace t).failed ≡ t.failed
unfolding hand_over
hand_over-failed store copy trace t =
    let (answer, storage) = store.save copy trace t.storage in
    report-failed answer (record t { storage = storage })

retire-failed :
    {S : Type 0} (raw : ℕ) (trace : Trace) (t : Tracer S)
    → (retire raw trace t).failed ≡ t.failed + (if failed trace then 1 else 0)
unfolding retire
retire-failed raw trace t = ground arith

finish_trace-failed :
    {S : Type 0} (store : Store S) (r : Readings) (i : ℕ) (t : Tracer S)
    → (finish_trace store r i t).failed ≡ t.failed + (if failed (trace_at i t) then 1 else 0)
unfolding finish_trace put_trace
finish_trace-failed store r i t =
    let tracked = t.opts.track_memory_use in
    let trace = completed tracked r (trace_at i t) in
    let u = put_trace i trace t in
    rw (sym (Agrees-failed (trace_at i t) trace (completed-Agrees tracked r (trace_at i t)))) (
      hand_over-failed store r.copy trace (retire r.states_at trace u)
      ∙ retire-failed r.states_at trace u)

-- Leaving a request whose trace the tracer holds adds one to the failures exactly when the
-- handler's trace, with the panic recorded on it, was failed, or the status is 500 or more and
-- that trace holds no error; else it adds none.
pub leave-failed :
    {S : Type 0} (store : Store S) (c : Clocks) (r : Request) (i : ℕ) (s : Option ℕ) (w : Writer)
    (panicked : Option GoError) (t : Tracer S)
    → i < length t.heap
    → (leave store c r i s w panicked t).failed
      ≡ t.failed + (if has_failed w (recovered_into c.recovered s panicked w.trace) then 1 else 0)
unfolding leave finalize put_trace trace_at
leave-failed store c r i s w panicked t h =
    let trace = recovered_into c.recovered s panicked w.trace in
    let u = responded c.after c.http_error r w trace in
    let here = get_or-set_self t.heap i u zero_trace h in
    let n = responded-failed c.after c.http_error r w trace in
    rw (finish_trace-failed store c.last i (put_trace i u t))
      (ap (λ b. t.failed + (if b then 1 else 0)) (ap failed here ∙ n))

-- Recording a panic of the handler makes the trace failed, where the span of the request is one
-- attached to the trace.
recovered_into-failed :
    (raw s : ℕ) (e : GoError) (t : Trace)
    → (span_at s t).attached ≡ true
    → failed (recovered_into raw (some s) (some e) t) ≡ true
unfolding recovered_into record_span_error record_error enter failed
recovered_into-failed raw s e t h = ground arith

record_error-failed :
    (raw : ℕ) (e : GoError) (t : Trace) → failed (record_error raw (some e) t) ≡ true
unfolding record_error enter failed
record_error-failed raw e t = ground arith

-- If Observe starts a trace, its job returns an error and the tracer still holds that trace, then
-- Observe returns the same error, and there is one failure more than the job left.
observe-failed :
    {S : Type 0} (store : Store S) (answers : ℕ → ℕ) (counters : MemCounters)
    (new_id : GoError ⊎ Text) (raw : ℕ) (r : Readings) (name : Text)
    (job : Option ℕ → Tracer S → Option GoError × Tracer S) (t : Tracer S) (i : ℕ) (e : GoError)
    → (start_trace answers counters new_id name t).0 ≡ started i
    → (job (some i) (start_trace answers counters new_id name t).1).0 ≡ some e
    → i < length (job (some i) (start_trace answers counters new_id name t).1).1.heap
    → ((observe store answers counters new_id raw r name job t).0 ≡ some e)
      × ((observe store answers counters new_id raw r name job t).1.failed
          ≡ (job (some i) (start_trace answers counters new_id name t).1).1.failed + 1)
unfolding observe put_trace trace_at
observe-failed store answers counters new_id raw r name job t i e st j h =
    let t2 = (job (some i) (start_trace answers counters new_id name t).1).1 in
    let u = record_error raw (some e) (get_or t2.heap i zero_trace) in
    let here = get_or-set_self t2.heap i u zero_trace h in
    rw (st, j, observe)
      (
        refl,
        finish_trace-failed store r i (record t2 { heap = set t2.heap i u })
            ∙ ap (λ b. t2.failed + (if b then 1 else 0))
                (ap failed here ∙ record_error-failed raw e (get_or t2.heap i zero_trace)),
      )
