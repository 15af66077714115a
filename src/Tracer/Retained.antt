-- ===== src/Tracer/Retained.antt =====
-- A tracer on the in-memory driver: what can be read after Finish. The contexts of the tracer are
-- never done.
use oida.Prelude.{
  Bool-cases, if-split, All, ℤ, text_eq, text_eq_sound, ℕ, ◌<◌, ◌≡◌, refl, subst, ◌≢◌, inl, inr,
  Bool, false, none, some, List, [], ◌∷◌, arith,
}
use oida.Ring.Slots.{IsValid}
use oida.Ring.Window as Window
use oida.Model.Data.{Trace}
use oida.Model.Finishing.{finish}
use oida.Model.Memory.{record_memory}
use oida.Model.Cloning.Archive.{IsComplete, archived}
use oida.Model.Timing.{IsTimed}
use oida.Model.History.Shape.{IsTree}
use oida.Model.History.Ends.{finish-IsFinal, Among}
use oida.Storage.Results.{ok}
use oida.Storage.Memory.{Memory, trace_Retained}
use oida.Storage.Memory as Driver
use oida.Storage.Memory.Retention.{IsSaved, load-save}
use oida.Tracer.Store.{Store}
use oida.Tracer.State.{Tracer, trace_at, put_trace, report}
use oida.Tracer.Recording.{Readings, completed, retire, hand_over, finish_trace}
use oida.Tracer.Reading.{trace}
use oida.Tracer.Outcome.{completed-Agrees}

pub list-reset_memory :
    (answers : ℕ → ℕ → ℕ) (limit : ℤ) (m : Memory)
    → (Driver.reset none m).0 ≡ ok tt
    → Driver.list none answers limit (Driver.reset none m).1 ≡ ok []
unfolding Driver.list Driver.reset Driver.clones Driver.limited
list-reset_memory answers limit m h = rw (Window.list-reset m) (ground arith)

abbrev pub memory_Store : Store Memory
memory_Store = record {
  save = λ answers t. Driver.save none answers (some t);
  load = Driver.load none;
  list = Driver.list none;
  cap = Driver.cap;
  reset = Driver.reset none;
  list-reset = list-reset_memory;
}

All-of_Among : (P : ℕ → Type 0) (xs : List ℕ) → ((j : ℕ) → Among j xs → P j) → All P xs
All-of_Among P [] f = tt
All-of_Among P (x ∷ xs) f = (f x (inl refl), All-of_Among P xs (λ j m. f j (inr m)))

-- A trace that Finish ended is complete, with its memory recorded or not.
completed-IsComplete :
    (tracked : Bool) (r : Readings) (t : Trace)
    → IsTimed t
    → IsTree t
    → t.finished ≡ false
    → IsComplete (completed tracked r t)
unfolding completed record_memory
completed-IsComplete tracked r t v w h =
    let f = finish-IsFinal r.now r.ends t v w h in
    let done : IsComplete (finish r.now r.ends t) = record {
      finished = f.finished;
      ended = All-of_Among _ (finish r.now r.ends t).spans f.ended;
      lasted = f.positive;
    } in
    if-split IsComplete tracked
      (λ _. record { finished = done.finished; ended = done.ended; lasted = done.lasted })
      (λ _. done)

trace-hand_over :
    (copy later : ℕ → ℕ) (a : Trace) (t : Tracer Memory)
    → IsSaved a
    → IsValid t.storage
    → 0 < Driver.cap t.storage
    → (trace memory_Store later a.id (hand_over memory_Store copy a t)).0 ≡ some (archived a)
unfolding trace hand_over report Driver.load Driver.save
trace-hand_over copy later a t h valid room = elim (Bool-cases (text_eq a.id [])) [
  | inl y ↦ absurd (h.1 (text_eq_sound a.id [] y))
  | inr n ↦ rw (n, load-save copy later a t.storage valid room h) refl
]

-- With the in-memory driver and room in it, after the tracer's Finish of a running trace that has
-- an ID and whose times add up and spans form a tree, Trace with its ID returns the archived form
-- of the completed trace, whatever the clock answers.
pub trace-finish_trace :
    (r : Readings) (i : ℕ) (later : ℕ → ℕ) (t : Tracer Memory)
    → IsTimed (trace_at i t)
    → IsTree (trace_at i t)
    → (trace_at i t).finished ≡ false
    → (trace_at i t).id ≢ []
    → IsValid t.storage
    → 0 < Driver.cap t.storage
    → (trace memory_Store later (trace_at i t).id (finish_trace memory_Store r i t)).0
      ≡ some (archived (completed t.opts.track_memory_use r (trace_at i t)))
unfolding finish_trace put_trace
trace-finish_trace r i later t v w h named valid room =
    let tracked = t.opts.track_memory_use in
    let done = completed tracked r (trace_at i t) in
    let same : done.id ≡ (trace_at i t).id = (completed-Agrees tracked r (trace_at i t)).2 in
    let saved : IsSaved done =
      (completed-IsComplete tracked r (trace_at i t) v w h, rw same named) in
    subst
      (λ id.
        (trace memory_Store later id (finish_trace memory_Store r i t)).0 ≡ some (archived done))
      same
      (trace-hand_over r.copy later done (retire r.states_at done (put_trace i done t)) saved valid
        room)
