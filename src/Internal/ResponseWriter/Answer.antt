-- ===== src/Internal/ResponseWriter/Answer.antt =====
-- What a handler's calls on the response writer make of the recorded answer.
use oida.Prelude.{
  Option-cases, ℤ, pos, ◌+ℤ◌, int_laws, ℕ, ◌+◌, ◌≡◌, refl, sym, ap, ◌∙◌, subst, inl, inr, Bool,
  true, false, Option, none, some, List, [], ◌∷◌, arith,
}
use oida.Model.State.{writing}
use oida.Model.Data.{Trace}
use oida.Model.Recording.{set_state, status}
use oida.Internal.ResponseWriter.{
  Writer, status_ok, status_switching, new_response_writer, write_header, default_header, write,
  Hijacking, unsupported, refused, taken, hijack, flush,
}

pub data Call : Type 0 where
  heads : ℤ → Call
  writes : ℕ → Call
  hijacks : Hijacking → Call
  flushes : Call

pub step : ℕ → Call → Writer → Writer
step raw (heads status) w = write_header raw status w
step raw (writes n) w = write raw n w
step raw (hijacks h) w = hijack raw h w
step raw flushes w = flush raw w

pub run : List (ℕ × Call) → Writer → Writer
unfolding step
run [] w = w
run ((raw, c) ∷ cs) w = run cs (step raw c w)

-- The status that the first call which answers decides, and whether a header goes out with it.
abbrev decides : Call → Option (ℤ × Bool)
decides (heads status) = some (status, true)
decides (writes n) = some (status_ok, true)
decides (hijacks unsupported) = none
decides (hijacks (refused e)) = none
decides (hijacks taken) = some (status_switching, false)
decides flushes = some (status_ok, true)

abbrev or_else : Option (ℤ × Bool) → Option (ℤ × Bool) → Option (ℤ × Bool)
or_else none b = b
or_else (some a) b = some a

abbrev pub answer : List (ℕ × Call) → Option (ℤ × Bool)
answer [] = none
answer ((raw, c) ∷ cs) = or_else (decides c) (answer cs)

abbrev pub written : List (ℕ × Call) → ℕ
written [] = 0
written ((raw, writes n) ∷ cs) = n + written cs
written ((raw, heads s) ∷ cs) = written cs
written ((raw, hijacks h) ∷ cs) = written cs
written ((raw, flushes) ∷ cs) = written cs

-- What is recorded of an answer.
abbrev Recorded : Option (ℤ × Bool) → Writer → Type 0
Recorded none w = (w.wrote ≡ false) × (w.status ≡ status_ok) × (w.forwarded ≡ [])
Recorded (some (status, true)) w =
    (w.wrote ≡ true) × (w.status ≡ status) × (w.forwarded ≡ status ∷ [])
Recorded (some (status, false)) w = (w.wrote ≡ true) × (w.status ≡ status) × (w.forwarded ≡ [])

abbrev taken_by : Call → ℕ
taken_by (writes n) = n
taken_by (heads s) = 0
taken_by (hijacks h) = 0
taken_by flushes = 0

written-cons :
    (raw : ℕ) (c : Call) (cs : List (ℕ × Call)) → written ((raw, c) ∷ cs) ≡ taken_by c + written cs
written-cons raw (heads s) cs = omega arith
written-cons raw (writes n) cs = refl
written-cons raw (hijacks h) cs = omega arith
written-cons raw flushes cs = omega arith

+ℤ-zero : (a : ℤ) → a +ℤ pos 0 ≡ a
+ℤ-zero a = omega int_laws

+ℤ-sum : (a : ℤ) (n m : ℕ) → a +ℤ pos n +ℤ pos m ≡ a +ℤ pos (n + m)
+ℤ-sum a n m = omega int_laws

-- What one call does to a writer that has answered: it counts the bytes.
record Counts (c : Call) (w u : Writer) : Type 0 where
  wrote : u.wrote ≡ true
  status : u.status ≡ w.status
  forwarded : u.forwarded ≡ w.forwarded
  bytes : u.bytes ≡ w.bytes +ℤ pos (taken_by c)
  trace : u.trace ≡ w.trace

step-Counts : (raw : ℕ) (c : Call) (w : Writer) → w.wrote ≡ true → Counts c w (step raw c w)
unfolding step write_header write default_header hijack flush
step-Counts raw (heads s) w h = ground (arith, +ℤ-zero w.bytes)
step-Counts raw (writes n) w h = ground arith
step-Counts raw (hijacks unsupported) w h = ground (arith, +ℤ-zero w.bytes)
step-Counts raw (hijacks (refused e)) w h = ground (arith, +ℤ-zero w.bytes)
step-Counts raw (hijacks taken) w h = ground (arith, +ℤ-zero w.bytes)
step-Counts raw flushes w h = ground (arith, +ℤ-zero w.bytes)

-- Once answered, calls change neither the status nor what was forwarded.
record Counted (n : ℕ) (w u : Writer) : Type 0 where
  wrote : u.wrote ≡ true
  status : u.status ≡ w.status
  forwarded : u.forwarded ≡ w.forwarded
  bytes : u.bytes ≡ w.bytes +ℤ pos n
  trace : u.trace ≡ w.trace

run-Counted :
    (cs : List (ℕ × Call)) (w : Writer) → w.wrote ≡ true → Counted (written cs) w (run cs w)
unfolding run
run-Counted [] w h = record {
  wrote = h;
  status = refl;
  forwarded = refl;
  bytes = sym (+ℤ-zero w.bytes);
  trace = refl;
}
run-Counted ((raw, c) ∷ cs) w h =
    let s = step-Counts raw c w h in
    let r = run-Counted cs (step raw c w) s.wrote in
    record {
      wrote = r.wrote;
      status = r.status ∙ s.status;
      forwarded = r.forwarded ∙ s.forwarded;
      bytes =
          r.bytes
          ∙ ap (λ b. b +ℤ pos (written cs)) s.bytes
          ∙ +ℤ-sum w.bytes (taken_by c) (written cs)
          ∙ ap (λ n. w.bytes +ℤ pos n) (sym (written-cons raw c cs));
      trace = r.trace ∙ s.trace;
    }

-- The first call that answers: what it records, and the trace that it marks as writing.
record First (raw : ℕ) (c : Call) (a : ℤ × Bool) (w u : Writer) : Type 0 where
  recorded : Recorded (some a) u
  bytes : u.bytes ≡ w.bytes +ℤ pos (taken_by c)
  trace : u.trace ≡ set_state raw writing w.trace

abbrev Answered : Option (ℤ × Bool) → ℕ → Call → Writer → Writer → Type 0
Answered none raw c w u = (u ≡ w) × (taken_by c ≡ 0)
Answered (some a) raw c w u = First raw c a w u

step-Answered :
    (raw : ℕ) (c : Call) (w : Writer)
    → Recorded none w
    → Answered (decides c) raw c w (step raw c w)
unfolding step write_header write default_header hijack flush
step-Answered raw (heads s) w r = ground (arith, +ℤ-zero w.bytes)
step-Answered raw (writes n) w r = ground arith
step-Answered raw (hijacks unsupported) w r = (refl, refl)
step-Answered raw (hijacks (refused e)) w r = (refl, refl)
step-Answered raw (hijacks taken) w r = ground (arith, +ℤ-zero w.bytes)
step-Answered raw flushes w r = ground (arith, +ℤ-zero w.bytes)

-- What the handler's calls leave: what the first call that answers decides, and all the bytes.
pub record Outcome (cs : List (ℕ × Call)) (w u : Writer) : Type 0 where
  pub recorded : Recorded (answer cs) u
  pub bytes : u.bytes ≡ w.bytes +ℤ pos (written cs)

bytes_sum :
    (raw : ℕ) (c : Call) (cs : List (ℕ × Call)) (w u v : Writer)
    → u.bytes ≡ w.bytes +ℤ pos (taken_by c)
    → v.bytes ≡ u.bytes +ℤ pos (written cs)
    → v.bytes ≡ w.bytes +ℤ pos (written ((raw, c) ∷ cs))
bytes_sum raw c cs w u v h k =
    k
    ∙ ap (λ b. b +ℤ pos (written cs)) h
    ∙ +ℤ-sum w.bytes (taken_by c) (written cs)
    ∙ ap (λ n. w.bytes +ℤ pos n) (sym (written-cons raw c cs))

later :
    (raw : ℕ) (c : Call) (cs : List (ℕ × Call)) (a : ℤ × Bool) (w u v : Writer)
    → First raw c a w u
    → Counted (written cs) u v
    → Recorded (some a) v × (v.bytes ≡ w.bytes +ℤ pos (written ((raw, c) ∷ cs)))
later raw c cs (status, true) w u v f k = (
  (k.wrote, k.status ∙ f.recorded.1, k.forwarded ∙ f.recorded.2),
  bytes_sum raw c cs w u v f.bytes k.bytes,
)
later raw c cs (status, false) w u v f k = (
  (k.wrote, k.status ∙ f.recorded.1, k.forwarded ∙ f.recorded.2),
  bytes_sum raw c cs w u v f.bytes k.bytes,
)

First-wrote :
    (raw : ℕ) (c : Call) (a : ℤ × Bool) (w u : Writer) → First raw c a w u → u.wrote ≡ true
First-wrote raw c (status, true) w u f = f.recorded.0
First-wrote raw c (status, false) w u f = f.recorded.0

run-Recorded : (cs : List (ℕ × Call)) (w : Writer) → Recorded none w → Outcome cs w (run cs w)
unfolding run
run-Recorded [] w r = record { recorded = r; bytes = sym (+ℤ-zero w.bytes) }
run-Recorded ((raw, c) ∷ cs) w r = elim (Option-cases (decides c)) [
  | inl e ↦
      let n : Answered none raw c w (step raw c w) =
        subst (λ d. Answered d raw c w (step raw c w)) e (step-Answered raw c w r) in
      let rest : Outcome cs w (run cs (step raw c w)) =
        subst (λ u. Outcome cs w (run cs u)) (sym n.0) (run-Recorded cs w r) in
      record {
        recorded =
            subst (λ d. Recorded (or_else d (answer cs)) (run cs (step raw c w))) (sym e)
              rest.recorded;
        bytes = rest.bytes ∙ ap (λ n. w.bytes +ℤ pos n) (no_bytes c n.1);
      }
  | inr (a, e) ↦
      let f : First raw c a w (step raw c w) =
        subst (λ d. Answered d raw c w (step raw c w)) e (step-Answered raw c w r) in
      let k = run-Counted cs (step raw c w) (First-wrote raw c a w (step raw c w) f) in
      let l = later raw c cs a w (step raw c w) (run cs (step raw c w)) f k in
      record {
        recorded =
            subst (λ d. Recorded (or_else d (answer cs)) (run cs (step raw c w))) (sym e) l.0;
        bytes = l.1;
      }
]
  where
    no_bytes : (c : Call) → taken_by c ≡ 0 → written cs ≡ written ((raw, c) ∷ cs)
    no_bytes c z = omega (arith, written-cons raw c cs)

-- Whatever calls a handler makes on a new response writer, the recorded status and the header
-- forwarded are those that the first call that answers decides (200 for a body or a flush, 101 and
-- no header for a hijack that is granted), 200 and no header if none does; and the bytes recorded
-- are all the bytes written.
pub run-Outcome :
    (cs : List (ℕ × Call)) (trace : Trace)
    → Outcome cs (new_response_writer trace) (run cs (new_response_writer trace))
unfolding new_response_writer
run-Outcome cs trace = run-Recorded cs _ (refl, refl, refl)
