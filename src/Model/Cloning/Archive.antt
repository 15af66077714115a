-- ===== src/Model/Cloning/Archive.antt =====
-- Copies of completed traces, which is what storage keeps and hands out.
use mathlib.Core.List.{nil≢cons, head-eq_of_cons-eq, tail-eq_of_cons-eq}
use oida.Prelude.{
  drop, if-split, get_or, drop, All, pos, ◌<ℤ◌, ℕ, zero, suc, ◌≡◌, refl, sym, ap, ap₂, ◌∙◌, true,
  false, none, List, [], ◌∷◌, map, arith,
}
use oida.Model.Data.{Span, Trace, zero_span, span_at, span_list}
use oida.Model.Cloning.{clone_spans, positions, clone}

-- A trace that no copy changes further: it has finished with a duration, its spans have ended.
pub record IsComplete (t : Trace) : Type 0 where
  pub finished : t.finished ≡ true
  pub ended : All (λ i. (span_at i t).ended ≡ true) t.spans
  pub lasted : pos 0 <ℤ t.duration

-- The span without its trace.
abbrev pub inert : Span → Span
inert s = record s { attached = false }

-- What a copy of a completed trace is, whatever the clock answers.
abbrev pub archived : Trace → Trace
archived t = record t {
  in_flight = false;
  box = none;
  store = map (λ i. inert (span_at i t)) t.spans;
  spans = positions 0 t.spans;
}

clone_spans-ended :
    (answers : ℕ → ℕ) (t : Trace) (is : List ℕ)
    → All (λ i. (span_at i t).ended ≡ true) is
    → clone_spans answers t is ≡ map (λ i. inert (span_at i t)) is
unfolding clone_spans
clone_spans-ended answers t [] h = refl
clone_spans-ended answers t (i ∷ is) h =
    ap₂ ◌∷◌
      (if-split (λ d. record (span_at i t) { attached = false; duration = d } ≡ inert (span_at i t))
        (span_at i t).ended (λ _. refl) (λ n. cc))
      (clone_spans-ended (λ k. answers (suc k)) t is h.1)

-- A copy of a completed trace does not depend on the clock: it is the trace with its recorded
-- spans made inert, in their order, and marked as not in flight.
pub clone-archived : (answers : ℕ → ℕ) (t : Trace) → IsComplete t → clone answers t ≡ archived t
unfolding clone
clone-archived answers t v =
    let spans = clone_spans-ended answers t t.spans v.ended in ground (arith, spans)

drop-cons :
    (k : ℕ) (xs : List Span) (y : Span) (ys : List Span)
    → drop k xs ≡ y ∷ ys
    → (get_or xs k zero_span ≡ y) × (drop (suc k) xs ≡ ys)
drop-cons zero [] y ys h = absurd (nil≢cons h)
drop-cons zero (x ∷ xs) y ys h = (head-eq_of_cons-eq h, tail-eq_of_cons-eq h)
drop-cons (suc k) [] y ys h = absurd (nil≢cons h)
drop-cons (suc k) (x ∷ xs) y ys h = drop-cons k xs y ys h

-- Reading the end of a list through the positions of its entries gives that end.
through :
    (f : ℕ → Span) (store : List Span) (k : ℕ) (is : List ℕ)
    → drop k store ≡ map f is
    → map (λ i. get_or store i zero_span) (positions k is) ≡ map f is
unfolding positions
through f store k [] h = refl
through f store k (i ∷ is) h =
    let d = drop-cons k store (f i) (map f is) h in ap₂ ◌∷◌ d.0 (through f store (suc k) is d.1)

positions-positions : (j k : ℕ) (is : List ℕ) → positions j (positions k is) ≡ positions j is
unfolding positions
positions-positions j k [] = refl
positions-positions j k (i ∷ is) = ap (◌∷◌ j) (positions-positions (suc j) (suc k) is)

map-map : (f : ℕ → Span) (g : Span → Span) (is : List ℕ) → map g (map f is) ≡ map (λ i. g (f i)) is
map-map f g [] = refl
map-map f g (i ∷ is) = ap (◌∷◌ (g (f i))) (map-map f g is)

map-inert-inert :
    (f : ℕ → Span) (is : List ℕ) → map inert (map (λ i. inert (f i)) is) ≡ map (λ i. inert (f i)) is
map-inert-inert f [] = refl
map-inert-inert f (i ∷ is) = ap (◌∷◌ (inert (f i))) (map-inert-inert f is)

-- A copy lists the spans of the original.
pub span_list-archived :
    (t : Trace) → span_list (archived t) ≡ map (λ i. inert (span_at i t)) t.spans
span_list-archived t =
    through (λ i. inert (span_at i t)) (map (λ i. inert (span_at i t)) t.spans) 0 t.spans refl

All-map :
    (P : Span → Type 0) (f : ℕ → Span) (is : List ℕ) → All (λ i. P (f i)) is → All P (map f is)
All-map P f [] h = tt
All-map P f (i ∷ is) h = (h.0, All-map P f is h.1)

All-of_map :
    (P : Span → Type 0) (f : ℕ → Span) (is : List ℕ) → All P (map f is) → All (λ i. P (f i)) is
All-of_map P f [] h = tt
All-of_map P f (i ∷ is) h = (h.0, All-of_map P f is h.1)

archived-IsComplete : (t : Trace) → IsComplete t → IsComplete (archived t)
archived-IsComplete t v = record {
  finished = v.finished;
  ended =
      All-of_map (λ s. s.ended ≡ true) (λ i. span_at i (archived t)) (archived t).spans
        (rw (span_list-archived t)
          (All-map (λ s. s.ended ≡ true) (λ i. inert (span_at i t)) t.spans v.ended));
  lasted = v.lasted;
}

archived-archived : (t : Trace) → archived (archived t) ≡ archived t
archived-archived t =
    let store =
      sym (map-map (λ i. span_at i (archived t)) inert (archived t).spans)
      ∙ ap (map inert) (span_list-archived t)
      ∙ map-inert-inert (λ i. span_at i t) t.spans in
    let spans = positions-positions 0 0 t.spans in
    λ k. record (archived t) { store = store k; spans = spans k }

-- Copying a copy of a completed trace gives the same copy, so that what storage hands out is what
-- it kept.
pub clone-clone :
    (answers later : ℕ → ℕ) (t : Trace)
    → IsComplete t
    → clone later (clone answers t) ≡ clone answers t
clone-clone answers later t v =
    rw (clone-archived answers t v)
      (clone-archived later (archived t) (archived-IsComplete t v) ∙ archived-archived t)

-- A copy of a completed trace is the same whatever the clock answers, is completed itself, lists
-- the spans that the trace lists, in that order and detached from the trace, and a copy of it is
-- the same again.
pub clone-Copied :
    (answers other later : ℕ → ℕ) (t : Trace)
    → IsComplete t
    → (clone other t ≡ clone answers t)
      × IsComplete (clone answers t)
      × (span_list (clone answers t) ≡ map inert (span_list t))
      × (clone later (clone answers t) ≡ clone answers t)
clone-Copied answers other later t v =
    let e = clone-archived answers t v in
    (
      clone-archived other t v ∙ sym e,
      rw e (archived-IsComplete t v),
      rw e (span_list-archived t ∙ sym (map-map (λ i. span_at i t) inert t.spans)),
      clone-clone answers later t v,
    )
