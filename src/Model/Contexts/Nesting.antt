-- ===== src/Model/Contexts/Nesting.antt =====
-- Spans started from a derived context stand below the span of that context, model/context.go.
use mathlib.Core.Bool.{true≢false}
use mathlib.Core.Option.{some-injective, none-ne-some}
use oida.Prelude.{
  ==_iff, Option-cases, if-split, length, set, length-set, get_or-set_self, get_or-append_end, Text,
  text_eq, text_eq_refl, ℕ, ◌+◌, ◌<◌, ◌≡◌, refl, sym, ap, ◌∙◌, subst, inl, inr, true, Option, none,
  some, List, [], ◌∷◌, ◌++◌, arith,
}
use oida.Model.Data.{Span, Trace, zero_trace, zero_span, span_at}
use oida.Model.Spans.{append_span, allocate, below, at_limit, first_kind, start_span}
use oida.Model.Clock.{time}
use oida.Model.Contexts.{
  Context, background, trace_layer, trace_value, span_value, trace_from_context, span_from_context,
  trace_in, span_in, active_span, span_context, start_in, start, is_current, with_trace,
}

-- A recorded span and what it was recorded with.
record Appended (parent : Option Span) (t : Trace) (j : ℕ) (t' : Trace) : Type 0 where
  position : j ≡ length t.store
  same_id : t'.id ≡ t.id
  span : Span
  stored : t'.store ≡ t.store ++ (span ∷ [])
  owned : span.trace_id ≡ t.id
  child :
      (p : Span)
      → parent ≡ some p
      → p.trace_id ≡ t.id
      → (span.parent_id ≡ p.id) × (span.depth ≡ p.depth + 1)

below-child :
    (id : Text) (p s : Span)
    → p.trace_id ≡ id
    → (below id (some p) s).parent_id ≡ p.id × ((below id (some p) s).depth ≡ p.depth + 1)
unfolding below
below-child id p s e = rw e (rw text_eq_refl (refl, refl))

below-owned : (id : Text) (p : Option Span) (s : Span) → (below id p s).trace_id ≡ s.trace_id
unfolding below
below-owned id none s = refl
below-owned id (some p) s =
    if-split (λ (r : Span). r.trace_id ≡ s.trace_id) (text_eq p.trace_id id) (λ _. refl) (λ _. refl)

time-id : (raw : ℕ) (t : Trace) → (time raw t).1.id ≡ t.id
unfolding time
time-id raw t = ground arith

allocate-Appended :
    (raw : ℕ) (parent : Option Span) (name kind : Text) (t : Trace) (j : ℕ)
    → j ≡ length t.store
    → Appended parent t j (allocate raw parent name kind t).1
unfolding allocate
allocate-Appended raw parent name kind t j e = record {
  position = e;
  same_id = time-id raw _;
  span = _;
  stored = refl;
  owned = below-owned t.id parent _;
  child = λ p y o. rw y (below-child t.id p _ o);
}

append_span-Appended :
    (raw : ℕ) (parent : Option Span) (name kind : Text) (t : Trace) (j : ℕ)
    → (append_span raw parent name kind t).0 ≡ some j
    → Appended parent t j (append_span raw parent name kind t).1
unfolding append_span allocate
append_span-Appended raw parent name kind t j =
    let Good = λ (r : Option ℕ × Trace). r.0 ≡ some j → Appended parent t j r.1 in
    if-split Good t.finished (λ _ e. absurd (none-ne-some j e))
      (λ _.
        if-split Good (at_limit t.max_spans (length t.spans)) (λ _ e. absurd (none-ne-some j e))
          (λ _ e. allocate-Appended raw parent name kind t j (sym (some-injective _ _ e))))

trace_known : (c : Context) (k : ℕ) → trace_value c ≡ some k → trace_from_context (some c) ≡ some k
unfolding trace_from_context
trace_known c k y = rw (trace_from_context, y) refl

-- A context derived for a span of its trace carries the same trace.
trace_from_span_context :
    (ctx : Option Context) (i j : ℕ)
    → trace_from_context ctx ≡ some i
    → trace_from_context (some (span_context (i, j) ctx)) ≡ some i
unfolding trace_from_context trace_value span_value
trace_from_span_context none i j e = refl
trace_from_span_context (some c) i j e = elim (Option-cases (trace_value c)) [
  | inl n ↦ rw (trace_from_context, n) refl
  | inr (k, y) ↦ rw (trace_from_context, y) (sym (trace_known c k y) ∙ e)
]

start_known :
    (raw : ℕ) (ctx : Option Context) (name : Text) (kind : List Text) (heap : List Trace) (i : ℕ)
    → trace_from_context ctx ≡ some i
    → start raw ctx name kind heap ≡ start_in raw ctx name kind heap i
unfolding start
start_known raw ctx name kind heap i e = rw (start, e) refl

-- What a start that records a span leaves.
record Started (ctx : Option Context) (heap : List Trace) (i j : ℕ) (inner : Option Context)
    (heap' : List Trace) : Type 0 where
  derived : inner ≡ some (span_context (i, j) ctx)
  kept : length heap' ≡ length heap
  appended : Appended (active_span heap ctx) (trace_in heap i) j (trace_in heap' i)

finish-Started :
    (ctx : Option Context) (heap : List Trace) (i j : ℕ) (k : Option ℕ) (t : Trace)
    → i < length heap
    → ((m : ℕ) → k ≡ some m → Appended (active_span heap ctx) (trace_in heap i) m t)
    → (elim k as (λ x. Option (ℕ × ℕ)) [ none ↦ none | some m ↦ some (i, m) ]) ≡ some (i, j)
    → Started ctx heap i j
        (elim k as (λ x. Option Context) [ none ↦ ctx | some m ↦ some (span_context (i, m) ctx) ])
        (set heap i t)
finish-Started ctx heap i j none t h f e = absurd (none-ne-some (i, j) e)
finish-Started ctx heap i j (some k) t h f e =
    let same : k ≡ j = ap (λ p. p.1) (some-injective _ _ e) in
    record {
      derived = ap (λ m. some (span_context (i, m) ctx)) same;
      kept = length-set heap i t;
      appended =
          subst (Appended (active_span heap ctx) (trace_in heap i) j)
            (sym (get_or-set_self heap i t zero_trace h)) (f j (ap some same));
    }

start_in-Started :
    (raw : ℕ) (ctx : Option Context) (name : Text) (kind : List Text) (heap : List Trace) (i j : ℕ)
    → i < length heap
    → (start_in raw ctx name kind heap i).1 ≡ some (i, j)
    → Started ctx heap i j
        (start_in raw ctx name kind heap i).0
        (start_in raw ctx name kind heap i).2
unfolding start_in start_span
start_in-Started raw ctx name kind heap i j h e =
    let r = append_span raw (active_span heap ctx) name (first_kind kind) (trace_in heap i) in
    finish-Started ctx heap i j r.0 r.1 h
      (append_span-Appended raw (active_span heap ctx) name (first_kind kind) (trace_in heap i)) e

start-Started :
    (raw : ℕ) (ctx : Option Context) (name : Text) (kind : List Text) (heap : List Trace) (i j : ℕ)
    → trace_from_context ctx ≡ some i
    → i < length heap
    → (start raw ctx name kind heap).1 ≡ some (i, j)
    → Started ctx heap i j (start raw ctx name kind heap).0 (start raw ctx name kind heap).2
start-Started raw ctx name kind heap i j c h =
    subst (λ r. r.1 ≡ some (i, j) → Started ctx heap i j r.0 r.2)
      (sym (start_known raw ctx name kind heap i c)) (start_in-Started raw ctx name kind heap i j h)

active-derived :
    (heap : List Trace) (s : ℕ × ℕ) (ctx : Option Context)
    → active_span heap (some (span_context s ctx)) ≡ some (span_in heap s)
unfolding active_span span_from_context span_value
active-derived heap s none = refl
active-derived heap s (some c) = refl

span_at-Appended :
    (parent : Option Span) (t : Trace) (j : ℕ) (t' : Trace)
    → (a : Appended parent t j t') → span_at j t' ≡ a.span
span_at-Appended parent t j t' a =
    rw a.stored (rw a.position (get_or-append_end t.store a.span zero_span))

-- When Start on a context that carries a trace of the heap records a span, the context it returns
-- carries the same trace, and a span that a second Start records on it stands directly below the
-- first, one level deeper.
pub start-Nests :
    (raw raw' : ℕ) (ctx : Option Context) (name name' : Text) (kind kind' : List Text)
    (heap : List Trace) (i j k : ℕ)
    → trace_from_context ctx ≡ some i
    → i < length heap
    → (start raw ctx name kind heap).1 ≡ some (i, j)
    → let (inner, span, heap') = start raw ctx name kind heap in
      let (innermost, span', heap'') = start raw' inner name' kind' heap' in
      (trace_from_context inner ≡ some i)
      × (span' ≡ some (i, k)
          → ((span_in heap'' (i, k)).parent_id ≡ (span_in heap' (i, j)).id)
            × ((span_in heap'' (i, k)).depth ≡ (span_in heap' (i, j)).depth + 1))
start-Nests raw raw' ctx name name' kind kind' heap i j k c h e =
    let first = start-Started raw ctx name kind heap i j c h e in
    let heap' = (start raw ctx name kind heap).2 in
    let inner = (start raw ctx name kind heap).0 in
    let carried : trace_from_context inner ≡ some i =
      ap trace_from_context first.derived ∙ trace_from_span_context ctx i j c in
    let known : active_span heap' inner ≡ some (span_in heap' (i, j)) =
      ap (active_span heap') first.derived ∙ active-derived heap' (i, j) ctx in
    let owned : (span_in heap' (i, j)).trace_id ≡ (trace_in heap' i).id =
      ap (λ (s : Span). s.trace_id)
        (span_at-Appended (active_span heap ctx) (trace_in heap i) j (trace_in heap' i)
          first.appended)
      ∙ first.appended.owned
      ∙ sym first.appended.same_id in
    (
      carried,
      λ e'.
          let second =
            start-Started raw' inner name' kind' heap' i k carried
              (subst (λ n. i < n) (sym first.kept) h) e' in
          let heap'' = (start raw' inner name' kind' heap').2 in
          let at =
            span_at-Appended (active_span heap' inner) (trace_in heap' i) k (trace_in heap'' i)
              second.appended in
          let (p, d) = second.appended.child (span_in heap' (i, j)) known owned in
          (ap (λ (s : Span). s.parent_id) at ∙ p, ap (λ (s : Span). s.depth) at ∙ d),
    )

same_trace : (c : Context) (i : ℕ) → is_current (trace_value c) i ≡ true → trace_value c ≡ some i
same_trace c i h = current_trace (trace_value c) h
  where
    current_trace : (o : Option ℕ) → is_current o i ≡ true → o ≡ some i
    current_trace none e = absurd (true≢false (sym e))
    current_trace (some j) e = ap some ((==_iff j i).0 e)

-- A context that WithTrace returns for a trace carries that trace, over any other one.
trace_from_context-with_trace :
    (ctx : Option Context) (i : ℕ) → trace_from_context (some (with_trace ctx (some i))) ≡ some i
unfolding with_trace trace_value
trace_from_context-with_trace ctx i =
    let c : Context = elim ctx [ none ↦ background | some c ↦ c ] in
    if-split (λ (d : Context). trace_from_context (some d) ≡ some i) (is_current (trace_value c) i)
      (λ y. trace_known c i (same_trace c i y)) (λ n. trace_known (trace_layer i c) i refl)
