-- ===== src/Model/History/Growing.antt =====
-- Starting a span and the tree of spans, appendSpan of model/trace.go.
use native.Mathlib.Decide.{dec_lt}
use oida.Prelude.{
  ltb, ltb→lt, if-split, length, get_or, length-append, Text, text_eq, ℕ, suc, ◌+◌, ◌≤◌, ◌<◌, ◌≡◌,
  refl, sym, ◌∙◌, subst, inl, inr, true, Option, none, some, List, [], ◌∷◌, ◌++◌, arith, fun_ext,
  get_or-append_lt, get_or-append_end,
}
use oida.Model.Data.{Span, Trace, TraceOptions, zero_span, span_at}
use oida.Model.Clock.{time, stamp-lt}
use oida.Model.Recording.{new_trace}
use oida.Model.Spans.{take_slot, below, allocate, at_limit, append_span}
use oida.Model.Timing.{boxed, last}
use oida.Model.History.{own}
use oida.Model.Details.{Core, core_at}
use oida.Model.History.Shape.{Node, Rising, IsTree}
use oida.Model.History.Keeping.{Keeps}

Node-later : (at : ℕ → Core) (m n i : ℕ) → m ≤ n → Node at m i → Node at n i
Node-later at m n i h v = record {
  number = v.number;
  recorded = omega (arith, v.recorded);
  hangs = v.hangs;
}

pub Keeps-IsTree : {t u : Trace} → Keeps t u → IsTree t → IsTree u
Keeps-IsTree {t} {u} k v = record {
  live = k.live ∙ v.live;
  numbered = k.size ∙ v.numbered ∙ sym k.counted;
  node = λ i h.
      subst (λ at. Node at (last u) i) (sym (fun_ext k.cores))
        (Node-later (core_at t.store) (last t) (last u) i k.later
          (v.node i (omega (arith, k.size))));
  rising = rw k.size (k.rising (length t.store) v.rising);
}

Node-append :
    (xs : List Span) (s : Span) (m n i : ℕ)
    → m ≤ n
    → i < length xs
    → Node (core_at xs) m i
    → Node (core_at (xs ++ (s ∷ []))) n i
Node-append xs s m n i h k v = record {
  number = rw (get_or-append_lt xs s zero_span i k) v.number;
  recorded = rw (get_or-append_lt xs s zero_span i k) (omega (arith, v.recorded));
  hangs = elim v.hangs [
    | inl top ↦ inl (rw (get_or-append_lt xs s zero_span i k) top)
    | inr (p, hp, e, d, l) ↦ inr (
      p,
      hp,
      rw (get_or-append_lt xs s zero_span i k) e,
      rw (get_or-append_lt xs s zero_span i k, get_or-append_lt xs s zero_span p (omega arith)) d,
      rw (get_or-append_lt xs s zero_span i k, get_or-append_lt xs s zero_span p (omega arith)) l,
    )
  ];
}

Rising-append :
    (k : ℕ) (xs : List ℕ) (n : ℕ) → k ≤ n → Rising k xs n → Rising k (xs ++ (n ∷ [])) (suc n)
Rising-append k [] n h r = (h, omega arith, tt)
Rising-append k (x ∷ xs) n h r = (r.0, omega arith, Rising-append (suc x) xs n (omega arith) r.2)

-- The span that an allocation adds.
added : ℕ → Option ℕ → Text → Text → Trace → Span
added now parent name kind t = below t.id (own parent t) (record zero_span {
  id = t.sequence + 1;
  trace_id = t.id;
  name = name;
  kind = kind;
  started_at = now;
  attached = true;
})

top-Node :
    (store : List Span) (now : ℕ) (s : Span)
    → s.id ≡ suc (length store)
    → s.started_at ≡ now
    → s.parent_id ≡ 0
    → s.depth ≡ 0
    → Node (core_at (store ++ (s ∷ []))) now (length store)
top-Node store now s hi hs hp hd =
    let e = get_or-append_end store s zero_span in
    record { number = rw e hi; recorded = rw e (omega arith); hangs = inl (rw e hp, rw e hd) }

child-Node :
    (store : List Span) (now : ℕ) (s : Span) (p : ℕ)
    → p < length store
    → s.id ≡ suc (length store)
    → s.started_at ≡ now
    → s.parent_id ≡ suc p
    → s.depth ≡ (get_or store p zero_span).depth + 1
    → (get_or store p zero_span).started_at < now
    → Node (core_at (store ++ (s ∷ []))) now (length store)
child-Node store now s p h hi hs hp hd hb =
    let e = get_or-append_end store s zero_span in
    let f = get_or-append_lt store s zero_span p h in
    record {
      number = rw e hi;
      recorded = rw e (omega arith);
      hangs = inr (p, h, rw e hp, rw (e, f) hd, rw (e, f) (omega arith));
    }

added-Node :
    (now : ℕ) (parent : Option ℕ) (name kind : Text) (t : Trace)
    → IsTree t
    → last t < now
    → Node (core_at (t.store ++ (added now parent name kind t ∷ []))) now (length t.store)
unfolding added below own
added-Node now none name kind t v h =
    top-Node t.store now _ (omega (arith, v.numbered)) refl refl refl
added-Node now (some p) name kind t v h =
    let top = record zero_span {
      id = t.sequence + 1;
      trace_id = t.id;
      name = name;
      kind = kind;
      started_at = now;
      attached = true;
    } in
    let number : t.sequence + 1 ≡ suc (length t.store) = omega (arith, v.numbered) in
    let alone = top-Node t.store now top number refl refl refl in
    if-split {A = Option Span}
      (λ o. Node (core_at (t.store ++ (below t.id o top ∷ []))) now (length t.store))
      (ltb p (length t.store))
      (λ inside.
        let n = v.node p (ltb→lt p (length t.store) inside) in
        if-split {A = Span} (λ s. Node (core_at (t.store ++ (s ∷ []))) now (length t.store))
          (text_eq (span_at p t).trace_id t.id)
          (λ _.
            child-Node t.store now _ p (ltb→lt p (length t.store) inside) number refl n.number refl
              (omega (arith, n.recorded)))
          (λ _. alone))
      (λ _. alone)

-- The clock of an allocation: what it reads, and the trace that it leaves.
slotted : Trace → Trace
slotted t = record t { sequence = t.sequence + 1; box = take_slot t.box }

slotted-facts :
    (raw : ℕ) (t : Trace)
    → boxed t ≡ true
    → (last t < (time raw (slotted t)).0)
      × (last (time raw (slotted t)).1 ≡ (time raw (slotted t)).0)
      × (boxed (time raw (slotted t)).1 ≡ true)
      × ((time raw (slotted t)).1.sequence ≡ t.sequence + 1)
unfolding slotted take_slot time
slotted-facts raw t h = ground (arith, stamp-lt (last t) raw)

Node-at :
    (now : ℕ) (parent : Option ℕ) (name kind : Text) (t : Trace) (i : ℕ)
    → IsTree t
    → last t < now
    → i < suc (length t.store)
    → Node (core_at (t.store ++ (added now parent name kind t ∷ []))) now i
Node-at now parent name kind t i v h k = elim (dec_lt i (length t.store)) [
  | yes old ↦ Node-append t.store _ (last t) now i (omega arith) old (v.node i old)
  | no fresh ↦
      let e : length t.store ≡ i = omega arith in
      subst (Node (core_at (t.store ++ (added now parent name kind t ∷ []))) now) e
        (added-Node now parent name kind t v h)
]

allocate-IsTree :
    (raw : ℕ) (parent : Option ℕ) (name kind : Text) (t : Trace)
    → IsTree t
    → IsTree (allocate raw (own parent t) name kind t).1
unfolding allocate slotted added
allocate-IsTree raw parent name kind t v =
    let f = slotted-facts raw t v.live in
    let now = (time raw (slotted t)).0 in
    let s = added now parent name kind t in
    let l = length-append t.store (s ∷ []) in
    record {
      live = f.2;
      numbered = omega (arith, l, f.3, v.numbered);
      node = λ i h. rw f.1 (Node-at now parent name kind t i v f.0 (omega (arith, l)));
      rising =
          subst (Rising 0 (t.spans ++ (length t.store ∷ []))) (omega (arith, l))
            (Rising-append 0 t.spans (length t.store) (omega arith) v.rising);
    }

pub append_span-IsTree :
    (raw : ℕ) (parent : Option ℕ) (name kind : Text) (t : Trace)
    → IsTree t
    → IsTree (append_span raw (own parent t) name kind t).1
unfolding append_span
append_span-IsTree raw parent name kind t v =
    if-split {A = Option ℕ × Trace} (λ r. IsTree r.1) t.finished (λ _. v)
      λ _.
        if-split {A = Option ℕ × Trace} (λ r. IsTree r.1) (at_limit t.max_spans (length t.spans))
          (λ _. record { live = v.live; numbered = v.numbered; node = v.node; rising = v.rising })
          (λ _. allocate-IsTree raw parent name kind t v)

pub new_trace-IsTree :
    (now : ℕ) (id name : Text) (opts : TraceOptions) → IsTree (new_trace now id name opts)
unfolding new_trace
new_trace-IsTree now id name opts = record {
  live = refl;
  numbered = refl;
  node = λ i h. absurd (omega arith);
  rising = tt;
}
