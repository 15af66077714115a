-- ===== src/Model/History/Filtering.antt =====
-- What ending a span takes off the recorded list, model/span.go and model/debug_span.go.
use oida.Prelude.{
  ◌==◌, ==_iff, Option-cases, length, keep, ℤ, pos, sub_ℕ, leb_ℤ, ℕ, suc, ◌≤◌, ◌≡◌, refl, ap, inl,
  inr, Bool, true, false, not, ◌&&◌, ◌||◌, none, some, List, [], ◌∷◌, arith,
}
use oida.Model.Data.{Span, Trace, span_at}
use oida.Model.Clock.{time}
use oida.Model.Spans.{remove_last, filter_debug_span, put_span, close, end_span}
use oida.Model.History.Shape.{Rising, IsTree}

-- A span of a trace that still runs is dropped as it ends at the reading `now`: it is a debug span,
-- a minimum is set, and it ran shorter than that.
abbrev pub drops : ℕ → Span → Trace → Bool
drops now s t =
    not s.ended
    && (s.debug && s.attached)
    && (not (t.debug_min_span == 0 || leb_ℤ (pos t.debug_min_span) (sub_ℕ now s.started_at))
        && not t.finished)

-- The list without the position `i` if `b`.
abbrev pub without : Bool → ℕ → List ℕ → List ℕ
without b i = keep λ j. not (b && j == i)

without-false : (i : ℕ) (xs : List ℕ) → without false i xs ≡ xs
without-false i [] = refl
without-false i (x ∷ xs) = ap (◌∷◌ x) (without-false i xs)

remove_last-le :
    (i k : ℕ) (xs ys : List ℕ) (n : ℕ) → remove_last i xs ≡ some ys → Rising k xs n → k ≤ i
unfolding remove_last
remove_last-le i k [] ys n h r = cc
remove_last-le i k (x ∷ xs) ys n h r = elim (Option-cases (remove_last i xs)) [
  | inl e ↦ ground (arith, ==_iff x i)
  | inr (zs, e) ↦ ground (arith, remove_last-le i (suc x) xs zs n e r.2)
]

-- On positions that rise, removing the last entry that is `i` removes every such entry.
remove_last-Rising :
    (i k : ℕ) (xs : List ℕ) (n : ℕ)
    → Rising k xs n
    → (elim (remove_last i xs) [ none ↦ xs | some ys ↦ ys ]) ≡ without true i xs
unfolding remove_last
remove_last-Rising i k [] n r = refl
remove_last-Rising i k (x ∷ xs) n r = elim (Option-cases (remove_last i xs)) [
  | inl e ↦ ground (arith, remove_last-Rising i (suc x) xs n r.2)
  | inr (zs, e) ↦ ground (
    arith,
    ==_iff x i,
    remove_last-le i (suc x) xs zs n e r.2,
    remove_last-Rising i (suc x) xs n r.2,
  )
]

filter_debug_span-spans :
    (i : ℕ) (d : ℤ) (t : Trace) (n : ℕ)
    → Rising 0 t.spans n
    → (filter_debug_span i d t).spans
      ≡ without
          (not (t.debug_min_span == 0 || leb_ℤ (pos t.debug_min_span) d) && not t.finished)
          i
          t.spans
unfolding filter_debug_span
filter_debug_span-spans i d t n r =
    ground (arith, without-false i t.spans, remove_last-Rising i 0 t.spans n r)

time-spans :
    (raw : ℕ) (t : Trace)
    → ((time raw t).1.spans ≡ t.spans)
      × ((time raw t).1.debug_min_span ≡ t.debug_min_span)
      × ((time raw t).1.finished ≡ t.finished)
unfolding time
time-spans raw t = ground arith

-- End on a span of a trace whose spans form a tree takes that span off the recorded list exactly
-- when it is a running debug span of the trace, the trace runs, and the span ran shorter than the
-- minimum that is set; all other spans stay, in their order.
pub end_span-spans :
    (raw i : ℕ) (t : Trace)
    → IsTree t
    → (end_span raw i t).spans ≡ without (drops (time raw t).0 (span_at i t) t) i t.spans
unfolding end_span close put_span
end_span-spans raw i t v =
    let s = span_at i t in
    let now = (time raw t).0 in
    let d = sub_ℕ now s.started_at in
    let u = put_span i (record s { ended = true; duration = d }) (time raw t).1 in
    let k = time-spans raw t in
    ground (
      arith,
      k,
      without-false i t.spans,
      filter_debug_span-spans i d u (length t.store) (rw k.0 v.rising),
    )
