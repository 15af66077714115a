-- ===== src/Model/History/Ends.antt =====
-- Ending spans and finishing a trace: what End and Finish leave behind.
use native.Mathlib.Decide.{ℕ_discrete}
use mathlib.Core.List.{reverse-cons}
use oida.Prelude.{
  if◌then◌else◌, Bool-cases, Option-cases, if-split, length, get_or, set, get_or-set_self,
  get_or-set_ne, ℤ, pos, sub_ℕ, ◌<ℤ◌, sub_ℕ_parts, ℕ, suc, ◌<◌, ◌≡◌, refl, sym, ap, ◌∙◌, subst, ◌⊎◌,
  inl, inr, true, false, ◌&&◌, List, [], ◌∷◌, ◌++◌, reverse, arith,
}
use oida.Model.Data.{Span, Trace, zero_span, span_at}
use oida.Model.Clock.{time, stamp-lt}
use oida.Model.Spans.{remove_last, filter_debug_span, put_span, end_span}
use oida.Model.Finishing.{end_each, complete, finish, total}
use oida.Model.Timing.{last, IsTimed, complete-IsTimed}
use oida.Model.History.Shape.{Rising, IsTree}
use oida.Model.History.Keeping.{complete-Apart, end_span-Keeps, Apart-Keeps}

abbrev HasEnded : Trace → ℕ → Type 0
HasEnded t i = (span_at i t).ended ≡ true

end_reading : ℕ → ℕ → Trace → ℕ × Trace
end_reading raw i t = if (span_at i t).attached then time raw t else (raw, t)

abbrev closed_span : ℕ → ℕ → Trace → Span
closed_span raw i t = record (span_at i t) {
  ended = true;
  duration = sub_ℕ (end_reading raw i t).0 (span_at i t).started_at;
}

abbrev closed_trace : ℕ → ℕ → Trace → Trace
closed_trace raw i t = put_span i (closed_span raw i t) (end_reading raw i t).1

end_span-ended : (raw i : ℕ) (t : Trace) → HasEnded t i → end_span raw i t ≡ t
unfolding end_span
end_span-ended raw i t e = if-split (λ u. u ≡ t) (span_at i t).ended (λ _. refl) (λ n. cc)

store-end_reading : (raw i : ℕ) (t : Trace) → (end_reading raw i t).1.store ≡ t.store
unfolding end_reading time
store-end_reading raw i t = ground arith

store-filter : (i : ℕ) (d : ℤ) (t : Trace) → (filter_debug_span i d t).store ≡ t.store
unfolding filter_debug_span
store-filter i d t = elim (Option-cases (remove_last i t.spans)) [
  | inl e ↦ ground arith
  | inr (ys, e) ↦ ground arith
]

store-end_span_open :
    (raw i : ℕ) (t : Trace)
    → (span_at i t).ended ≡ false
    → (end_span raw i t).store ≡ set t.store i (closed_span raw i t)
unfolding end_span end_reading put_span
store-end_span_open raw i t n =
    let goal : Trace → Type 0 = λ u. u.store ≡ set t.store i (closed_span raw i t) in
    let before = ap (λ xs. set xs i (closed_span raw i t)) (store-end_reading raw i t) in
    if-split goal (span_at i t).ended (λ y. cc)
      λ _.
        if-split goal ((span_at i t).debug && (span_at i t).attached)
          (λ _. store-filter i (closed_span raw i t).duration (closed_trace raw i t) ∙ before)
          (λ _. before)

-- The list holds the position.
abbrev pub Among : ℕ → List ℕ → Type 0
Among j [] = ⊥
Among j (x ∷ xs) = (x ≡ j) ⊎ Among j xs

Among-append_left : (j : ℕ) (xs ys : List ℕ) → Among j xs → Among j (xs ++ ys)
Among-append_left j [] ys m = elim m [ ]
Among-append_left j (x ∷ xs) ys (inl e) = inl e
Among-append_left j (x ∷ xs) ys (inr m) = inr (Among-append_left j xs ys m)

Among-append_right : (j : ℕ) (xs ys : List ℕ) → Among j ys → Among j (xs ++ ys)
Among-append_right j [] ys m = m
Among-append_right j (x ∷ xs) ys m = inr (Among-append_right j xs ys m)

Among-reverse : (j : ℕ) (xs : List ℕ) → Among j xs → Among j (reverse xs)
Among-reverse j [] m = elim m [ ]
Among-reverse j (x ∷ xs) (inl e) =
    rw (reverse-cons x xs) (Among-append_right j (reverse xs) (x ∷ []) (inl e))
Among-reverse j (x ∷ xs) (inr m) =
    rw (reverse-cons x xs) (Among-append_left j (reverse xs) (x ∷ []) (Among-reverse j xs m))

-- The store after End: as it was for a span that had ended, and else with that span closed.
store-end_span :
    (raw i : ℕ) (t : Trace)
    → (HasEnded t i × (end_span raw i t ≡ t))
      ⊎ ((s : Span) × (s.ended ≡ true) × ((end_span raw i t).store ≡ set t.store i s))
store-end_span raw i t = elim (Bool-cases (span_at i t).ended) [
  | inl e ↦ inl (e, end_span-ended raw i t e)
  | inr n ↦ inr (closed_span raw i t, refl, store-end_span_open raw i t n)
]

get_or-set_cases :
    (xs : List Span) (i j : ℕ) (s : Span)
    → ((get_or xs j zero_span).ended ≡ true) ⊎ (i ≡ j)
    → s.ended ≡ true
    → j < length xs
    → (get_or (set xs i s) j zero_span).ended ≡ true
get_or-set_cases xs i j s c h k = elim (ℕ_discrete i j) [
  | yes e ↦ rw (e, get_or-set_self xs j s zero_span k) h
  | no n ↦ rw (get_or-set_ne xs i j s zero_span n) (ground arith)
]

end_span-HasEnded :
    (raw i j : ℕ) (t : Trace)
    → j < length t.store
    → HasEnded t j ⊎ (i ≡ j)
    → HasEnded (end_span raw i t) j
end_span-HasEnded raw i j t h c = elim (store-end_span raw i t) [
  | inl (e, same) ↦ rw same (still e)
  | inr (s, e, st) ↦ rw st (get_or-set_cases t.store i j s c e h)
]
  where
    still : HasEnded t i → HasEnded t j
    still e = elim c [ inl d ↦ d | inr q ↦ subst (HasEnded t) q e ]

-- Every span of the list has ended after End was called on each, and none starts again.
end_each-HasEnded :
    (answers : ℕ → ℕ) (is : List ℕ) (t : Trace) (j : ℕ)
    → j < length t.store
    → HasEnded t j ⊎ Among j is
    → HasEnded (end_each answers is t) j
unfolding end_each
end_each-HasEnded answers [] t j h (inl d) = d
end_each-HasEnded answers [] t j h (inr m) = elim m [ ]
end_each-HasEnded answers (i ∷ is) t j h c =
    let u = end_span (answers 0) i t in
    let size = (end_span-Keeps (answers 0) i t).size in
    end_each-HasEnded (λ k. answers (suc k)) is u j (omega arith) (after c)
  where
    after : HasEnded t j ⊎ Among j (i ∷ is) → HasEnded (end_span (answers 0) i t) j ⊎ Among j is
    after (inl d) = inl (end_span-HasEnded (answers 0) i j t h (inl d))
    after (inr (inl e)) = inl (end_span-HasEnded (answers 0) i j t h (inr e))
    after (inr (inr m)) = inr m

-- What ending spans leaves alone once the trace has finished.
record Settled (t u : Trace) : Type 0 where
  finished : u.finished ≡ true
  spans : u.spans ≡ t.spans
  duration : u.duration ≡ t.duration
  state_time : u.state_time ≡ t.state_time
  dropped : u.dropped_spans ≡ t.dropped_spans

end_span-Settled : (raw i : ℕ) (t : Trace) → t.finished ≡ true → Settled t (end_span raw i t)
unfolding end_span
end_span-Settled raw i t h = ground arith

end_each-Settled :
    (answers : ℕ → ℕ) (is : List ℕ) (t : Trace)
    → t.finished ≡ true
    → Settled t (end_each answers is t)
unfolding end_each
end_each-Settled answers [] t h = record {
  finished = h;
  spans = refl;
  duration = refl;
  state_time = refl;
  dropped = refl;
}
end_each-Settled answers (i ∷ is) t h =
    let first = end_span-Settled (answers 0) i t h in
    let rest =
      end_each-Settled (λ k. answers (suc k)) is (end_span (answers 0) i t) first.finished in
    record {
      finished = rest.finished;
      spans = rest.spans ∙ first.spans;
      duration = rest.duration ∙ first.duration;
      state_time = rest.state_time ∙ first.state_time;
      dropped = rest.dropped ∙ first.dropped;
    }

Rising-Among : (j k n : ℕ) (xs : List ℕ) → Rising k xs n → Among j xs → j < n
Rising-Among j k n [] r m = elim m [ ]
Rising-Among j k n (x ∷ xs) r (inl e) = omega arith
Rising-Among j k n (x ∷ xs) r (inr m) = Rising-Among j (suc x) n xs r.2 m

complete-facts :
    (raw : ℕ) (t : Trace)
    → IsTimed t
    → ((complete raw t).finished ≡ true)
      × ((complete raw t).spans ≡ t.spans)
      × (pos 0 <ℤ (complete raw t).duration)
      × ((complete raw t).changed_at ≡ (time raw t).0)
      × ((complete raw t).duration ≡ sub_ℕ (complete raw t).changed_at (complete raw t).started_at)
unfolding complete
complete-facts raw t v =
    ground (arith, stamp-lt (last t) raw, sub_ℕ_parts (time raw t).0 t.started_at)

-- What Finish makes of a trace that is still running: it has finished, its duration is positive
-- and is the sum of the time per state, its spans are those of before and all have ended, and
-- finishing it again changes nothing.
pub record IsFinal (t u : Trace) : Type 0 where
  pub finished : u.finished ≡ true
  pub spans : u.spans ≡ t.spans
  pub ended : (j : ℕ) → Among j u.spans → HasEnded u j
  pub positive : pos 0 <ℤ u.duration
  pub accounted : total u.state_time ≡ u.duration
  pub again : (raw : ℕ) (answers : ℕ → ℕ) → finish raw answers u ≡ u

finish-done : (raw : ℕ) (answers : ℕ → ℕ) (t : Trace) → t.finished ≡ true → finish raw answers t ≡ t
unfolding finish
finish-done raw answers t h = if-split (λ u. u ≡ t) t.finished (λ _. refl) (λ n. cc)

finish-open :
    (raw : ℕ) (answers : ℕ → ℕ) (t : Trace)
    → t.finished ≡ false
    → finish raw answers t ≡ end_each answers (reverse t.spans) (complete raw t)
unfolding finish
finish-open raw answers t h =
    if-split (λ u. u ≡ end_each answers (reverse t.spans) (complete raw t)) t.finished (λ y. cc)
      (λ _. refl)

-- Finish on a running trace whose times add up and whose spans form a tree, as after any history
-- of calls, makes it finished, with a positive duration that is the sum of the time per state,
-- with the spans it had, all of them ended, and Finish on the result changes nothing.
pub finish-IsFinal :
    (raw : ℕ) (answers : ℕ → ℕ) (t : Trace)
    → IsTimed t
    → IsTree t
    → t.finished ≡ false
    → IsFinal t (finish raw answers t)
finish-IsFinal raw answers t v w h =
    let c = complete raw t in
    let f = complete-facts raw t v in
    let s = end_each-Settled answers (reverse t.spans) c f.0 in
    let timed = complete-IsTimed raw t v in
    let sized = (Apart-Keeps (complete-Apart raw t)).size in
    rw (finish-open raw answers t h) (record {
      finished = s.finished;
      spans = s.spans ∙ f.1;
      ended = λ j m.
          let m' : Among j t.spans = subst (Among j) (s.spans ∙ f.1) m in
          end_each-HasEnded answers (reverse t.spans) c j
            (rw sized (Rising-Among j 0 (length t.store) t.spans w.rising m'))
            (inr (Among-reverse j t.spans m'));
      positive = rw s.duration f.2;
      accounted = rw (s.state_time, s.duration) (timed.accounted ∙ sym f.4);
      again = λ raw' answers'. finish-done raw' answers' _ s.finished;
    })
