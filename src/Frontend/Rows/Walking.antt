-- ===== src/Frontend/Rows/Walking.antt =====
-- The walk over the spans ends.
use oida.Prelude.{
  ◌==◌, ==_iff, Bool-cases, Option-cases, length, All, ℕ, zero, suc, ◌+◌, ◌≤◌, ◌<◌, ◌≡◌, refl, sym,
  ap, ◌∙◌, subst, inl, inr, Option, none, some, List, [], ◌∷◌, ◌++◌, map, arith,
}
use oida.Model.Data.{Span, Trace, span_list, span_at}
use oida.Model.Cloning.Archive.{archived, inert, span_list-archived}
use oida.Model.History.Shape.{IsTree, Rising}
use oida.Frontend.Rows.{SpanRow, children, walk_each, walk, row_of, with_orphans, rows}

-- Spans hang below earlier ones, and their numbers stay within a bound.
abbrev IsNumbered : ℕ → List Span → Type 0
IsNumbered bound spans = All (λ s. (s.parent_id < s.id) × (s.id ≤ bound)) spans

-- The children of a span come after it.
children-After :
    (bound parent : ℕ) (spans : List Span)
    → IsNumbered bound spans
    → All (λ s. (parent < s.id) × (s.id ≤ bound)) (children parent spans)
children-After bound parent [] h = tt
children-After bound parent (s ∷ spans) ((p, b), h) = elim (Bool-cases (s.parent_id == parent)) [
  | inl y ↦
      rw y
        ((omega (arith, (==_iff s.parent_id parent).0 y), b), children-After bound parent spans h)
  | inr n ↦ rw n (children-After bound parent spans h)
]

walk_each-step :
    (below : ℕ → Option (List SpanRow)) (started : ℕ) (s : Span) (siblings : List Span)
    (found more : List SpanRow)
    → below s.id ≡ some found
    → walk_each below started siblings ≡ some more
    → walk_each below started (s ∷ siblings)
      ≡ some (row_of started (length siblings == 0) s ∷ (found ++ more))
unfolding walk_each
walk_each-step below started s siblings found more e q = rw (walk_each, e, q) refl

-- The loop gives the rows when each of its walks does.
walk_each-Ends :
    (below : ℕ → Option (List SpanRow)) (started : ℕ) (siblings : List Span)
    → All (λ s. (found : List SpanRow) × (below s.id ≡ some found)) siblings
    → (found : List SpanRow) × (walk_each below started siblings ≡ some found)
unfolding walk_each
walk_each-Ends below started [] h = ([], refl)
walk_each-Ends below started (s ∷ siblings) ((found, e), h) =
    let (more, q) = walk_each-Ends below started siblings h in
    (_, walk_each-step below started s siblings found more e q)

All-weaken :
    {A : Type 0} {P Q : A → Type 0} → ((x : A) → P x → Q x) → (xs : List A) → All P xs → All Q xs
All-weaken f [] h = tt
All-weaken f (x ∷ xs) (p, h) = (f x p, All-weaken f xs h)

walk-Ends :
    (bound fuel started parent : ℕ) (spans : List Span)
    → IsNumbered bound spans
    → parent ≤ bound
    → bound < parent + fuel
    → (found : List SpanRow) × (walk fuel started spans parent ≡ some found)
unfolding walk
walk-Ends bound zero started parent spans h p f = ground arith
walk-Ends bound (suc fuel) started parent spans h p f =
    walk_each-Ends (walk fuel started spans) started (children parent spans) (
      All-weaken (λ s b. walk-Ends bound fuel started s.id spans h b.1 (omega arith))
        (children parent spans) (children-After bound parent spans h))

-- More fuel gives the same rows.
walk_each-more :
    (f g : ℕ → Option (List SpanRow)) (started : ℕ) (siblings : List Span) (found : List SpanRow)
    → ((i : ℕ) (r : List SpanRow) → f i ≡ some r → g i ≡ some r)
    → walk_each f started siblings ≡ some found
    → walk_each g started siblings ≡ some found
unfolding walk_each
walk_each-more f g started [] found k e = e
walk_each-more f g started (s ∷ siblings) found k e = elim (Option-cases (f s.id)) [
  | inl n ↦ ground arith
  | inr (r, q) ↦ elim (Option-cases (walk_each f started siblings)) [
    | inl n ↦ ground arith
    | inr (more, w) ↦
        walk_each-step g started s siblings r more (k s.id r q)
          (walk_each-more f g started siblings more k w)
        ∙ sym (walk_each-step f started s siblings r more q w)
        ∙ e
  ]
]

walk-more :
    (fuel other started parent : ℕ) (spans : List Span) (found : List SpanRow)
    → fuel ≤ other
    → walk fuel started spans parent ≡ some found
    → walk other started spans parent ≡ some found
unfolding walk
walk-more zero other started parent spans found le e = cc
walk-more (suc fuel) zero started parent spans found le e = ground arith
walk-more (suc fuel) (suc other) started parent spans found le e =
    walk_each-more (walk fuel started spans) (walk other started spans) started
      (children parent spans) found (λ i r. walk-more fuel other started i spans r (omega arith)) e

-- The recorded spans of a tree are numbered.
Rising-IsNumbered :
    (t : Trace) (k : ℕ) (is : List ℕ)
    → IsTree t
    → Rising k is (length t.store)
    → IsNumbered t.sequence (map (λ i. inert (span_at i t)) is)
Rising-IsNumbered t k [] v r = tt
Rising-IsNumbered t k (i ∷ is) v (a, b, r) =
    let n = v.node i b in
    (
      (
        elim n.hangs [
          | inl top ↦ omega (arith, n.number, top.0)
          | inr (p, lt, e, d, b) ↦ omega (arith, n.number, e)
        ],
        omega (arith, n.number, v.numbered),
      ),
      Rising-IsNumbered t (suc i) is v r,
    )

-- For the archived form of a trace whose spans form a tree, as after any history of calls, the
-- walk that lays out the rows ends: it needs no more fuel than one above the number of spans that
-- were started, and gives the same rows with more.
pub rows-Ends :
    (t : Trace)
    → IsTree t
    → (found : List SpanRow) × ((fuel : ℕ)
        → t.sequence < fuel
        → rows fuel (archived t) ≡ some found)
unfolding rows
rows-Ends t v =
    let spans = span_list (archived t) in
    let h : IsNumbered t.sequence spans =
      subst (IsNumbered t.sequence) (sym (span_list-archived t))
        (Rising-IsNumbered t 0 t.spans v v.rising) in
    let (found, e) =
      walk-Ends t.sequence (suc t.sequence) t.started_at 0 spans h (omega arith) (omega arith) in
    (
      with_orphans t.started_at spans found,
      λ fuel f.
          let q = walk-more (suc t.sequence) fuel t.started_at 0 spans found (omega arith) e in
          ap
            (λ o. elim o as (λ x. Option (List SpanRow)) [
              | none ↦ none
              | some r ↦ some (with_orphans t.started_at spans r)
            ])
            q,
    )
