-- ===== src/Frontend/Timeline/Coverage.antt =====
-- The gaps between boundaries, and the intervals that are active in them.
use oida.Prelude.{
  ltb, leb, ◌==◌, ==_iff, Bool-cases, if-split, text_eq, ℕ, suc, ◌+◌, ◌≤◌, ◌<◌, ◌≡◌, refl, subst,
  inl, inr, Bool, true, false, ◌&&◌, ◌||◌, Option, none, some, List, [], ◌∷◌, arith,
}
use oida.Frontend.Timeline.{Segment, Interval, innermost, add_segment}
use oida.Frontend.Timeline.Layout.{Rises}

abbrev pub any_of : {A : Type 0} → (A → Bool) → List A → Bool
any_of f [] = false
any_of f (x ∷ xs) = f x || any_of f xs

-- A moment of the trace, from its start, is in a segment.
abbrev pub in_segment : ℕ → Segment → Bool
in_segment x s = leb s.offset x && ltb x (s.offset + s.duration)

-- An interval is active at a time.
abbrev pub is_active : ℕ → Interval → Bool
is_active y i = leb i.start y && ltb y i.stop

pub covered-add_segment :
    (x : ℕ) (s : Segment) (ss : List Segment)
    → any_of (in_segment x) (add_segment s ss) ≡ any_of (in_segment x) ss || in_segment x s
unfolding add_segment
covered-add_segment x s [] = ground arith
covered-add_segment x s (p ∷ []) =
    if-split (λ r. any_of (in_segment x) r ≡ (in_segment x p || false) || in_segment x s)
      (text_eq p.kind s.kind && p.offset + p.duration == s.offset)
      (λ y.
        let joined : (p.offset + p.duration == s.offset) ≡ true = ground arith in
        let at = (==_iff (p.offset + p.duration) s.offset).0 joined in ground arith)
      (λ n. ground arith)
covered-add_segment x s (p ∷ q ∷ ss) = ground (arith, covered-add_segment x s (q ∷ ss))

unfoldable pub is_found : Option Interval → Bool
is_found none = false
is_found (some i) = true

pub found-innermost :
    (start : ℕ) (best : Option Interval) (is : List Interval)
    → is_found (innermost start best is) ≡ is_found best || any_of (is_active start) is
unfolding innermost is_found
found-innermost start none [] = refl
found-innermost start (some b) [] = refl
found-innermost start none (c ∷ cs) =
    ground (arith, found-innermost start (some c) cs, found-innermost start none cs)
found-innermost start (some b) (c ∷ cs) =
    ground (arith, found-innermost start (some c) cs, found-innermost start (some b) cs)

-- Some gap between neighbouring boundaries holds the time, and passes the test at its start.
unfoldable pub between : ℕ → (ℕ → Bool) → List ℕ → Bool
between y f [] = false
between y f (a ∷ []) = false
between y f (a ∷ b ∷ bs) = (leb a y && ltb y b && f a) || between y f (b ∷ bs)

abbrev pub mem : ℕ → List ℕ → Bool
mem e xs = any_of (λ x. x == e) xs

mem-low : (low high e : ℕ) (bs : List ℕ) → Rises low bs high → mem e bs ≡ true → low ≤ e
mem-low low high e [] r m = ground arith
mem-low low high e (b ∷ bs) (p, q, r) m = elim (Bool-cases (b == e)) [
  | inl y ↦ omega (arith, (==_iff b e).0 y)
  | inr n ↦ omega (arith, mem-low (suc b) high e bs r (ground arith))
]

-- After its end an interval is in no gap.
between-after :
    (y s e low high : ℕ) (bs : List ℕ)
    → Rises low bs high
    → e ≤ low
    → between y (λ a. leb s a && ltb a e) bs ≡ false
unfolding between
between-after y s e low high [] r l = refl
between-after y s e low high (a ∷ []) r l = refl
between-after y s e low high (a ∷ b ∷ bs) (p, q, r) l =
    let rest = between-after y s e (suc a) high (b ∷ bs) r (omega arith) in
    let late : ltb a e ≡ false = ground arith in ground arith

-- From a boundary at or after its start, an interval is in the gaps up to its end.
between-started :
    (y s e low high a : ℕ) (bs : List ℕ)
    → Rises low (a ∷ bs) high
    → s ≤ a
    → mem e (a ∷ bs) ≡ true
    → between y (λ a. leb s a && ltb a e) (a ∷ bs) ≡ leb a y && ltb y e
unfolding between
between-started y s e low high a [] r h m = ground (arith, ==_iff a e)
between-started y s e low high a (b ∷ bs) (p, q, (p', q', r)) h m = elim (Bool-cases (a == e)) [
  | inl i ↦
      let same = (==_iff a e).0 i in
      let rest = between-after y s e (suc a) high (b ∷ bs) (p', q', r) (omega arith) in ground arith
  | inr n ↦
      let there : mem e (b ∷ bs) ≡ true = ground arith in
      let far = mem-low b high e (b ∷ bs) (omega arith, q', r) there in
      let rest = between-started y s e (suc a) high b bs (p', q', r) (omega arith) there in
      ground arith
]

-- An interval whose ends are boundaries is in the gaps between them.
pub between-interval :
    (y s e low high : ℕ) (bs : List ℕ)
    → Rises low bs high
    → s < e
    → mem s bs ≡ true
    → mem e bs ≡ true
    → between y (λ a. leb s a && ltb a e) bs ≡ leb s y && ltb y e
unfolding between
between-interval y s e low high [] r h m n = ground arith
between-interval y s e low high (a ∷ []) r h m n = ground (arith, ==_iff a s, ==_iff a e)
between-interval y s e low high (a ∷ b ∷ bs) (p, q, (p', q', r)) h m n =
    elim (Bool-cases (a == s)) [
      | inl i ↦
          let same = (==_iff a s).0 i in
          subst (λ k. between y (λ a. leb s a && ltb a e) (a ∷ b ∷ bs) ≡ leb k y && ltb y e) same
            (between-started y s e low high a (b ∷ bs) (p, q, (p', q', r)) (omega (arith, same)) n)
      | inr d ↦
          let there : mem s (b ∷ bs) ≡ true = ground arith in
          let later = mem-low (suc a) high s (b ∷ bs) (p', q', r) there in
          let end : mem e (b ∷ bs) ≡ true = ground (arith, ==_iff a e) in
          let rest = between-interval y s e (suc a) high (b ∷ bs) (p', q', r) h there end in
          ground arith
    ]
