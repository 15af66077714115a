-- ===== src/Frontend/Listing/Sorting.antt =====
-- The order of the list, Sort of frontend/view/sort.go.
use mathlib.Core.List.{Perm}
use oida.Prelude.{
  if◌then◌else◌, length, keep, ℤ, pos, ◌≤ℤ◌, ltb_ℤ, Text, text_eq, ◌≡◌, sym, ◌∙◌, Bool, true, false,
  List, arith,
}
use oida.Model.Data.{Trace}
use oida.Model.Options.{int_eq, int_eq_iff}
use oida.Model.Statistics.Sorting.{sort_stable}
use oida.Model.Statistics.Stable.{
  IsOrdered, IsOrdered-weaken, sort_stable-perm, sort_stable-IsOrdered, keep-sort_stable,
}
use oida.Frontend.Page.{sort_duration, sort_spans, sort_allocated}
use oida.Frontend.Listing.{less, sort_traces}

-- The figure in a column.
abbrev figure : Text → Trace → ℤ
figure key t =
    if text_eq key sort_duration
    then t.duration
    else if text_eq key sort_spans
    then pos (length t.spans)
    else if text_eq key sort_allocated
    then pos t.memory.allocated_bytes
    else pos t.started_at

less-figure : (key : Text) (a b : Trace) → less key a b ≡ ltb_ℤ (figure key a) (figure key b)
unfolding less
less-figure key a b = ground arith

ltb_ℤ-le : (a b : ℤ) → ltb_ℤ a b ≡ false → b ≤ℤ a
ltb_ℤ-le a b h = ground arith

ltb_ℤ-asymmetric : (a b : ℤ) → ltb_ℤ a b ≡ true → ltb_ℤ b a ≡ false
ltb_ℤ-asymmetric a b h = ground arith

ltb_ℤ-transitive : (a b c : ℤ) → ltb_ℤ b a ≡ false → ltb_ℤ c b ≡ false → ltb_ℤ c a ≡ false
ltb_ℤ-transitive a b c h k = ground arith

ltb_ℤ-irreflexive : (a : ℤ) → ltb_ℤ a a ≡ false
ltb_ℤ-irreflexive a = ground arith

-- The column is in the direction of its arrow: smallest first or largest first.
abbrev pub InOrder : Text → Bool → Trace → Trace → Type 0
InOrder key ascending a b =
    if ascending then figure key a ≤ℤ figure key b else figure key b ≤ℤ figure key a

module _ (key : Text) where
  abbrev direction : Bool → Trace → Trace → Bool
  direction ascending a b = if ascending then less key a b else less key b a

  direction-asymmetric :
      (up : Bool) (a b : Trace) → direction up a b ≡ true → direction up b a ≡ false
  direction-asymmetric true a b h =
      less-figure key b a
      ∙ ltb_ℤ-asymmetric (figure key a) (figure key b) (sym (less-figure key a b) ∙ h)
  direction-asymmetric false a b h =
      less-figure key a b
      ∙ ltb_ℤ-asymmetric (figure key b) (figure key a) (sym (less-figure key b a) ∙ h)

  direction-transitive :
      (up : Bool) (a b c : Trace)
      → direction up b a ≡ false
      → direction up c b ≡ false
      → direction up c a ≡ false
  direction-transitive true a b c h k =
      less-figure key c a
      ∙ ltb_ℤ-transitive (figure key a) (figure key b) (figure key c)
          (sym (less-figure key b a) ∙ h) (sym (less-figure key c b) ∙ k)
  direction-transitive false a b c h k =
      less-figure key a c
      ∙ ltb_ℤ-transitive (figure key c) (figure key b) (figure key a)
          (sym (less-figure key b c) ∙ k) (sym (less-figure key a b) ∙ h)

  direction-InOrder : (up : Bool) (a b : Trace) → direction up b a ≡ false → InOrder key up a b
  direction-InOrder true a b h =
      ltb_ℤ-le (figure key b) (figure key a) (sym (less-figure key b a) ∙ h)
  direction-InOrder false a b h =
      ltb_ℤ-le (figure key a) (figure key b) (sym (less-figure key a b) ∙ h)

  direction_level :
      (up : Bool) (a b : Trace) → figure key a ≡ figure key b → direction up a b ≡ false
  direction_level true a b e = less-figure key a b ∙ rw e (ltb_ℤ-irreflexive (figure key b))
  direction_level false a b e = less-figure key b a ∙ rw e (ltb_ℤ-irreflexive (figure key b))

  -- Sort keeps the traces, puts the column in its direction, and leaves traces with the same figure in
  -- the order they had.
  pub sort_traces-InOrder :
      (up : Bool) (ts : List Trace) (figured : ℤ)
      → Perm (sort_traces ts key up) ts
        × IsOrdered (InOrder key up) (sort_traces ts key up)
        × (keep (λ t. int_eq (figure key t) figured) (sort_traces ts key up)
            ≡ keep (λ t. int_eq (figure key t) figured) ts)
  unfolding sort_traces
  sort_traces-InOrder up ts figured = (
    sort_stable-perm (direction up) ts,
    IsOrdered-weaken (direction-InOrder up) (sort_stable (direction up) ts) (
        sort_stable-IsOrdered (direction up) (direction-asymmetric up) (direction-transitive up)
          ts),
    keep-sort_stable (direction up) (λ t. int_eq (figure key t) figured)
        (λ a b x y.
          direction_level up a b (
            (int_eq_iff (figure key a) figured).0 x
            ∙ sym ((int_eq_iff (figure key b) figured).0 y)))
        ts,
  )
