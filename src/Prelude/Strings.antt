-- ===== src/Prelude/Strings.antt =====
-- Go strings as lists of bytes, with the tests of package strings that the program calls.
use Prim.Native.Nat.{ℕ}
use Prim.Native.Char.{code}
use Prim.Native.String.{String}
use mathlib.Core.Path.{◌≡◌, refl}
use mathlib.Core.Logic.{◌↔◌}
use mathlib.Core.Bool.{Bool, true, false, ◌&&◌}
use mathlib.Core.List.{◌++◌, List, [], ◌∷◌, ◌++◌}
use native.Mathlib.Omega.{arith}
use mathlib.Core.Option
use mathlib.Core.Option.{Option, none, some}
use mathlib.Core.Path.{sym, ap, ap₂}
use mathlib.Core.Logic.{inl, inr}
use oida.Prelude.Lists.{length, length-append}
use oida.Prelude.Tests.{==_iff, if◌then◌else◌, Bool-cases, Option-cases, ◌==◌}

abbrev pub Text : Type 0
Text = List ℕ

-- The bytes of an ASCII literal.
abbrev pub bytes : String → Text
bytes String.[] = []
bytes (String.◌∷◌ c s) = code c ∷ bytes s

unfoldable pub text_eq : Text → Text → Bool
text_eq [] [] = true
text_eq (a ∷ s) (b ∷ t) = a == b && text_eq s t
text_eq _ _ = false

pub text_eq_refl : (s : Text) → text_eq s s ≡ true
unfolding text_eq
text_eq_refl [] = refl
text_eq_refl (a ∷ s) = ground (arith, text_eq_refl s)

pub text_eq_sound : (s t : Text) → text_eq s t ≡ true → s ≡ t
unfolding text_eq
text_eq_sound [] [] h = refl
text_eq_sound [] (b ∷ t) h = cc
text_eq_sound (a ∷ s) [] h = cc
text_eq_sound (a ∷ s) (b ∷ t) h = ground (arith, text_eq_sound s t)

pub text_eq_iff : (s t : Text) → (text_eq s t ≡ true) ↔ (s ≡ t)
text_eq_iff s t = (text_eq_sound s t, λ e. rw e (text_eq_refl t))

-- strings.HasPrefix and strings.CutSuffix, with the prefix or the suffix first.
unfoldable pub has_prefix : Text → Text → Bool
has_prefix [] s = true
has_prefix (a ∷ p) [] = false
has_prefix (a ∷ p) (b ∷ s) = a == b && has_prefix p s

unfoldable pub cut_suffix : Text → Text → Option Text
cut_suffix suffix [] = if text_eq [] suffix then some [] else none
cut_suffix suffix (c ∷ s) =
    let rest = Option.map (◌∷◌ c) (cut_suffix suffix s) in
    if text_eq (c ∷ s) suffix then some [] else rest

pub has_prefix_sound : (p s : Text) → has_prefix p s ≡ true → (rest : Text) × (s ≡ p ++ rest)
unfolding has_prefix
has_prefix_sound [] s h = (s, refl)
has_prefix_sound (a ∷ p) [] h = cc
has_prefix_sound (a ∷ p) (b ∷ s) h = elim (Bool-cases (a == b)) [
  | inl e ↦
      let (rest, q) = has_prefix_sound p s (ground arith) in
      (rest, ap₂ ◌∷◌ (sym ((==_iff a b).0 e)) q)
  | inr n ↦ absurd (ground arith)
]

pub has_prefix-append : (p rest : Text) → has_prefix p (p ++ rest) ≡ true
unfolding has_prefix
has_prefix-append [] rest = refl
has_prefix-append (a ∷ p) rest = ground (arith, has_prefix-append p rest)

pub cut_suffix_sound : (suffix s p : Text) → cut_suffix suffix s ≡ some p → s ≡ p ++ suffix
unfolding cut_suffix
cut_suffix_sound suffix [] p h = ground (arith, text_eq_iff [] suffix)
cut_suffix_sound suffix (c ∷ s) p h = elim (Option-cases (cut_suffix suffix s)) [
  | inl e ↦ ground (arith, text_eq_iff (c ∷ s) suffix)
  | inr (q, e) ↦ ground (arith, text_eq_iff (c ∷ s) suffix, cut_suffix_sound suffix s q e)
]

longer : (p s : Text) (c : ℕ) → text_eq ((c ∷ p) ++ s) s ≡ false
longer p s c = elim (Bool-cases (text_eq ((c ∷ p) ++ s) s)) [
  | inl y ↦
      absurd (omega (arith, ap length ((text_eq_iff ((c ∷ p) ++ s) s).0 y), length-append p s))
  | inr n ↦ n
]

pub cut_suffix-append : (suffix p : Text) → cut_suffix suffix (p ++ suffix) ≡ some p
unfolding cut_suffix text_eq
cut_suffix-append [] [] = refl
cut_suffix-append (c ∷ s) [] = rw (text_eq_refl (c ∷ s))
cut_suffix-append suffix (c ∷ p) = rw (longer p suffix c, cut_suffix-append suffix p)
