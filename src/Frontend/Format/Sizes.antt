-- ===== src/Frontend/Format/Sizes.antt =====
-- The sizes that bytesText of frontend/view/funcs.go writes.
use oida.Prelude.{
  ltb, leb, ltb→lt, Bool-cases, if-split, length, ℤ, pos, negsuc, Text, bytes, lookup, ℕ, zero, suc,
  ◌+◌, ◌*◌, ◌/◌, ◌^◌, ◌≤◌, ◌<◌, ◌≡◌, refl, ◌⊎◌, inl, inr, ◌&&◌, Option, some, [], ◌∷◌, ◌++◌, arith,
}
use oida.Model.Data.{Value, Attributes}
use oida.Model.Recording.{made}
use oida.Model.Attributes.{Reals, is_bytes, int64, IsInt64, IsInteger, int64-IsInt64}
use oida.Frontend.Format.{
  Figures, unit_size, scale, prefixes, bytes_text, signed_bytes_text, letter, attribute_value,
}

-- A divisor that leaves at least one and less than a thousand and twenty-four units, and has a
-- prefix.
pub record IsScaled (n : ℕ) (div exp : ℕ) : Type 0 where
  pub at_least_one : div ≤ n
  pub below_next : n < div * unit_size
  pub power : div ≡ unit_size ^ (exp + 1)
  pub prefixed : exp < length prefixes

module _ (n : ℕ) (fits : n < 2 ^ 64) where
  abbrev Scaled : Option (ℕ × ℕ) → Type 0
  Scaled r = (div : ℕ) × (exp : ℕ) × (r ≡ some (div, exp)) × IsScaled n div exp

  scaled :
      (div exp : ℕ)
      → div ≤ n
      → n < div * unit_size
      → div ≡ unit_size ^ (exp + 1)
      → exp < length prefixes
      → IsScaled n div exp
  scaled div exp l h e p = record { at_least_one = l; below_next = h; power = e; prefixed = p }

  scale-IsScaled : unit_size ≤ n → Scaled (scale 7 unit_size 0 (n / unit_size))
  unfolding scale
  scale-IsScaled h =
      if-split Scaled (leb 1024 (n / 1024))
        (λ up0.
          if-split Scaled (leb 1024 (n / 1024 / 1024))
            (λ up1.
              if-split Scaled (leb 1024 (n / 1024 / 1024 / 1024))
                (λ up2.
                  if-split Scaled (leb 1024 (n / 1024 / 1024 / 1024 / 1024))
                    (λ up3.
                      if-split Scaled (leb 1024 (n / 1024 / 1024 / 1024 / 1024 / 1024))
                        (λ up4.
                          if-split Scaled (leb 1024 (n / 1024 / 1024 / 1024 / 1024 / 1024 / 1024))
                            (λ up. absurd (ground arith))
                            (λ no. (
                              1024 ^ 6,
                              5,
                              refl,
                              scaled (1024 ^ 6) 5 (ground arith) (ground arith) refl (omega arith),
                            )))
                        (λ no. (
                          1024 ^ 5,
                          4,
                          refl,
                          scaled (1024 ^ 5) 4 (ground arith) (ground arith) refl (omega arith),
                        )))
                    (λ no. (
                      1024 ^ 4,
                      3,
                      refl,
                      scaled (1024 ^ 4) 3 (ground arith) (ground arith) refl (omega arith),
                    )))
                (λ no. (
                  1024 ^ 3,
                  2,
                  refl,
                  scaled (1024 ^ 3) 2 (ground arith) (ground arith) refl (omega arith),
                )))
            (λ no. (
              1024 ^ 2,
              1,
              refl,
              scaled (1024 ^ 2) 1 (ground arith) (ground arith) refl (omega arith),
            )))
        (λ no.
          (1024 ^ 1, 0, refl, scaled (1024 ^ 1) 0 (ground arith) (ground arith) refl (omega arith)))

  letter_there : (exp : ℕ) (cs : Text) → exp < length cs → (c : ℕ) × (letter exp cs ≡ some c)
  letter_there exp [] h = absurd (omega arith)
  letter_there zero (c ∷ cs) h = (c, refl)
  letter_there (suc i) (c ∷ cs) h = letter_there i cs (omega arith)

  -- A size of 64 bits below 1024 is written as it is; any other is written in units of a power of
  -- 1024 of which it has at least one and fewer than 1024, with that power's letter, so that the
  -- loop ends and the letters are never indexed out of range.
  pub bytes_text-IsScaled :
      (f : Figures)
      → (n < unit_size × (bytes_text f n ≡ some (f.itoa (pos n) ++ bytes " B")))
        ⊎ ((div : ℕ) × (exp : ℕ) × (c : ℕ) × IsScaled n div exp
            × (letter exp prefixes ≡ some c)
            × (bytes_text f n ≡ some (f.tenths n div ++ bytes " " ++ (c ∷ bytes "iB"))))
  unfolding bytes_text
  bytes_text-IsScaled f = elim (Bool-cases (ltb n unit_size)) [
    | inl y ↦ inl (ltb→lt n unit_size y, rw y refl)
    | inr k ↦
        let (div, exp, e, s) = scale-IsScaled (ground arith) in
        let (c, l) = letter_there exp prefixes s.prefixed in
        inr (div, exp, c, s, l, rw (k, e, l) refl)
  ]

-- A size always has a text.
bytes_text-total : (f : Figures) (n : ℕ) → n < 2 ^ 64 → (s : Text) × (bytes_text f n ≡ some s)
bytes_text-total f n h = elim (bytes_text-IsScaled n h f) [
  | inl (small, e) ↦ (f.itoa (pos n) ++ bytes " B", e)
  | inr (div, exp, c, s, l, e) ↦ (f.tenths n div ++ bytes " " ++ (c ∷ bytes "iB"), e)
]

signed_bytes_text-total :
    (f : Figures) (r : Reals) (n : ℤ) → IsInt64 r n → (s : Text) × (signed_bytes_text f n ≡ some s)
unfolding signed_bytes_text
signed_bytes_text-total f r (pos n) (l, h) = bytes_text-total f n (omega arith)
signed_bytes_text-total f r (negsuc n) (l, h) =
    let (s, e) = bytes_text-total f (suc n) (omega arith) in
    (bytes "-" ++ s, rw (signed_bytes_text, e) refl)

-- The text of an attribute is always there, where an integer is one that a Go type can hold.
attribute_value-total :
    (f : Figures) (r : Reals) (show : Value → Text) (nil_text : Text) (attributes : Attributes)
    (key : Text)
    → IsInteger r (lookup key (made attributes))
    → (s : Text) × (attribute_value f r show nil_text attributes key ≡ some s)
unfolding attribute_value
attribute_value-total f r show nil_text attributes key h =
    if-split (λ (o : Option Text). (s : Text) × (o ≡ some s))
      (is_bytes key && (int64 r key attributes).1)
      (λ _.
        signed_bytes_text-total f r (int64 r key attributes).0 (int64-IsInt64 r key attributes h))
      (λ _. (_, refl))
