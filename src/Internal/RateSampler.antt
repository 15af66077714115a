-- ===== src/Internal/RateSampler.antt =====
-- The deterministic sampler, internal/rate_sampler.go. The counter is a 64-bit word.
use native.Mathlib.Nat.{
  div-add-mod, mod-lt, mod-eq_of_lt, div-eq_of_lt, mod-add-mod, mod_self, div_self, mul-add-div,
  add-zero,
}
use native.Mathlib.Decide.{dec_lt, ℕ_discrete}
use oida.Prelude.{
  ltb, ◌==◌, if◌then◌else◌, ℕ, zero, suc, ◌+◌, ◌/◌, ◌%◌, ◌^◌, ◌<◌, ◌≡◌, sym, ap, ◌∙◌, Bool, true,
  false, arith,
}

pub record RateSampler : Type 0 where
  pub every : ℕ
  pub counter : ℕ

-- The rate is a float: `at_least_100` and `at_most_0` are its comparisons, and `rounded` is
-- `uint64(100/rate + 0.5)`.
unfoldable pub new_rate_sampler : Bool → Bool → ℕ → RateSampler
new_rate_sampler at_least_100 at_most_0 rounded =
    let every = if ltb rounded 1 then 1 else rounded in
    if at_least_100
    then record { every = 1; counter = 0 }
    else if at_most_0
    then record { every = 0; counter = 0 }
    else record { every = every; counter = 0 }

unfoldable pub sample : RateSampler → Bool × RateSampler
sample s =
    let counter = (s.counter + 1) % 2 ^ 64 in
    if s.every == 0
    then (false, s)
    else if s.every == 1
    then (true, s)
    else (counter % s.every == 0, record s { counter = counter })

-- How many of the next `n` requests are sampled.
pub sampled : ℕ → RateSampler → ℕ
sampled zero s = 0
sampled (suc n) s = let (yes_it_is, s') = sample s in (if yes_it_is then 1 else 0) + sampled n s'

-- One more divides once more exactly when it is a multiple.
div-step : (x e : ℕ) → 0 < e → (x + 1) / e ≡ x / e + (if (x + 1) % e == 0 then 1 else 0)
div-step x e h = elim (dec_lt (x % e + 1) e) [
  | yes p ↦
      let tail : (x % e + 1) / e ≡ 0 = div-eq_of_lt p in
      let rest : (x % e + 1) % e ≡ x % e + 1 = mod-eq_of_lt p in
      ground (arith, split, tail, rest, mod-add-mod x e 1)
  | no p ↦
      let l = mod-lt x h in
      let e' : x % e + 1 ≡ e = omega (arith, l) in
      let tail : (x % e + 1) / e ≡ 1 = rw e' (div_self h) in
      let rest : (x % e + 1) % e ≡ 0 = rw e' (mod_self e) in
      ground (arith, split, tail, rest, mod-add-mod x e 1)
]
  where
    split : (x + 1) / e ≡ x / e + (x % e + 1) / e
    split = ap (λ y. y / e) (omega (arith, div-add-mod x e)) ∙ mul-add-div h (x / e) (x % e + 1)

-- Short of a wrap of the counter, a sampler with a period samples one request in every period: of
-- `n` requests after the counter's reading, as many as multiples of the period are passed.
pub sampled-count :
    (n : ℕ) (s : RateSampler)
    → 0 < s.every
    → s.counter + n < 2 ^ 64
    → sampled n s + s.counter / s.every ≡ (s.counter + n) / s.every
unfolding sampled sample
sampled-count zero s h b = omega (arith, ap (λ x. x / s.every) (sym (add-zero s.counter)))
sampled-count (suc n) s h b = elim (ℕ_discrete s.every 1) [
  | yes one ↦
      let shift : s.counter + suc n ≡ (s.counter + n) + 1 = omega arith in
      let whole : ((s.counter + n) + 1) % s.every ≡ 0 = omega arith in
      ground (
        arith,
        ap (λ x. x / s.every) shift,
        whole,
        div-step (s.counter + n) s.every h,
        sampled-count n s h (omega arith),
      )
  | no more ↦
      let shift : s.counter + suc n ≡ (s.counter + 1) + n = omega arith in
      let fits : (s.counter + 1) % 2 ^ 64 ≡ s.counter + 1 = mod-eq_of_lt (omega arith) in
      ground (
        arith,
        ap (λ x. x / s.every) shift,
        fits,
        div-step s.counter s.every h,
        sampled-count n (record s { counter = s.counter + 1 }) h (omega arith),
      )
]
