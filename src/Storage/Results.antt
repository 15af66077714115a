-- ===== src/Storage/Results.antt =====
-- What a storage call returns: a value, or the error that stopped it.
use oida.Prelude.{◌≡◌, refl, ◌⊎◌, inl, inr, Option, none, some}
use oida.Model.Data.{GoError}

pub data Failure : Type 0 where
  -- The context was done before the call.
  cancelled : GoError → Failure
  -- ErrTraceNotFound
  not_found : Failure
  invalid_id : Failure
  -- An error of the file system or of the codec.
  io : GoError → Failure

pub data Result {ℓ} (A : Type ℓ) : Type ℓ where
  ok : A → Result A
  fail : Failure → Result A

infixl 5 ◌>>=◌
abbrev pub ◌>>=◌ {ℓ κ} : {A : Type ℓ} {B : Type κ} → Result A → (A → Result B) → Result B
ok a >>= f = f a
fail e >>= f = fail e

-- `ctx.Err()`, where `none` is a context that is not done.
abbrev pub check : Option GoError → Result (Unit {0})
check none = ok tt
check (some e) = fail (cancelled e)

infixl 5 ◌>>◌
abbrev pub ◌>>◌ {ℓ} : {B : Type ℓ} → Result (Unit {0}) → Result B → Result B
m >> k = m >>= λ _. k

-- To split on a computed result and keep the equation.
pub Result-cases {ℓ} :
    {A : Type ℓ} (r : Result A) → ((a : A) × (r ≡ ok a)) ⊎ ((e : Failure) × (r ≡ fail e))
Result-cases (ok a) = inl (a, refl)
Result-cases (fail e) = inr (e, refl)
