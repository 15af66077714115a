-- ===== src/Model/Attributes.antt =====
-- Attributes that hold numbers, model/attributes.go.
use oida.Prelude.{
  ltb, if◌then◌else◌, if-split, ℤ, pos, negsuc, pos_part, neg_part, Text, bytes, text_eq, lookup, ℕ,
  ◌-◌, ◌^◌, ◌≤◌, ◌<◌, ◌≡◌, Bool, true, false, ◌||◌, Option, none, some, List, [], ◌∷◌, arith,
}
use oida.Model.Data.{Value, int, text, opaque, Attributes}
use oida.Model.Recording.{made}

-- What strconv and the floating-point operations do. `float_of` says which opaque values are
-- floats; the laws are that ParseInt answers a 64-bit integer, and that converting a float between
-- the bounds gives one.
pub record Reals : Type 1 where
  pub Float : Type 0
  pub float_of : ℕ → Option Float
  pub is_nan : Float → Bool
  pub at_least_max : Float → Bool
  pub at_most_min : Float → Bool
  pub to_int : Float → ℤ
  -- The value that ParseInt returns, with its error, and whether it has none.
  pub parse_int : Text → ℤ × Bool
  pub parse_int-bounded :
      (s : Text) → (pos_part (parse_int s).0 < 2 ^ 63) × (neg_part (parse_int s).0 ≤ 2 ^ 63)
  pub to_int-bounded :
      (f : Float)
      → is_nan f ≡ false
      → at_least_max f ≡ false
      → at_most_min f ≡ false
      → (pos_part (to_int f) < 2 ^ 63) × (neg_part (to_int f) ≤ 2 ^ 63)

abbrev byte_keys : List Text
byte_keys = bytes "memory_limit" ∷ bytes "memory_usage" ∷ []

abbrev has_key : Text → List Text → Bool
has_key key [] = false
has_key key (k ∷ ks) = text_eq k key || has_key key ks

unfoldable pub is_bytes : Text → Bool
unfolding text_eq
is_bytes key = has_key key byte_keys

abbrev pub max_int64 : ℤ
max_int64 = pos (2 ^ 63 - 1)

abbrev min_int64 : ℤ
min_int64 = negsuc (2 ^ 63 - 1)

clamp_uint : ℕ → ℤ
clamp_uint value = if ltb (2 ^ 63 - 1) value then max_int64 else pos value

module _ (r : Reals) where
  clamp_float : r.Float → ℤ
  clamp_float value =
      if r.is_nan value
      then pos 0
      else if r.at_least_max value
      then max_int64
      else if r.at_most_min value
      then min_int64
      else r.to_int value

  float_int64 : Option r.Float → ℤ × Bool
  unfolding clamp_float
  float_int64 none = (pos 0, false)
  float_int64 (some f) = (clamp_float f, true)

  -- The type switch. A negative integer is of a signed type, which 64 bits hold, and a missing key
  -- reads as a nil value.
  value_int64 : Option Value → ℤ × Bool
  unfolding clamp_uint float_int64
  value_int64 none = (pos 0, false)
  value_int64 (some (int (pos k))) = (clamp_uint k, true)
  value_int64 (some (int (negsuc k))) = (negsuc k, true)
  value_int64 (some (text s)) = r.parse_int s
  value_int64 (some (opaque tag)) = float_int64 (r.float_of tag)

  -- The number and whether there is one.
  unfoldable pub int64 : Text → Attributes → ℤ × Bool
  unfolding value_int64
  int64 key attributes = value_int64 (lookup key (made attributes))

  abbrev pub IsInt64 : ℤ → Type 0
  IsInt64 n = (pos_part n < 2 ^ 63) × (neg_part n ≤ 2 ^ 63)

  -- Integers of the program's types.
  abbrev pub IsInteger : Option Value → Type 0
  IsInteger none = Unit
  IsInteger (some (int n)) = (pos_part n < 2 ^ 64) × (neg_part n ≤ 2 ^ 63)
  IsInteger (some _) = Unit

  clamp_uint-IsInt64 : (n : ℕ) → IsInt64 (clamp_uint n)
  unfolding clamp_uint
  clamp_uint-IsInt64 n = ground arith

  clamp_float-IsInt64 : (f : r.Float) → IsInt64 (clamp_float f)
  unfolding clamp_float
  clamp_float-IsInt64 f =
      if-split IsInt64 (r.is_nan f) (λ _. (omega arith, omega arith))
        (λ a.
          if-split IsInt64 (r.at_least_max f) (λ _. (omega arith, omega arith))
            (λ b.
              if-split IsInt64 (r.at_most_min f) (λ _. (omega arith, omega arith))
                (λ c. r.to_int-bounded f a b c)))

  float-IsInt64 : (f : Option r.Float) → IsInt64 (float_int64 f).0
  unfolding float_int64
  float-IsInt64 none = (omega arith, omega arith)
  float-IsInt64 (some f) = clamp_float-IsInt64 f

  value-IsInt64 : (v : Option Value) → IsInteger v → IsInt64 (value_int64 v).0
  unfolding value_int64
  value-IsInt64 none h = (omega arith, omega arith)
  value-IsInt64 (some (int (pos k))) h = clamp_uint-IsInt64 k
  value-IsInt64 (some (int (negsuc k))) h = (omega arith, h.1)
  value-IsInt64 (some (text s)) h = r.parse_int-bounded s
  value-IsInt64 (some (opaque tag)) h = float-IsInt64 (r.float_of tag)

  -- What Int64 reads from an attribute fits in 64 bits with a sign, whatever the attribute holds,
  -- where an integer is one that a Go type of 64 bits can hold.
  pub int64-IsInt64 :
      (key : Text) (attributes : Attributes)
      → IsInteger (lookup key (made attributes))
      → IsInt64 (int64 key attributes).0
  unfolding int64
  int64-IsInt64 key attributes h = value-IsInt64 (lookup key (made attributes)) h
