-- ===== src/Model/Ids.antt =====
-- Identifiers, model/id.go: 26 characters of Crockford's base 32 over 48 bits of time in
-- milliseconds and 80 random bits.
use oida.Model.Data.{GoError}
use oida.Prelude.{
  ltb, ◌==◌, if◌then◌else◌, ==_iff, length, get_or, Text, bytes, ℕ, zero, suc, ◌+◌, ◌-◌, ◌*◌, ◌/◌,
  ◌%◌, ◌^◌, ◌<◌, ◌≡◌, refl, subst, ◌⊎◌, inl, inr, Bool, true, false, ◌&&◌, ◌||◌, List, [], ◌∷◌,
  arith,
}

abbrev crockford : Text
crockford = bytes "0123456789ABCDEFGHJKMNPQRSTVWXYZ"

abbrev pub id_length : ℕ
id_length = 26

-- `ms` is the Unix time in milliseconds letters a 64-bit word; `random` is what rand.Read fills in.
pub id_bytes : ℕ → List ℕ → List ℕ
id_bytes ms random =
    (ms / 2 ^ 40) % 256
    ∷ (ms / 2 ^ 32) % 256
    ∷ (ms / 2 ^ 24) % 256
    ∷ (ms / 2 ^ 16) % 256
    ∷ (ms / 2 ^ 8) % 256
    ∷ ms % 256
    ∷ random

-- The bit at `i*5+bit` of the stream, which has two zero bits before the data.
stream_bit : List ℕ → ℕ → ℕ
stream_bit stream p =
    if ltb p 2
    then 0
    else if ltb (p - 2) 128
    then (get_or stream ((p - 2) / 8) 0 / 2 ^ (7 - (p - 2) % 8)) % 2
    else 0

-- `value` after the bits from `p` on, `n` of them: shifted left letters a byte and or-ed with a bit.
shifted : List ℕ → ℕ → ℕ → ℕ → ℕ
unfolding stream_bit
shifted stream value p zero = value
shifted stream value p (suc n) = shifted stream ((value * 2) % 256 + stream_bit stream p) (suc p) n

-- The characters from the i-th on, `n` of them.
pub characters : List ℕ → ℕ → ℕ → Text
unfolding shifted
characters stream i zero = []
characters stream i (suc n) =
    get_or crockford (shifted stream 0 (i * 5) 5) 0 ∷ characters stream (suc i) n

pub new_id : ℕ → GoError ⊎ List ℕ → GoError ⊎ Text
unfolding id_bytes characters
new_id ms (inl e) = inl e
new_id ms (inr random) = inr (characters (id_bytes ms random) 0 id_length)

is_letter : ℕ → Text → Bool
is_letter c [] = false
is_letter c (a ∷ letters) = c == a || is_letter c letters

all_letters : Text → Bool
unfolding is_letter
all_letters [] = true
all_letters (c ∷ cs) = is_letter c crockford && all_letters cs

unfoldable pub valid_id : Text → Bool
unfolding all_letters
valid_id id = (length id == id_length) && all_letters id

stream_bit-lt : (stream : List ℕ) (p : ℕ) → stream_bit stream p < 2
unfolding stream_bit
stream_bit-lt stream p = ground arith

-- n bits make a number below 2 ^ n.
shifted-lt : (stream : List ℕ) (p : ℕ) → shifted stream 0 p 5 < 32
unfolding shifted
shifted-lt stream p = omega (
  arith,
  stream_bit-lt stream p,
  stream_bit-lt stream (suc p),
  stream_bit-lt stream (suc (suc p)),
  stream_bit-lt stream (suc (suc (suc p))),
  stream_bit-lt stream (suc (suc (suc (suc p)))),
)

is_letter-get_or :
    (i : ℕ) (letters : Text) → i < length letters → is_letter (get_or letters i 0) letters ≡ true
unfolding is_letter
is_letter-get_or i [] h = ground arith
is_letter-get_or zero (a ∷ letters) h = ground (arith, ==_iff a a)
is_letter-get_or (suc i) (a ∷ letters) h = ground (arith, is_letter-get_or i letters (omega arith))

characters-letters : (stream : List ℕ) (i n : ℕ) → all_letters (characters stream i n) ≡ true
unfolding characters all_letters
characters-letters stream i zero = refl
characters-letters stream i (suc n) = ground (
  arith,
  is_letter-get_or (shifted stream 0 (i * 5) 5) crockford (shifted-lt stream (i * 5)),
  characters-letters stream (suc i) n,
)

length-characters : (stream : List ℕ) (i n : ℕ) → length (characters stream i n) ≡ n
unfolding characters
length-characters stream i zero = refl
length-characters stream i (suc n) = omega (arith, length-characters stream (suc i) n)

-- Every identifier that NewID makes passes ValidID, whatever the time and the random bytes.
new_id-valid_id :
    (ms : ℕ) (random : List ℕ) (id : Text) → new_id ms (inr random) ≡ inr id → valid_id id ≡ true
unfolding new_id valid_id
new_id-valid_id ms random id e =
    let body = characters (id_bytes ms random) 0 id_length in
    let same : body ≡ id = cc e in
    subst (λ y. (length y == id_length) && all_letters y ≡ true) same
      (ground (
        arith,
        characters-letters (id_bytes ms random) 0 id_length,
        length-characters (id_bytes ms random) 0 id_length,
      ))
