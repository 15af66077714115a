-- ===== src/Tests/Settings.antt =====
-- Options with an environment of a few variables, and the address of a client.
use oida.Prelude.{
  ltb, ◌==◌, if◌then◌else◌, take, pos, Text, bytes, text_eq, has_prefix, cut_suffix, split,
  has_byte, ℕ, ◌-◌, ◌≡◌, refl, inr, true, false, none, some, [], ◌∷◌, ◌++◌, arith,
}
use oida.Model.Options.{Numerals, Options, new_options, with_defaults}
use oida.Internal.Environment.Applying.{Driver, Surroundings, options_from_env}
use oida.Internal.Environment.Precedence.{KeepsCode, options_from_env-KeepsCode}
use oida.Internal.RemoteAddress.{
  Parsing, remote_addr, parse_forwarded_addr, trusted_addr, forwarded_chain, own_addr,
}
use oida.Internal.RemoteAddress as Client
use oida.Internal.RemoteAddress.Hops.{remote_addr-appended}
use oida.Tests.Disk.{ready, decode}

pub never_below_itself : (n : ℕ) → ltb n n ≡ false
never_below_itself n = ground arith

-- Rates in whole percents, and numbers of one digit.
abbrev pub numerals : Numerals
numerals = record {
  Float = ℕ;
  zero_rate = 0;
  full_rate = 100;
  is_nan = λ r. false;
  lower_than = ltb;
  equals = ◌==◌;
  parse_float = λ s. elim s [ [] ↦ none | c ∷ t ↦ some (c - 48) ];
  parse_int = λ s. elim s [ [] ↦ none | c ∷ t ↦ some (pos (c - 48)) ];
  parse_bool = λ s. some (text_eq s (bytes "true"));
  parse_duration = λ s. elim s [ [] ↦ none | c ∷ t ↦ some (pos (c - 48)) ];
  is_cidr = λ s. true;
  trim = λ s. s;
  quote = λ s. s;
  trim-empty = refl;
  full-not_zero = refl;
  lower_than-irreflexive = never_below_itself;
  bounds-numbers = (refl, refl);
}

abbrev env : Text → Text
env name =
    if text_eq name (bytes "OIDA_RING_BUFFER_SIZE")
    then bytes "7"
    else if text_eq name (bytes "OIDA_PATH")
    then bytes "/traces"
    else if text_eq name (bytes "OIDA_TOP_REQUESTS")
    then bytes "9"
    else []

abbrev around : Surroundings
around = record {
  generate_hash = λ s. inr s;
  open_folder = λ path. inr [];
  os = ready;
  answers = λ i k. k;
  sorted = λ names. names;
  decode = decode;
  error_of = λ e. record { identity = 3; message = bytes "storage" };
}

-- The code sets the number of groups.
abbrev given : Options numerals Driver
given = record (new_options numerals Driver (bytes "shop")) { top_requests = pos 3 }

abbrev applied : Options numerals Driver
applied = record given { path = bytes "/traces"; ring_buffer_size = pos 7 }

applies_env : options_from_env numerals env around given ≡ inr applied
unfolding options_from_env text_eq split
applies_env = refl

options_from_env-KeepsCode_example : KeepsCode numerals env given applied
options_from_env-KeepsCode_example =
    options_from_env-KeepsCode numerals env around given applied applies_env

-- The path of a root mount is trimmed to nothing, which Validate refuses.
root_path : (with_defaults numerals Driver 1 (record given { path = bytes "/" })).path ≡ []
unfolding with_defaults text_eq cut_suffix
root_path = refl

-- Addresses are their texts; the local ones start with `1`.
abbrev parsing : Parsing
parsing = record {
  Address = Text;
  Network = Text;
  must_parse_prefix = λ s. s;
  contains = λ n a. has_prefix (take 1 n) a;
  parse_addr_port = λ s. none;
  parse_addr = λ s. some s;
  normal = λ a. a;
  is_unusual = λ a. false;
  print = λ a. a;
  trim = λ s. s;
  trim_quotes = λ s. s;
  equal_fold = text_eq;
}

abbrev forwarded : Client.Request
forwarded = record {
  forwarded = [];
  x_forwarded_for = bytes "9.9.9.9,8.8.8.8,10.0.0.1" ∷ [];
  remote = bytes "127.0.0.1:80";
}

takes_the_last_public : remote_addr parsing forwarded ≡ bytes "8.8.8.8"
unfolding remote_addr forwarded_chain text_eq split has_prefix
takes_the_last_public = refl

one_piece : has_byte b',' (bytes "8.8.8.8") ≡ false
unfolding has_byte
one_piece = refl

is_address : parse_forwarded_addr parsing (bytes "8.8.8.8") ≡ some (bytes "8.8.8.8")
unfolding parse_forwarded_addr text_eq
is_address = refl

is_public : trusted_addr parsing (bytes "8.8.8.8") ≡ false
unfolding trusted_addr has_prefix
is_public = refl

remote_addr-appended_example :
    remote_addr parsing (record {
      forwarded = [];
      x_forwarded_for = (bytes "9.9.9.9" ++ (b',' ∷ bytes "8.8.8.8")) ∷ [];
      remote = bytes "127.0.0.1:80";
    })
    ≡ bytes "8.8.8.8"
remote_addr-appended_example =
    remote_addr-appended parsing (bytes "9.9.9.9") (bytes "8.8.8.8") (bytes "8.8.8.8")
      (bytes "127.0.0.1:80") one_piece is_address is_public
