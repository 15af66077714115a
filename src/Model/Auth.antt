-- ===== src/Model/Auth.antt =====
-- Authentication of the front end, model/auth.go. Networks are what netip parses, behind the
-- interface Codec with the other libraries that the source calls. A token that does not verify and
-- a user that a request does not carry are `none`.
pub mod Tokens
pub mod Loading
use oida.Prelude.{
  ltb, leb, ◌==◌, if◌then◌else◌, ltb→lt, lt→ltb, ==_iff, Bool-cases, Option-cases, if-split,
  sum_cases, length, get_or, set, take, drop, replicate, keep, All, length-append, length-set,
  length-replicate, length-take, get_or-set_self, get_or-set_ne, take-take, take_all,
  length-keep-le, get_or-append_lt, get_or-append_end, All-append, All-reverse, All-take,
  take-append_left, length-reverse, length-map, ℤ, pos, negsuc, pos_part, neg_part, sub_ℕ, ◌+ℤ◌,
  ◌≤ℤ◌, ◌<ℤ◌, ltb_ℤ, leb_ℤ, sub_ℕ_parts, +ℤ_parts, eq_of_parts, int_laws, Text, bytes, text_eq,
  text_eq_refl, text_eq_sound, text_eq_iff, has_prefix, cut_suffix, has_prefix_sound,
  has_prefix-append, cut_suffix_sound, cut_suffix-append, Map, lookup, insert, delete,
  lookup-insert, lookup-delete, lead, split, join, has_byte, cut, contains_text, split-piece,
  split_one, join-lead, join-split, contains_text_sound, contains_text-append, ℕ, zero, suc, ◌+◌,
  ◌-◌, ◌*◌, ◌/◌, ◌%◌, ◌^◌, ◌≤◌, ◌<◌, min, fun_ext, ◌≡◌, refl, sym, ap, ap₂, ◌∙◌, subst, ◌≢◌, ◌↔◌,
  ◌⊎◌, inl, inr, Bool, true, false, not, ◌&&◌, ◌||◌, Option, none, some, List, [], ◌∷◌, ◌++◌, map,
  reverse, arith,
}
use oida.Model.Data.{GoError}

-- What the source relies on: HMAC-SHA256 and base64url, the JSON of a token's segments (a header by
-- its algorithm, claims by subject, issue and expiry), bcrypt and netip. `is_carried` says which
-- texts JSON carries unchanged.
pub record Codec : Type 1 where
  pub sign : Text → Text → Text
  pub encode_header : Text → Text
  pub encode_claims : Text → ℤ → ℤ → Text
  pub decode_header : Text → Option Text
  pub decode_claims : Text → Option (Text × ℤ)
  pub compare_hash : Text → Text → Bool
  pub trim : Text → Text
  pub Network : Type 0
  pub Address : Type 0
  pub parse_prefix : Text → Option Network
  pub parse_peer : Text → Option Address
  pub covers : Network → Address → Bool
  pub is_carried : Text → Bool
  -- base64url has no dot, and decoding undoes encoding.
  pub sign-plain : (secret s : Text) → has_byte b'.' (sign secret s) ≡ false
  pub header-plain : (alg : Text) → has_byte b'.' (encode_header alg) ≡ false
  pub claims-plain : (sub : Text) (iat exp : ℤ) → has_byte b'.' (encode_claims sub iat exp) ≡ false
  pub header-back : decode_header (encode_header (bytes "HS256")) ≡ some (bytes "HS256")
  pub claims-back :
      (sub : Text) (iat exp : ℤ)
      → is_carried sub ≡ true
      → decode_claims (encode_claims sub iat exp) ≡ some (sub, exp)

abbrev pub session_ttl : ℕ
session_ttl = 12 * 3600

abbrev pub algorithm : Text
algorithm = bytes "HS256"

module _ (k : Codec) where
  pub record AuthOptions : Type 0 where
    pub allowed_networks : List Text
    pub users : Map Text
    -- What reading Options.UsersFile gave, if it is set.
    pub users_file : Option (GoError ⊎ Text)
    pub authorize_user : Option (Text → Text → Option GoError)
    pub signing_secret : Text

  pub record Auth : Type 0 where
    pub networks : List k.Network
    pub users : Map Text
    pub authorize : Option (Text → Text → Option GoError)
    pub secret : Text
    pub preshared : Bool

  -- Entries that do not parse are dropped.
  unfoldable pub parse_networks : List Text → List k.Network
  parse_networks [] = []
  parse_networks (n ∷ ns) =
      let rest = parse_networks ns in
      elim (k.parse_prefix (k.trim n)) [ none ↦ rest | some p ↦ p ∷ rest ]

  load_line : Text → Map Text → Map Text
  unfolding has_prefix cut insert
  load_line line users =
      if text_eq line [] || has_prefix (bytes "#") line then users else elim (cut b':' line) [
        | none ↦ users
        | some (name, hash) ↦ if text_eq name [] then users else insert name hash users
      ]

  load_lines : List Text → Map Text → Map Text
  unfolding load_line
  load_lines [] users = users
  load_lines (l ∷ ls) users = load_lines ls (load_line (k.trim l) users)

  unfoldable pub load_users : Option (GoError ⊎ Text) → Map Text
  unfolding load_lines split
  load_users none = []
  load_users (some (inl e)) = []
  load_users (some (inr file)) = load_lines (split b'\n' file) []

  copy_users : Map Text → Map Text → Map Text
  unfolding insert
  copy_users dst [] = dst
  copy_users dst ((name, hash) ∷ src) = copy_users (insert name hash dst) src

  is_unset : AuthOptions → Bool
  is_unset o =
      (length o.allowed_networks == 0)
      && (length o.users == 0)
      && elim o.users_file [ none ↦ true | some f ↦ false ]
      && elim o.authorize_user [ none ↦ true | some f ↦ false ]
      && text_eq o.signing_secret []

  -- `generated` is what rand.Read filled in; nil is `none`.
  unfoldable pub new_auth : Text → AuthOptions → Option Auth
  unfolding is_unset parse_networks load_users copy_users
  new_auth generated o =
      if is_unset o
      then none
      else some (record {
        networks = parse_networks o.allowed_networks;
        users = copy_users (load_users o.users_file) o.users;
        authorize = o.authorize_user;
        secret = if text_eq o.signing_secret [] then generated else o.signing_secret;
        preshared = not (text_eq o.signing_secret []);
      })

  unfoldable pub login_required : Option Auth → Bool
  login_required none = false
  login_required (some a) =
      ltb 0 (length a.users) || elim a.authorize [ none ↦ false | some f ↦ true ] || a.preshared

  any_covers : List k.Network → k.Address → Bool
  any_covers [] x = false
  any_covers (n ∷ ns) x = k.covers n x || any_covers ns x

  unfoldable pub network_allowed : Option Auth → Text → Bool
  unfolding any_covers
  network_allowed none peer = true
  network_allowed (some a) peer =
      if length a.networks == 0
      then true
      else elim (k.parse_peer peer) [ none ↦ false | some x ↦ any_covers a.networks x ]

  -- `none` is a login that is accepted.
  unfoldable pub authenticate : GoError → Option Auth → Text → Text → Option GoError
  unfolding lookup
  authenticate invalid none name password = some invalid
  authenticate invalid (some a) name password =
      let asked : Option GoError = elim a.authorize [
        | none ↦ some invalid
        | some f ↦ f name password
      ] in
      let known : Bool = elim (lookup name a.users) [
        | none ↦ false
        | some hash ↦ k.compare_hash hash password
      ] in
      if known then none else asked

  -- The time is in seconds.
  unfoldable pub session : ℕ → Option Auth → Text → Option Text
  session now none name = none
  session now (some a) name =
      let claims = k.encode_claims name (pos now) (pos (now + session_ttl)) in
      let signed = k.encode_header algorithm ++ (b'.' ∷ claims) in
      some (signed ++ (b'.' ∷ k.sign a.secret signed))

  -- `claims.Exp != 0 && a.now().Unix() >= claims.Exp`
  pub is_expired : ℕ → ℤ → Bool
  is_expired now exp = not (pos_part exp == 0 && neg_part exp == 0) && leb_ℤ exp (pos now)

  pub verify_parts : ℕ → Auth → List Text → Option Text
  unfolding is_expired
  verify_parts now a (header ∷ claims ∷ mac ∷ []) =
      let alg : Bool = elim (k.decode_header header) [
        | none ↦ false
        | some alg ↦ text_eq alg algorithm
      ] in
      if not (text_eq (k.sign a.secret (header ++ (b'.' ∷ claims))) mac)
      then none
      else if not alg
      then none
      else elim (k.decode_claims claims) [
        | none ↦ none
        | some (sub, exp) ↦ if is_expired now exp then none else some sub
      ]
  verify_parts now a _ = none

  unfoldable pub verify : ℕ → Option Auth → Text → Option Text
  unfolding verify_parts split
  verify now none token = none
  verify now (some a) token = verify_parts now a (split b'.' token)

  -- The session cookie and the Authorization header of a request.
  unfoldable pub request_user : ℕ → Option Auth → Option Text → Text → Option Text
  unfolding verify
  request_user now none cookie authorization = none
  request_user now (some a) cookie authorization =
      let bearer : Option Text =
        if has_prefix (bytes "Bearer ") authorization
        then verify now (some a) (k.trim (drop 7 authorization))
        else none in
      elim cookie [
        | none ↦ bearer
        | some token ↦ elim (verify now (some a) token) [ some name ↦ some name | none ↦ bearer ]
      ]
