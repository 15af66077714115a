-- ===== src/Tests/Access.antt =====
-- A dashboard with one user, its sign in, and the session that follows.
use oida.Prelude.{
  ◌==◌, if◌then◌else◌, Bool-cases, length, ℤ, pos, negsuc, Text, bytes, text_eq, has_prefix, split,
  has_byte, contains_text, ℕ, ◌+◌, ◌-◌, ◌≡◌, refl, ap, ◌⊎◌, inl, inr, true, false, not, Option,
  none, some, [], ◌∷◌, ◌++◌, arith,
}
use oida.Model.Data.{GoError}
use oida.Model.Auth.{
  Codec, Auth, session_ttl, new_auth, session, verify, network_allowed, authenticate,
  login_required, request_user,
}
use oida.Model.Auth as Access
use oida.Model.Auth.Tokens.{verify-IsSigned, IsSigned}
use oida.Frontend.Requests.{Request, back_target, route_of, relative}
use oida.Frontend.Serving.{Response, redirect, shows_recorded, Handler, serve}
use oida.Frontend.Serving as Front
use oida.Model.Auth.Loading.{IsLost}
use oida.Frontend.Access.{serve-IsLost, serve-gate}
use oida.Frontend.Login.{IsUnder, serve-opens}
use oida.Frontend.Events.{read_event, write_sse, read_event-write_sse}

-- A codec with one number for each part of a token's claims.
abbrev without_dot : Text → Text
without_dot s = if has_byte b'.' s then [] else s

without_dot-plain : (s : Text) → has_byte b'.' (without_dot s) ≡ false
unfolding has_byte
without_dot-plain s = elim (Bool-cases (has_byte b'.' s)) [
  | inl y ↦ rw y refl
  | inr n ↦ rw (n, n) refl
]

abbrev shift : ℤ → Text
shift (pos n) = 100 ∷ (n + 100) ∷ []
shift (negsuc n) = 101 ∷ (n + 100) ∷ []

abbrev read_claims : Text → Option (Text × ℤ)
read_claims (a ∷ n ∷ sub) = some (sub, if a == 100 then pos (n - 100) else negsuc (n - 100))
read_claims _ = none

shift-plain :
    (exp : ℤ) (s : Text) → has_byte b'.' s ≡ false → has_byte b'.' (shift exp ++ s) ≡ false
unfolding has_byte
shift-plain (pos n) s h = ground arith
shift-plain (negsuc n) s h = ground arith

claims_back : (exp : ℤ) (s : Text) → read_claims (shift exp ++ s) ≡ some (s, exp)
claims_back (pos n) s = ap (λ m. some (s, pos m)) (omega arith)
claims_back (negsuc n) s = ap (λ m. some (s, negsuc m)) (omega arith)

without_dot-carried : (s : Text) → not (has_byte b'.' s) ≡ true → without_dot s ≡ s
without_dot-carried s c = elim (Bool-cases (has_byte b'.' s)) [
  | inl y ↦ ground arith
  | inr n ↦ rw n refl
]

without_dot-algorithm : without_dot (bytes "HS256") ≡ bytes "HS256"
unfolding has_byte
without_dot-algorithm = refl

number-plain : (n : ℕ) → has_byte b'.' ((n + 100) ∷ []) ≡ false
unfolding has_byte
number-plain n = ground arith

abbrev codec : Codec
codec = record {
  sign = λ secret s. (length secret + length s + 100) ∷ [];
  encode_header = without_dot;
  encode_claims = λ sub iat exp. shift exp ++ without_dot sub;
  decode_header = some;
  decode_claims = read_claims;
  compare_hash = text_eq;
  trim = λ s. s;
  Network = Text;
  Address = Text;
  parse_prefix = λ s. elim s [ [] ↦ none | c ∷ t ↦ if c == b'1' then some (c ∷ t) else none ];
  parse_peer = some;
  covers = has_prefix;
  is_carried = λ s. not (has_byte b'.' s);
  sign-plain = λ secret s. number-plain (length secret + length s);
  header-plain = without_dot-plain;
  claims-plain = λ sub iat exp. shift-plain exp (without_dot sub) (without_dot-plain sub);
  header-back = ap some without_dot-algorithm;
  claims-back = λ sub iat exp c. rw (without_dot-carried sub c) (claims_back exp sub);
}

abbrev invalid : GoError
invalid = record { identity = 1; message = bytes "invalid" }

abbrev options : Access.AuthOptions codec
options = record {
  allowed_networks = bytes "127." ∷ [];
  users = (bytes "ann", bytes "key") ∷ [];
  users_file = none;
  authorize_user = none;
  signing_secret = bytes "secret";
}

abbrev auth : Option (Auth codec)
auth = new_auth codec [] options

abbrev dashboard : Handler codec (λ s. s) (λ s. s) invalid (λ id. none) 1000
dashboard = record { base = bytes "/debug"; authorize = none; live_stream = true; auth = auth }

abbrev login : Request
login = record {
  path = bytes "/debug/login";
  request_uri = bytes "/debug/login";
  is_post = true;
  peer = bytes "127.0.0.1";
  cookie = none;
  authorization = [];
  accept = [];
  user_agent = [];
  query_format = [];
  query_back = [];
  form_username = bytes "ann";
  form_password = bytes "key";
  form_back = bytes "/debug/stats";
}

abbrev signed_token : Text
signed_token = elim (session codec 1000 auth (bytes "ann")) [ none ↦ [] | some t ↦ t ]

abbrev stats_request : Request
stats_request = record login {
  path = bytes "/debug/stats";
  is_post = false;
  cookie = some signed_token;
}

signed : session codec 1000 auth (bytes "ann") ≡ some signed_token
unfolding session new_auth
signed = refl

abbrev answer : Request → Response
answer = serve codec (λ s. s) (λ s. s) invalid (λ id. none) 1000 dashboard

lets_in : answer login ≡ redirect (bytes "/debug/stats") (some signed_token)
unfolding serve session new_auth has_prefix contains_text has_byte
lets_in = refl

shows_statistics : shows_recorded (answer stats_request) ≡ true
unfolding serve session new_auth has_byte split
shows_statistics = refl

verified : verify codec 2000 auth signed_token ≡ some (bytes "ann")
unfolding verify session new_auth has_byte split text_eq
verified = refl

-- The Auth that `auth` carries.
abbrev ann : Auth codec
ann = elim auth [
  | none ↦ record { networks = []; users = []; authorize = none; secret = []; preshared = false }
  | some a ↦ a
]

ann_carried : not (has_byte b'.' (bytes "ann")) ≡ true
unfolding has_byte
ann_carried = refl

verify-IsSigned_example : IsSigned codec ann.secret 2000 signed_token (bytes "ann")
unfolding new_auth
verify-IsSigned_example = verify-IsSigned codec ann 2000 signed_token (bytes "ann") verified

serve-gate_example :
    (Front.authorized codec (λ s. s) (λ s. s) invalid (λ id. none) 1000 dashboard stats_request
      ≡ true)
    × (network_allowed codec auth (bytes "127.0.0.1") ≡ true)
    × ((login_required codec auth ≡ false)
        ⊎ ((name : Text) × (request_user codec 1000 auth (some signed_token) [] ≡ some name)))
serve-gate_example =
    serve-gate codec (λ s. s) (λ s. s) invalid (λ id. none) 1000 dashboard stats_request
      shows_statistics

serve-opens_example :
    IsUnder (bytes "/debug") (bytes "/debug/stats")
    × (authenticate codec invalid auth (bytes "ann") (bytes "key") ≡ none)
    × (request_user codec 2000 auth (some signed_token) [] ≡ some (bytes "ann"))
serve-opens_example =
    serve-opens codec (λ s. s) (λ s. s) invalid (λ id. none) 1000 dashboard login
      (bytes "/debug/stats") signed_token [] 2000 ann_carried lets_in (omega arith)

payload_plain : has_byte b'\r' (bytes "a\nb\n") ≡ false
unfolding has_byte
payload_plain = refl

read_event-write_sse_example : read_event (write_sse (bytes "a\nb\n")) ≡ some (bytes "a\nb\n")
read_event-write_sse_example = read_event-write_sse (bytes "a\nb\n") payload_plain

-- A dot segment leads from below the dashboard to elsewhere on the site.
leaves_by_dots : back_target (bytes "/debug") (bytes "/debug/../admin") ≡ bytes "/debug/../admin"
unfolding back_target has_prefix contains_text
leaves_by_dots = refl

-- A carriage return ends a line for the reader, and what follows it is lost.
carriage_return : read_event (write_sse (bytes "a\rb")) ≡ some (bytes "a")
unfolding read_event write_sse
carriage_return = refl

-- A mistyped network, and a users file that cannot be read.
abbrev lost : Access.AuthOptions codec
lost = record {
  allowed_networks = bytes "l27." ∷ [];
  users = [];
  users_file = some (inl invalid);
  authorize_user = none;
  signing_secret = [];
}

lost-IsLost : IsLost codec lost
unfolding Access.parse_networks Access.load_users
lost-IsLost = record {
  networks = refl;
  loaded = refl;
  users = refl;
  authorize = refl;
  secret = refl;
}

abbrev open_dashboard : Handler codec (λ s. s) (λ s. s) invalid (λ id. none) 1000
open_dashboard = record dashboard { auth = new_auth codec (bytes "random") lost }

serve-IsLost_example :
    serve codec (λ s. s) (λ s. s) invalid (λ id. none) 1000 open_dashboard stats_request
    ≡ Front.serve_route codec
        (λ s. s)
        (λ s. s)
        invalid
        (λ id. none)
        1000
        open_dashboard
        stats_request
        (route_of (relative (bytes "/debug") stats_request))
serve-IsLost_example =
    serve-IsLost codec (λ s. s) (λ s. s) invalid (λ id. none) 1000 open_dashboard stats_request
      (bytes "random") lost lost-IsLost refl refl
