-- ===== src/Model/Auth/Tokens.antt =====
-- Session tokens: what Verify accepts.
use oida.Prelude.{
  ltb, ◌==◌, if◌then◌else◌, ==_iff, Bool-cases, Option-cases, ℤ, pos, negsuc, ◌<ℤ◌, Text, text_eq,
  text_eq_refl, text_eq_sound, split, join, has_byte, split-piece, split_one, join-split, ℕ, ◌+◌,
  ◌<◌, ◌≡◌, refl, sym, ap, ◌∙◌, subst, ◌⊎◌, inl, inr, Bool, true, false, not, Option, none, some,
  List, [], ◌∷◌, ◌++◌, arith,
}
use oida.Model.Auth.{Codec, session_ttl, algorithm, Auth, is_expired, verify_parts, verify, session}
use mathlib.Core.List.{append_assoc}
use mathlib.Core.Option.{some-injective}

module _ (k : Codec) where
  split_token :
      (h c m : Text)
      → has_byte b'.' h ≡ false
      → has_byte b'.' c ≡ false
      → has_byte b'.' m ≡ false
      → split b'.' ((h ++ (b'.' ∷ c)) ++ (b'.' ∷ m)) ≡ h ∷ c ∷ m ∷ []
  split_token h c m p q r =
      subst (λ t. split b'.' t ≡ h ∷ c ∷ m ∷ []) (sym (append_assoc h (b'.' ∷ c) (b'.' ∷ m)))
        (split-piece b'.' h (c ++ (b'.' ∷ m)) p
          ∙ ap (h ∷◌) (split-piece b'.' c m q ∙ ap (c ∷◌) (split_one b'.' m r)))

  not_swap : (b : Bool) (o : Option Text) → (if not b then none else o) ≡ (if b then o else none)
  not_swap true o = refl
  not_swap false o = refl

  is_expired_later : (later exp : ℕ) → 0 < exp → is_expired k later (pos exp) ≡ not (ltb later exp)
  unfolding is_expired
  is_expired_later later exp p = ground arith

  -- A token that Session made for a name that JSON carries unchanged verifies as that name until the
  -- session's lifetime has passed, and not after.
  pub verify-session :
      (a : Auth k) (now later : ℕ) (name token : Text)
      → k.is_carried name ≡ true
      → session k now (some a) name ≡ some token
      → verify k later (some a) token ≡ (if ltb later (now + session_ttl) then some name else none)
  unfolding session verify text_eq
  verify-session a now later name token carried e =
      let h = k.encode_header algorithm in
      let c = k.encode_claims name (pos now) (pos (now + session_ttl)) in
      let s = h ++ (b'.' ∷ c) in
      let written : token ≡ s ++ (b'.' ∷ k.sign a.secret s) = some-injective _ _ (sym e) in
      rw written (
        rw
          (split_token h c (k.sign a.secret s) (k.header-plain algorithm)
            (k.claims-plain name (pos now) (pos (now + session_ttl))) (k.sign-plain a.secret s))
          (rw
            (
              text_eq_refl (k.sign a.secret s),
              k.header-back,
              k.claims-back name (pos now) (pos (now + session_ttl)) carried,
              is_expired_later later (now + session_ttl) (omega arith),
            )
            (not_swap (ltb later (now + session_ttl)) (some name))))

  -- A token as Session writes it, still valid at `now`.
  pub record IsSigned (secret : Text) (now : ℕ) (token name : Text) : Type 0 where
    pub header : Text
    pub claims : Text
    pub exp : ℤ
    pub layout :
        token ≡ header ++ (b'.' ∷ (claims ++ (b'.' ∷ k.sign secret (header ++ (b'.' ∷ claims)))))
    pub algorithm_named : k.decode_header header ≡ some algorithm
    pub claimed : k.decode_claims claims ≡ some (name, exp)
    pub current : (exp ≡ pos 0) ⊎ (pos now <ℤ exp)

  is_expired-false :
      (now : ℕ) (exp : ℤ) → is_expired k now exp ≡ false → (exp ≡ pos 0) ⊎ (pos now <ℤ exp)
  unfolding is_expired
  is_expired-false now (pos n) e = elim (Bool-cases (n == 0)) [
    | inl z ↦ inl (ap pos ((==_iff n 0).0 z))
    | inr z ↦ inr (ground arith)
  ]
  is_expired-false now (negsuc n) e = ground arith

  verify_parts_three :
      (a : Auth k) (now : ℕ) (h c m name : Text)
      → verify_parts k now a (h ∷ c ∷ m ∷ []) ≡ some name
      → (text_eq (k.sign a.secret (h ++ (b'.' ∷ c))) m ≡ true)
        × (k.decode_header h ≡ some algorithm)
        × (exp : ℤ) × (k.decode_claims c ≡ some (name, exp))
        × (is_expired k now exp ≡ false)
  unfolding verify_parts
  verify_parts_three a now h c m name e =
      elim (Bool-cases (text_eq (k.sign a.secret (h ++ (b'.' ∷ c))) m)) [
        | inr n ↦ ground arith
        | inl y ↦ elim (Option-cases (k.decode_header h)) [
          | inl n ↦ ground arith
          | inr (alg, d) ↦ elim (Bool-cases (text_eq alg algorithm)) [
            | inr n ↦ ground arith
            | inl z ↦ elim (Option-cases (k.decode_claims c)) [
              | inl n ↦ ground arith
              | inr ((sub, exp), q) ↦ elim (Bool-cases (is_expired k now exp)) [
                | inl w ↦ ground arith
                | inr x ↦
                    let n : sub ≡ name = ground arith in
                    (
                      y,
                      rw (sym (text_eq_sound alg algorithm z)) d,
                      exp,
                      subst (λ t. k.decode_claims c ≡ some (t, exp)) n q,
                      x,
                    )
              ]
            ]
          ]
        ]
      ]

  verify_parts-IsSigned :
      (a : Auth k) (now : ℕ) (parts : List Text) (name : Text)
      → verify_parts k now a parts ≡ some name
      → IsSigned a.secret now (join b'.' parts) name
  unfolding verify_parts join
  verify_parts-IsSigned a now [] name e = cc
  verify_parts-IsSigned a now (h ∷ []) name e = cc
  verify_parts-IsSigned a now (h ∷ c ∷ []) name e = cc
  verify_parts-IsSigned a now (h ∷ c ∷ m ∷ n ∷ ps) name e = cc
  verify_parts-IsSigned a now (h ∷ c ∷ m ∷ []) name e =
      let (mac, d, exp, q, x) = verify_parts_three a now h c m name e in
      record {
        header = h;
        claims = c;
        exp = exp;
        layout = rw (text_eq_sound _ m mac) refl;
        algorithm_named = d;
        claimed = q;
        current = is_expired-false now exp x;
      }

  -- A token that Verify accepts for a user is laid out as a header, claims and the signature of
  -- both under the secret; its header names HS256, its claims name that user, and its expiry is
  -- zero or later than now.
  pub verify-IsSigned :
      (a : Auth k) (now : ℕ) (token name : Text)
      → verify k now (some a) token ≡ some name
      → IsSigned a.secret now token name
  unfolding verify
  verify-IsSigned a now token name e =
      subst (λ t. IsSigned a.secret now t name) (join-split b'.' token)
        (verify_parts-IsSigned a now (split b'.' token) name e)
