-- ===== src/Frontend/Login.antt =====
-- What a sign in gives: where it lands, and the session that follows (frontend/login.go).
use oida.Prelude.{
  lt→ltb, Bool-cases, Option-cases, if-split, Text, bytes, has_prefix, has_prefix_sound,
  contains_text, contains_text-append, ℕ, ◌+◌, ◌<◌, ◌≡◌, refl, sym, ap, ◌∙◌, subst, ◌≢◌, ◌⊎◌, inl,
  inr, true, false, not, ◌&&◌, Option, none, some, ◌++◌, arith,
}
use oida.Model.Data.{GoError, Trace}
use oida.Model.Auth.{
  Codec, Auth, session_ttl, login_required, network_allowed, authenticate, session, request_user,
}
use oida.Frontend.Requests.{
  Request, relative, Route, overview, traces, live, live_events, stats, asset, trace, unknown_route,
  route_of, is_login, back_target,
}
use oida.Frontend.Serving.{
  Response, not_found, redirect, Handler, authorized, serve_unauthorized, serve_login, serve_route,
  serve_asset, is_let_in, serve, serve_detail,
}
use mathlib.Core.Bool.{true≢false}
use mathlib.Core.Option.{none-ne-some}
use oida.Model.Auth.Tokens.{verify-session}

-- The base itself, or a path below it with neither two slashes in a row nor a backslash. Dot segments
-- may lead out of it.
pub record IsUnder (base target : Text) : Type 0 where
  pub under : (target ≡ base) ⊎ ((rest : Text) × (target ≡ base ++ bytes "/" ++ rest))
  pub no_slashes : (target ≡ base) ⊎ ((u v : Text) → target ≢ u ++ (bytes "//" ++ v))
  pub no_backslash : (target ≡ base) ⊎ ((u v : Text) → target ≢ u ++ (bytes "\\" ++ v))

contains_text-not : (p s : Text) → contains_text p s ≡ false → (u v : Text) → s ≢ u ++ (p ++ v)
contains_text-not p s e u v q =
    true≢false (sym (contains_text-append p u v) ∙ subst (λ t. contains_text p t ≡ false) q e)

-- The page that a login lands on is the mount path itself, or a text that starts with the mount
-- path and a slash and has neither two slashes in a row nor a backslash.
back_target-IsUnder : (base back : Text) → IsUnder base (back_target base back)
unfolding back_target
back_target-IsUnder base back =
    if-split (IsUnder base)
      (has_prefix (base ++ bytes "/") back
        && not (contains_text (bytes "//") back)
        && not (contains_text (bytes "\\") back))
      (λ y.
        let (rest, e) = has_prefix_sound (base ++ bytes "/") back (ground arith) in
        record {
          under = inr (rest, e);
          no_slashes = inr (contains_text-not (bytes "//") back (ground arith));
          no_backslash = inr (contains_text-not (bytes "\\") back (ground arith));
        })
      (λ n. record { under = inl refl; no_slashes = inl refl; no_backslash = inl refl })

module _ (k : Codec) (lower : Text → Text) (escape : Text → Text) (invalid : GoError)
    (read : Text → Option Trace) (now : ℕ) where
  cookie_set : Response → Option Text
  cookie_set (redirect target token) = token
  cookie_set _ = none

  serve_route-no_cookie :
      (h : Handler k lower escape invalid read now) (r : Request) (route : Route)
      → cookie_set (serve_route k lower escape invalid read now h r route) ≡ none
  unfolding serve_route serve_detail serve_asset cookie_set
  serve_route-no_cookie h r overview = ground arith
  serve_route-no_cookie h r traces = ground arith
  serve_route-no_cookie h r live = ground arith
  serve_route-no_cookie h r live_events = ground arith
  serve_route-no_cookie h r stats = ground arith
  serve_route-no_cookie h r (asset name) = ground arith
  serve_route-no_cookie h r (trace id) = ground arith
  serve_route-no_cookie h r unknown_route = ground arith

  serve_unauthorized-no_cookie :
      (h : Handler k lower escape invalid read now) (r : Request)
      → cookie_set (serve_unauthorized k lower escape invalid read now h r) ≡ none
  unfolding serve_unauthorized cookie_set
  serve_unauthorized-no_cookie h r = ground arith

  no_cookie {ℓ} :
      {A : Type ℓ} (x : Response) (target token : Text)
      → cookie_set x ≡ none
      → x ≡ redirect target (some token)
      → A
  unfolding cookie_set
  no_cookie x target token n e = elim (none-ne-some token (sym n ∙ ap cookie_set e)) [ ]

  serve-login :
      (h : Handler k lower escape invalid read now) (r : Request) (target token : Text)
      → serve k lower escape invalid read now h r ≡ redirect target (some token)
      → serve_login k lower escape invalid read now h r ≡ redirect target (some token)
  unfolding serve cookie_set
  serve-login h r target token e =
      let Leads : Response → Type 0 = λ x.
        x ≡ redirect target (some token)
        → serve_login k lower escape invalid read now h r ≡ redirect target (some token) in
      let route = relative h.base r in
      if-split Leads (not (authorized k lower escape invalid read now h r))
        (λ y. no_cookie not_found target token refl)
        (λ n.
          if-split Leads (not (network_allowed k h.auth r.peer))
            (λ y. no_cookie not_found target token refl)
            (λ n.
              if-split Leads (login_required k h.auth && is_login route) (λ y q. q)
                (λ n.
                  if-split Leads
                    (login_required k h.auth
                      && not (is_let_in k lower escape invalid read now h r route))
                    (λ y. no_cookie _ target token (serve_unauthorized-no_cookie h r))
                    (λ n. no_cookie _ target token (serve_route-no_cookie h r (route_of route))))))
        e

  serve_login_parts :
      (h : Handler k lower escape invalid read now) (r : Request) (target token : Text)
      → serve_login k lower escape invalid read now h r ≡ redirect target (some token)
      → (authenticate k invalid h.auth (k.trim r.form_username) r.form_password ≡ none)
        × (session k now h.auth (k.trim r.form_username) ≡ some token)
        × (back_target h.base r.form_back ≡ target)
  unfolding serve_login
  serve_login_parts h r target token e = elim (Bool-cases r.is_post) [
    | inr n ↦ ground arith
    | inl y ↦
        elim (Option-cases
          (authenticate k invalid h.auth (k.trim r.form_username) r.form_password)) [
            | inr a ↦ ground arith
            | inl a ↦ elim (Option-cases (session k now h.auth (k.trim r.form_username))) [
              | inl q ↦ ground arith
              | inr (t, q) ↦ ground arith
            ]
          ]
  ]

  request_user-session :
      (auth : Option (Auth k)) (later : ℕ) (name token authorization : Text)
      → k.is_carried name ≡ true
      → session k now auth name ≡ some token
      → later < now + session_ttl
      → request_user k later auth (some token) authorization ≡ some name
  unfolding request_user session
  request_user-session none later name token authorization c e t = cc
  request_user-session (some a) later name token authorization c e t =
      rw
        (
          request_user,
          verify-session k a now later name token c e,
          lt→ltb later (now + session_ttl) t,
        )
        refl

  -- When the front end answers a request with a redirect that sets the session cookie, the
  -- username and the password of the form were accepted, the redirect stays at or below the mount
  -- path in the sense of back_target, and until the session's lifetime has passed a request with
  -- that cookie is one of that user, whatever its Authorization header, if JSON carries the name
  -- unchanged.
  pub serve-opens :
      (h : Handler k lower escape invalid read now) (r : Request)
      (target token authorization : Text) (later : ℕ)
      → k.is_carried (k.trim r.form_username) ≡ true
      → serve k lower escape invalid read now h r ≡ redirect target (some token)
      → later < now + session_ttl
      → IsUnder h.base target
        × (authenticate k invalid h.auth (k.trim r.form_username) r.form_password ≡ none)
        × (request_user k later h.auth (some token) authorization ≡ some (k.trim r.form_username))
  serve-opens h r target token authorization later c e t =
      let (granted, written, landed) =
        serve_login_parts h r target token (serve-login h r target token e) in
      (
        subst (IsUnder h.base) landed (back_target-IsUnder h.base r.form_back),
        granted,
        request_user-session h.auth later (k.trim r.form_username) token authorization c written t,
      )
