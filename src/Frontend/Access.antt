-- ===== src/Frontend/Access.antt =====
-- Who sees recorded data: the gate of serveHTTP.
use oida.Prelude.{
  Bool-cases, Option-cases, Text, bytes, text_eq, has_prefix, cut_suffix, has_prefix_sound, ℕ, ◌≡◌,
  refl, sym, ◌∙◌, subst, ◌⊎◌, inl, inr, true, false, Option, none, some, arith, ap,
}
use oida.Model.Data.{GoError, Trace}
use oida.Model.Auth.{AuthOptions, new_auth, Codec, login_required, network_allowed, request_user}
use oida.Model.Auth.Loading.{IsLost, network_allowed-new_auth, login_required-new_auth}
use oida.Frontend.Requests.{Request, relative, asset, asset_prefix, route_of, is_login}
use oida.Frontend.Serving.{
  Response, shows_recorded, Handler, authorized, serve_unauthorized, serve_login, serve_route,
  serve_asset, is_let_in, serve,
}

route_of-asset :
    (route : Text) → has_prefix asset_prefix route ≡ true → route_of route ≡ asset route
unfolding route_of text_eq has_prefix
route_of-asset route h =
    let (rest, e) = has_prefix_sound asset_prefix route h in
    subst (λ t. route_of t ≡ asset t) (sym e) refl

module _ (k : Codec) (lower : Text → Text) (escape : Text → Text) (invalid : GoError)
    (read : Text → Option Trace) (now : ℕ) where
  abbrev answer : Handler k lower escape invalid read now → Request → Response
  answer = serve k lower escape invalid read now

  serve_unauthorized-hides :
      (h : Handler k lower escape invalid read now) (r : Request)
      → shows_recorded (serve_unauthorized k lower escape invalid read now h r) ≡ false
  unfolding serve_unauthorized
  serve_unauthorized-hides h r = ground arith

  serve_login-hides :
      (h : Handler k lower escape invalid read now) (r : Request)
      → shows_recorded (serve_login k lower escape invalid read now h r) ≡ false
  unfolding serve_login
  serve_login-hides h r = ground arith

  serve_asset-hides :
      (h : Handler k lower escape invalid read now) (route : Text)
      → shows_recorded (serve_asset k lower escape invalid read now h route) ≡ false
  unfolding serve_asset
  serve_asset-hides h route = elim (Option-cases (cut_suffix (bytes ".css") route)) [
    | inl n ↦ ground arith
    | inr s ↦ ground arith
  ]

  -- Assets are let through without a login, and hold nothing recorded.
  let_in-asset :
      (h : Handler k lower escape invalid read now) (r : Request) (route : Text)
      → request_user k now h.auth r.cookie r.authorization ≡ none
      → is_let_in k lower escape invalid read now h r route ≡ true
      → shows_recorded (serve_route k lower escape invalid read now h r (route_of route)) ≡ false
  unfolding is_let_in serve_route serve_asset
  let_in-asset h r route q e =
      rw (route_of-asset route (sym (rw (q, is_let_in) refl) ∙ e)) (serve_asset-hides h route)

  -- The front end answers with recorded data (a page, a trace or the event stream) only to a
  -- request that Options.Authorize and the network allow list let in, and, where a login is
  -- required, only when the session cookie or the bearer token names a user.
  pub serve-gate :
      (h : Handler k lower escape invalid read now) (r : Request)
      → shows_recorded (serve k lower escape invalid read now h r) ≡ true
      → (authorized k lower escape invalid read now h r ≡ true)
        × (network_allowed k h.auth r.peer ≡ true)
        × ((login_required k h.auth ≡ false)
            ⊎ ((name : Text) × (request_user k now h.auth r.cookie r.authorization ≡ some name)))
  unfolding serve
  serve-gate h r e =
      let route = relative h.base r in
      elim (Bool-cases (authorized k lower escape invalid read now h r)) [
        | inr n ↦ ground arith
        | inl a ↦ elim (Bool-cases (network_allowed k h.auth r.peer)) [
          | inr n ↦ ground arith
          | inl b ↦ elim (Bool-cases (login_required k h.auth)) [
            | inr c ↦ (a, b, inl c)
            | inl c ↦ elim (Option-cases (request_user k now h.auth r.cookie r.authorization)) [
              | inr named ↦ (a, b, inr named)
              | inl q ↦ elim (Bool-cases (is_login route)) [
                | inl y ↦ ground (arith, serve_login-hides h r)
                | inr n ↦ elim (Bool-cases (is_let_in k lower escape invalid read now h r route)) [
                  | inr m ↦ ground (arith, serve_unauthorized-hides h r)
                  | inl y ↦ ground (arith, let_in-asset h r route q y)
                ]
              ]
            ]
          ]
        ]
      ]

  -- When no entry of the allow list parses, no user is given or loaded from the users file (one
  -- that cannot be read loads none), and neither AuthorizeUser, a signing secret nor
  -- Options.Authorize is set, the front end answers every request by its route alone, without a
  -- login and to every network.
  pub serve-IsLost :
      (h : Handler k lower escape invalid read now) (r : Request) (generated : Text)
      (o : AuthOptions k)
      → IsLost k o
      → h.auth ≡ new_auth k generated o
      → h.authorize ≡ none
      → serve k lower escape invalid read now h r
        ≡ serve_route k lower escape invalid read now h r (route_of (relative h.base r))
  unfolding serve authorized
  serve-IsLost h r generated o l e a =
      let allowed : network_allowed k h.auth r.peer ≡ true =
        ap (λ x. network_allowed k x r.peer) e ∙ network_allowed-new_auth k generated o r.peer l in
      let open_to_all : login_required k h.auth ≡ false =
        ap (login_required k) e ∙ login_required-new_auth k generated o l in
      rw (a, allowed, open_to_all) refl
