-- ===== src/Frontend/Serving.antt =====
-- How the handler answers (frontend/handler.go, frontend/login.go). A response says which page is
-- rendered from which recorded data, not its HTML or JSON.
use oida.Prelude.{
  if◌then◌else◌, Text, bytes, text_eq, has_prefix, cut_suffix, ℕ, Bool, true, false, not, ◌&&◌,
  Option, none, some, [], ◌++◌,
}
use oida.Model.Data.{GoError, Trace}
use oida.Model.Ids.{valid_id}
use oida.Model.Auth.{
  Codec, Auth, login_required, network_allowed, authenticate, session, request_user,
}
use oida.Frontend.Requests.{
  Format, html, json, plain, Request, negotiate, relative, Route, overview, traces, live,
  live_events, stats, asset, trace, unknown_route, asset_prefix, route_of, is_login, back_target,
}

pub data Page : Type 0 where
  hosts_page traces_page live_page stats_page : Page

-- `screen` is the sign in screen: its status, the username and the target it keeps, and whether it
-- shows that a login failed. A redirect may set the session cookie.
pub data Response : Type 0 where
  not_found : Response
  screen : ℕ → Text → Text → Bool → Response
  redirect : Text → Option Text → Response
  unauthorized : Text → Response
  asset_file : Text → Response
  stylesheet : Text → Response
  page : Page → Format → Response
  detail : Trace → Format → Response
  event_stream : Response

-- What a response shows of the recorded data.
abbrev pub shows_recorded : Response → Bool
shows_recorded (page p f) = true
shows_recorded (detail t f) = true
shows_recorded event_stream = true
shows_recorded _ = false

-- `lower` is strings.ToLower, `escape` url.QueryEscape, `invalid` ErrInvalidCredentials, `read` the
-- recorder's Trace and `now` the time of the request in seconds.
module _ (k : Codec) (lower : Text → Text) (escape : Text → Text) (invalid : GoError)
    (read : Text → Option Trace) (now : ℕ) where
  pub record Handler : Type 0 where
    pub base : Text
    pub authorize : Option (Request → Bool)
    pub live_stream : Bool
    pub auth : Option (Auth k)

  -- Options.Authorized
  unfoldable pub authorized : Handler → Request → Bool
  authorized h r = elim h.authorize [ none ↦ true | some f ↦ f r ]

  unfoldable pub serve_unauthorized : Handler → Request → Response
  unfolding negotiate back_target text_eq
  serve_unauthorized h r =
      let login = h.base ++ bytes "/login" in
      let refused = unauthorized (
        bytes "unauthorized: sign in at "
        ++ login
        ++ bytes " or send Authorization: Bearer <token>") in
      elim (negotiate lower r) [
        | html ↦
            if text_eq (back_target h.base r.request_uri) r.request_uri
            then redirect (login ++ bytes "?back=" ++ escape r.request_uri) none
            else redirect login none
        | json ↦ refused
        | plain ↦ refused
      ]

  unfoldable pub serve_login : Handler → Request → Response
  unfolding back_target authenticate session
  serve_login h r =
      let username = k.trim r.form_username in
      let failed = screen 401 username r.form_back true in
      if r.is_post
      then elim (authenticate k invalid h.auth username r.form_password) [
        | some e ↦ failed
        | none ↦ elim (session k now h.auth username) [
          | none ↦ failed
          | some token ↦ redirect (back_target h.base r.form_back) (some token)
        ]
      ]
      else screen 200 [] r.query_back false

  unfoldable pub serve_detail : Request → Text → Response
  unfolding valid_id negotiate
  serve_detail r id =
      if valid_id id
      then elim (read id) [ none ↦ not_found | some t ↦ detail t (negotiate lower r) ]
      else not_found

  unfoldable pub serve_asset : Handler → Text → Response
  unfolding cut_suffix
  serve_asset h route = elim (cut_suffix (bytes ".css") route) [
    | none ↦ asset_file route
    | some name ↦ stylesheet (h.base ++ asset_prefix)
  ]

  unfoldable pub serve_route : Handler → Request → Route → Response
  unfolding serve_detail serve_asset negotiate
  serve_route h r overview = page hosts_page (negotiate lower r)
  serve_route h r traces = page traces_page (negotiate lower r)
  serve_route h r live = page live_page (negotiate lower r)
  serve_route h r live_events = if h.live_stream then event_stream else not_found
  serve_route h r stats = page stats_page (negotiate lower r)
  serve_route h r (asset route) = serve_asset h route
  serve_route h r (trace id) = serve_detail r id
  serve_route h r unknown_route = not_found

  -- Whether the request is let through without a login, or with one.
  unfoldable pub is_let_in : Handler → Request → Text → Bool
  unfolding request_user has_prefix
  is_let_in h r route = elim (request_user k now h.auth r.cookie r.authorization) [
    | none ↦ has_prefix asset_prefix route
    | some name ↦ true
  ]

  unfoldable pub serve : Handler → Request → Response
  unfolding authorized network_allowed relative login_required is_login serve_login
      serve_unauthorized is_let_in route_of serve_route
  serve h r =
      let route = relative h.base r in
      if not (authorized h r)
      then not_found
      else if not (network_allowed k h.auth r.peer)
      then not_found
      else if login_required k h.auth && is_login route
      then serve_login h r
      else if login_required k h.auth && not (is_let_in h r route)
      then serve_unauthorized h r
      else serve_route h r (route_of route)
