-- ===== src/Frontend/Requests.antt =====
-- What the front end reads of a request (frontend/negotiate.go, and the routing of
-- frontend/handler.go). Parsed parts of the request, which net/http provides, are its fields.
use oida.Prelude.{
  ◌==◌, if◌then◌else◌, length, drop, Text, bytes, text_eq, has_prefix, contains_text, Bool, not,
  ◌&&◌, ◌||◌, Option, none, some, [], ◌∷◌, ◌++◌, reverse,
}

pub data Format : Type 0 where
  html json plain : Format

pub record Request : Type 0 where
  pub path : Text
  pub request_uri : Text
  pub is_post : Bool
  pub peer : Text
  -- The session cookie, if the request carries one, and the Authorization header.
  pub cookie : Option Text
  pub authorization : Text
  pub accept : Text
  pub user_agent : Text
  -- Query parameters and form values; a missing one is empty.
  pub query_format : Text
  pub query_back : Text
  pub form_username : Text
  pub form_password : Text
  pub form_back : Text

-- `lower` is strings.ToLower.
unfoldable pub negotiate : (Text → Text) → Request → Format
unfolding text_eq contains_text has_prefix
negotiate lower r =
    let accept = lower r.accept in
    if text_eq r.query_format (bytes "json")
    then json
    else if text_eq r.query_format (bytes "text")
    then plain
    else if text_eq r.query_format (bytes "html")
    then html
    else if contains_text (bytes "application/json") accept
        || contains_text (bytes "text/json") accept
    then json
    else if contains_text (bytes "text/plain") accept
    then plain
    else if has_prefix (bytes "curl/") (lower r.user_agent)
    then plain
    else html

-- strings.CutPrefix
unfoldable pub cut_prefix : Text → Text → Option Text
unfolding has_prefix
cut_prefix p s = if has_prefix p s then some (drop (length p) s) else none

-- `base` is the mount path.
unfoldable pub relative : Text → Request → Text
unfolding cut_prefix
relative base r = elim (cut_prefix base r.path) [ none ↦ r.path | some rest ↦ rest ]

-- The slashes in front.
trim_front : Text → Text
trim_front [] = []
trim_front (c ∷ s) = let rest = trim_front s in if c == b'/' then rest else c ∷ s

-- strings.Trim(s, "/")
trim_slashes : Text → Text
unfolding trim_front
trim_slashes s = reverse (trim_front (reverse (trim_front s)))

pub data Route : Type 0 where
  overview traces live live_events stats : Route
  asset : Text → Route
  trace : Text → Route
  unknown_route : Route

abbrev pub asset_prefix : Text
asset_prefix = bytes "/assets/"

unfoldable pub route_of : Text → Route
unfolding text_eq has_prefix cut_prefix trim_slashes
route_of route =
    if text_eq route [] || text_eq route (bytes "/")
    then overview
    else if text_eq route (bytes "/traces")
    then traces
    else if text_eq route (bytes "/live")
    then live
    else if text_eq route (bytes "/live/events")
    then live_events
    else if text_eq route (bytes "/stats")
    then stats
    else if has_prefix asset_prefix route
    then asset route
    else elim (cut_prefix (bytes "/trace/") route) [
      | none ↦ unknown_route
      | some id ↦ trace (trim_slashes id)
    ]

unfoldable pub is_login : Text → Bool
unfolding text_eq
is_login route = text_eq route (bytes "/login") || text_eq route (bytes "/login/")

-- The page that a successful login lands on.
unfoldable pub back_target : Text → Text → Text
unfolding has_prefix contains_text
back_target base back =
    if has_prefix (base ++ bytes "/") back
      && not (contains_text (bytes "//") back)
      && not (contains_text (bytes "\\") back)
    then back
    else base
