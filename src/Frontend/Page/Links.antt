-- ===== src/Frontend/Page/Links.antt =====
-- The links between pages, the methods of Page in frontend/view/page.go that build a URL.
use oida.Prelude.{
  if◌then◌else◌, ℤ, pos, ltb_ℤ, Text, bytes, text_eq, Map, insert, Bool, true, false, not, ◌&&◌,
  ◌||◌, [], ◌∷◌, ◌++◌,
}
use oida.Model.Options.{int_eq}
use oida.Frontend.Page.{Urls, View, view_list, view_live, view_stats, sort_age, first_limit, Page}

abbrev is_list : View → Bool
is_list view_list = true
is_list _ = false

abbrev pub is_live : View → Bool
is_live view_live = true
is_live _ = false

-- `query.Set(key, value)` under a condition.
unfoldable pub set_if : Bool → Text → Text → Map Text → Map Text
unfolding insert
set_if b key value values = if b then insert key value values else values

-- The path of a view.
unfoldable pub view_path : Page → View → Text
view_path p view_list = p.path ++ bytes "/traces"
view_path p view_live = p.path ++ bytes "/live"
view_path p view_stats = p.path ++ bytes "/stats"
view_path p _ = p.path

module _ (u : Urls) where
  -- The values that URL encodes.
  unfoldable pub url_values : Page → View → Map Text
  unfolding set_if text_eq
  url_values p view =
      let hosted =
        set_if (not (text_eq p.host []) && (is_list view || is_live view)) (bytes "host") p.host
          [] in
      let limited =
        set_if (ltb_ℤ (pos 0) p.limit && not (int_eq p.limit first_limit)) (bytes "limit")
          (u.itoa p.limit) hosted in
      let asked = set_if (not (text_eq p.query [])) (bytes "q") p.query limited in
      let kinded = set_if (not (text_eq p.kind [])) (bytes "kind") p.kind asked in
      let stated =
        set_if (not (text_eq p.status []) && not (text_eq p.status (bytes "all"))) (bytes "status")
          p.status kinded in
      let sorted =
        set_if (not (text_eq p.sort []) && not (text_eq p.sort sort_age)) (bytes "sort") p.sort
          stated in
      let ordered = set_if p.ascending (bytes "order") (bytes "asc") sorted in
      if is_list view then ordered else hosted

  -- The last step of URL: a path alone if there is nothing to encode.
  unfoldable pub with_query : Text → Map Text → Text
  with_query path [] = path
  with_query path (kv ∷ more) = path ++ bytes "?" ++ u.encode (kv ∷ more)

  unfoldable pub url : Page → View → Text
  unfolding view_path url_values with_query
  url p view = with_query (view_path p view) (url_values p view)

  unfoldable pub limit_url : Page → ℤ → Text
  unfolding url
  limit_url p limit = url (record p { limit = limit }) view_list

  unfoldable pub status_url : Page → Text → Text
  unfolding url
  status_url p status = url (record p { status = status }) view_list

  unfoldable pub host_url : Page → Text → Text
  unfolding url
  host_url p host = url (record p { host = host }) view_list

  unfoldable host_live_url : Page → Text → Text
  unfolding url
  host_live_url p host = url (record p { host = host }) view_live

  unfoldable pub sort_url : Page → Text → Text
  unfolding url text_eq
  sort_url p key =
      url (record p { sort = key; ascending = text_eq p.sort key && not p.ascending }) view_list

  unfoldable pub switch_host_url : Page → Text → Text
  unfolding url
  switch_host_url p host =
      url (record p { host = host }) (if is_live p.view then view_live else view_list)

  unfoldable trace_url : Page → Text → Text
  trace_url p id = p.path ++ bytes "/trace/" ++ u.path_escape id
