-- ===== src/Frontend/Page/Following.antt =====
-- What a page shows that a link of another page leads to, for the links and NewPage of
-- frontend/view/page.go.
use oida.Prelude.{
  if◌then◌else◌, Bool-cases, if-split, ℤ, Text, bytes, text_eq, Map, lookup, lookup-insert,
  has_byte, ℕ, ◌≡◌, refl, ap, ◌∙◌, ◌⊎◌, inl, inr, Bool, true, false, not, ◌&&◌, ◌||◌, none, some,
  [], ◌∷◌, ◌++◌, arith,
}
use oida.Model.Options.{Numerals, Options}
use oida.Tracer.Snapshots.{Snapshot}
use oida.Frontend.Page.{
  Urls, View, view_hosts, view_list, view_live, view_stats, view_detail, view_login, PageRequest,
  sort_keys, first_limit, limit_options, Page, requested_limit, requested_sort, requested_status,
  new_page, OneOf, offered_sort, offered_limit,
}
use oida.Frontend.Page.Links.{
  is_live, set_if, view_path, url_values, url, limit_url, status_url, host_url, sort_url,
  switch_host_url, with_query,
}
use oida.Frontend.Page.Choices.{Filters, filters, IsUsable}

-- A path that a URL spells as it is.
abbrev IsPlain : Text → Type 0
IsPlain s = (has_byte b'?' s ≡ false) × (has_byte b'#' s ≡ false) × (has_byte b'%' s ≡ false)

filters_eq :
    {f g : Filters}
    → f.limit ≡ g.limit
    → f.query ≡ g.query
    → f.kind ≡ g.kind
    → f.host ≡ g.host
    → f.status ≡ g.status
    → f.sort ≡ g.sort
    → f.ascending ≡ g.ascending
    → f ≡ g
filters_eq a b c d e h k = cc

-- The request that following a link makes.
abbrev pub follow : Urls → Text → Text → PageRequest
follow u link host = record { query = u.query_of link; host = host }

abbrev get : Text → Map Text → Text
get key values = elim (lookup key values) [ none ↦ [] | some v ↦ v ]

get-set_if :
    (j : Text) (b : Bool) (key value : Text) (values : Map Text)
    → get j (set_if b key value values) ≡ (if text_eq key j && b then value else get j values)
unfolding set_if
get-set_if j true key value values = ground (arith, lookup-insert key j value values)
get-set_if j false key value values = ground arith

has_byte-append :
    (b : ℕ) (s t : Text) → has_byte b s ≡ false → has_byte b t ≡ false → has_byte b (s ++ t) ≡ false
unfolding has_byte
has_byte-append b [] t h k = k
has_byte-append b (c ∷ s) t h k = ground (arith, has_byte-append b s t)

unless_empty : (s : Text) → (if not (text_eq s []) then s else []) ≡ s
unfolding text_eq
unless_empty [] = refl
unless_empty (c ∷ s) = refl

module _ (u : Urls) (p : Page) where
  get-query : get (bytes "q") (url_values u p view_list) ≡ p.query
  unfolding url_values text_eq lookup
  get-query = simp get-set_if (unless_empty p.query)

  get-kind : get (bytes "kind") (url_values u p view_list) ≡ p.kind
  unfolding url_values text_eq lookup
  get-kind = simp get-set_if (unless_empty p.kind)

  get-host : get (bytes "host") (url_values u p view_list) ≡ p.host
  unfolding url_values text_eq lookup
  get-host = simp get-set_if (ground (arith, unless_empty p.host))

  get-host_live : get (bytes "host") (url_values u p view_live) ≡ p.host
  unfolding url_values text_eq lookup
  get-host_live = simp get-set_if (ground (arith, unless_empty p.host))

  get-order : text_eq (get (bytes "order") (url_values u p view_list)) (bytes "asc") ≡ p.ascending
  unfolding url_values text_eq lookup
  get-order =
      simp get-set_if (elim (Bool-cases p.ascending) [ inl y ↦ rw y refl | inr n ↦ rw n refl ])

  get-status :
      OneOf p.status (bytes "error" ∷ bytes "all" ∷ [])
      → (let v = get (bytes "status") (url_values u p view_list) in
          (if text_eq v (bytes "error") || text_eq v (bytes "all") then v else bytes "all"))
        ≡ p.status
  unfolding url_values text_eq lookup
  get-status (inl e) = simp get-set_if (rw e refl)
  get-status (inr (inl e)) = simp get-set_if (rw e refl)
  get-status (inr (inr x)) = absurd x

  get-sort :
      OneOf p.sort sort_keys
      → offered_sort (get (bytes "sort") (url_values u p view_list)) sort_keys ≡ p.sort
  unfolding url_values text_eq lookup offered_sort
  get-sort (inl e) = simp get-set_if (rw e refl)
  get-sort (inr (inl e)) = simp get-set_if (rw e refl)
  get-sort (inr (inr (inl e))) = simp get-set_if (rw e refl)
  get-sort (inr (inr (inr (inl e)))) = simp get-set_if (rw e refl)
  get-sort (inr (inr (inr (inr x)))) = absurd x

  get-limit :
      OneOf p.limit limit_options
      → (elim (u.atoi (get (bytes "limit") (url_values u p view_list))) [
        | none ↦ first_limit
        | some value ↦ offered_limit value limit_options
      ])
        ≡ p.limit
  unfolding url_values text_eq lookup offered_limit
  get-limit (inl e) = simp get-set_if (rw e (rw u.atoi-empty refl))
  get-limit (inr (inl e)) = simp get-set_if (rw e (rw u.atoi-itoa refl))
  get-limit (inr (inr (inl e))) = simp get-set_if (rw e (rw u.atoi-itoa refl))
  get-limit (inr (inr (inr (inl e)))) = simp get-set_if (rw e (rw u.atoi-itoa refl))
  get-limit (inr (inr (inr (inr x)))) = absurd x

  view_path-IsPlain : (name : View) → IsPlain p.path → IsPlain (view_path p name)
  unfolding view_path has_byte
  view_path-IsPlain view_list (q, h, c) = (
    has_byte-append b'?' p.path (bytes "/traces") q refl,
    has_byte-append b'#' p.path (bytes "/traces") h refl,
    has_byte-append b'%' p.path (bytes "/traces") c refl,
  )
  view_path-IsPlain view_live (q, h, c) = (
    has_byte-append b'?' p.path (bytes "/live") q refl,
    has_byte-append b'#' p.path (bytes "/live") h refl,
    has_byte-append b'%' p.path (bytes "/live") c refl,
  )
  view_path-IsPlain view_stats (q, h, c) = (
    has_byte-append b'?' p.path (bytes "/stats") q refl,
    has_byte-append b'#' p.path (bytes "/stats") h refl,
    has_byte-append b'%' p.path (bytes "/stats") c refl,
  )
  view_path-IsPlain view_hosts h = h
  view_path-IsPlain view_detail h = h
  view_path-IsPlain view_login h = h

  query_of-with_query :
      (path key : Text) (values : Map Text)
      → IsPlain path
      → u.query_of (with_query u path values) key ≡ get key values
  unfolding with_query lookup
  query_of-with_query path key [] (q, h, c) = u.query_of-path path key q h c
  query_of-with_query path key (kv ∷ more) (q, h, c) = u.query_of-encode path key (kv ∷ more) q h c

  -- The parameters of a link are the values that were encoded into it.
  query_of-url :
      (name : View) (key : Text)
      → IsPlain p.path
      → u.query_of (url u p name) key ≡ get key (url_values u p name)
  unfolding url
  query_of-url name key h =
      query_of-with_query (view_path p name) key (url_values u p name) (view_path-IsPlain name h)

module _ (u : Urls) {n : Numerals} {S : Type 0} (opts : Options n S) (snapshot : Snapshot)
    (name : View) (host : Text) where
  filters-url :
      (p : Page)
      → IsPlain p.path
      → IsUsable u (filters p)
      → filters (new_page u opts snapshot name (follow u (url u p view_list) host)) ≡ filters p
  unfolding new_page requested_limit requested_sort requested_status
  filters-url p h f =
      let q : (key : Text)
          → u.query_of (url u p view_list) key ≡ get key (url_values u p view_list) =
        λ key. query_of-url u p view_list key h in
      filters_eq
        (ap
            (λ s. elim (u.atoi s) as (λ x. ℤ) [
              | none ↦ first_limit
              | some value ↦ offered_limit value limit_options
            ])
            (q (bytes "limit"))
          ∙ get-limit u p f.limit_offered)
        (ap u.trim (q (bytes "q") ∙ get-query u p) ∙ f.query_trimmed)
        (ap (λ s. if not (text_eq (u.trim s) []) then u.trim s else [])
            (q (bytes "kind") ∙ get-kind u p)
          ∙ (unless_empty (u.trim p.kind) ∙ f.kind_trimmed))
        (ap u.trim (q (bytes "host") ∙ get-host u p) ∙ f.host_trimmed)
        (ap (λ v. if text_eq v (bytes "error") || text_eq v (bytes "all") then v else bytes "all")
            (q (bytes "status"))
          ∙ get-status u p f.status_offered)
        (ap (λ s. offered_sort s sort_keys) (q (bytes "sort")) ∙ get-sort u p f.sort_offered)
        (ap (λ s. text_eq s (bytes "asc")) (q (bytes "order")) ∙ get-order u p)

  -- For a page with a plain path and usable choices, following the link to another limit, status,
  -- host or column, each an offered one or a trimmed host, gives a list with that choice and every
  -- other choice kept; a link to the column the list is ordered by flips its direction, and one to
  -- another column is descending.
  pub filters-followed :
      (p : Page) (limit : ℤ) (status chosen key : Text)
      → IsPlain p.path
      → IsUsable u (filters p)
      → OneOf limit limit_options
      → OneOf status (bytes "error" ∷ bytes "all" ∷ [])
      → u.trim chosen ≡ chosen
      → OneOf key sort_keys
      → let reached =
          λ (link : Text). filters (new_page u opts snapshot name (follow u link host)) in
        (reached (limit_url u p limit) ≡ record (filters p) { limit = limit })
        × (reached (status_url u p status) ≡ record (filters p) { status = status })
        × (reached (host_url u p chosen) ≡ record (filters p) { host = chosen })
        × (reached (sort_url u p key)
            ≡ record (filters p) { sort = key; ascending = text_eq p.sort key && not p.ascending })
  unfolding limit_url status_url host_url sort_url
  filters-followed p limit status chosen key h f l s t k = (
    filters-url (record p { limit = limit }) h
        (record {
          limit_offered = l;
          status_offered = f.status_offered;
          sort_offered = f.sort_offered;
          query_trimmed = f.query_trimmed;
          kind_trimmed = f.kind_trimmed;
          host_trimmed = f.host_trimmed;
        }),
    filters-url (record p { status = status }) h
        (record {
          limit_offered = f.limit_offered;
          status_offered = s;
          sort_offered = f.sort_offered;
          query_trimmed = f.query_trimmed;
          kind_trimmed = f.kind_trimmed;
          host_trimmed = f.host_trimmed;
        }),
    filters-url (record p { host = chosen }) h
        (record {
          limit_offered = f.limit_offered;
          status_offered = f.status_offered;
          sort_offered = f.sort_offered;
          query_trimmed = f.query_trimmed;
          kind_trimmed = f.kind_trimmed;
          host_trimmed = t;
        }),
    filters-url (record p { sort = key; ascending = text_eq p.sort key && not p.ascending }) h
        (record {
          limit_offered = f.limit_offered;
          status_offered = f.status_offered;
          sort_offered = k;
          query_trimmed = f.query_trimmed;
          kind_trimmed = f.kind_trimmed;
          host_trimmed = f.host_trimmed;
        }),
  )

  host-url :
      (p : Page) (view : View)
      → IsPlain p.path
      → u.trim p.host ≡ p.host
      → (view ≡ view_live) ⊎ (view ≡ view_list)
      → (new_page u opts snapshot name (follow u (url u p view) host)).host ≡ p.host
  unfolding new_page
  host-url p view h t (inl e) =
      rw e (ap u.trim (query_of-url u p view_live (bytes "host") h ∙ get-host_live u p) ∙ t)
  host-url p view h t (inr e) =
      rw e (ap u.trim (query_of-url u p view_list (bytes "host") h ∙ get-host u p) ∙ t)

  -- Following the host switcher from a page with a plain path shows the host that was chosen, if it
  -- has no space around it.
  switch_host-host :
      (p : Page) (chosen : Text)
      → IsPlain p.path
      → u.trim chosen ≡ chosen
      → (new_page u opts snapshot name (follow u (switch_host_url u p chosen) host)).host ≡ chosen
  unfolding switch_host_url
  switch_host-host p chosen h t =
      host-url (record p { host = chosen }) (if is_live p.view then view_live else view_list) h t
        (if-split (λ v. (v ≡ view_live) ⊎ (v ≡ view_list)) (is_live p.view) (λ y. inl refl)
          (λ n. inr refl))
