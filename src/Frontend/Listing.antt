-- ===== src/Frontend/Listing.antt =====
-- Which traces the list and the live feed show, and in which order: frontend/view/filter.go,
-- frontend/view/sort.go, frontend/view/slowest.go, `matches` of frontend/view/funcs.go, NewLivePage
-- of frontend/view/page.go and serveList of frontend/handler.go.
pub mod Matching
pub mod Filtering
pub mod Sorting
pub mod Feed
use oida.Prelude.{
  ltb, leb, ◌==◌, if◌then◌else◌, ltb→lt, lt→ltb, ==_iff, Bool-cases, Option-cases, if-split,
  sum_cases, length, get_or, set, take, drop, replicate, keep, All, length-append, length-set,
  length-replicate, length-take, get_or-set_self, get_or-set_ne, take-take, take_all,
  length-keep-le, get_or-append_lt, get_or-append_end, All-append, All-reverse, All-take,
  take-append_left, length-reverse, length-map, ℤ, pos, negsuc, pos_part, neg_part, sub_ℕ, ◌+ℤ◌,
  ◌≤ℤ◌, ◌<ℤ◌, ltb_ℤ, leb_ℤ, sub_ℕ_parts, +ℤ_parts, eq_of_parts, int_laws, Text, bytes, text_eq,
  text_eq_refl, text_eq_sound, text_eq_iff, has_prefix, cut_suffix, has_prefix_sound,
  has_prefix-append, cut_suffix_sound, cut_suffix-append, Map, lookup, insert, delete,
  lookup-insert, lookup-delete, lead, split, join, has_byte, cut, contains_text, split-piece,
  split_one, join-lead, split-append, join-split, contains_text_sound, contains_text-append, ℕ,
  zero, suc, ◌+◌, ◌-◌, ◌*◌, ◌/◌, ◌%◌, ◌^◌, ◌≤◌, ◌<◌, min, fun_ext, ◌≡◌, refl, sym, ap, ap₂, ◌∙◌,
  subst, ◌≢◌, ◌↔◌, ◌⊎◌, inl, inr, Bool, true, false, not, ◌&&◌, ◌||◌, Option, none, some, List, [],
  ◌∷◌, ◌++◌, map, reverse, arith,
}
use oida.Model.Data.{Value, int, text, opaque, HttpInfo, Span, Trace, span_list}
use oida.Model.State.{is_error}
use oida.Model.Recording.{has_kind, made}
use oida.Model.Options.{Numerals, Options}
use oida.Model.Statistics.Tallies.{trace_host}
use oida.Model.Statistics.Sorting.{sort_stable}
use oida.Tracer.Snapshots.{Snapshot, zero_snapshot}
use oida.Frontend.Page.{
  no_budget, Urls, View, view_hosts, view_list, view_live, view_stats, view_detail, view_login,
  PageRequest, sort_age, sort_duration, sort_spans, sort_allocated, sort_keys, first_limit,
  limit_options, Page, offered_limit, requested_limit, offered_sort, requested_sort,
  requested_status, new_page, OneOf,
}

-- The page literal `Page{Host: host}` of NewLivePage.
abbrev pub host_page : Text → Page
host_page host = record {
  snapshot = zero_snapshot;
  view = view_hosts;
  path = [];
  title = [];
  limit = pos 0;
  query = [];
  kind = [];
  host = host;
  request_host = [];
  status = [];
  sort = [];
  ascending = false;
  refresh = pos 0;
  stream = false;
  slowest = pos 0;
  feed = [];
  trace = none;
  rows = [];
  segments = [];
  memory = no_budget;
  login_username = [];
  login_error = [];
  login_back = [];
}

-- attributeText; `show` renders a value that is no string.
unfoldable pub attribute_text : (Value → Text) → Value → Text
attribute_text show (text s) = s
attribute_text show v = show v

-- `lower` is strings.ToLower, and `show` renders a value that is no string.
module _ (lower : Text → Text) (show : Value → Text) where
  unfoldable pub contains : Text → Text → Bool
  unfolding text_eq contains_text
  contains value lowered = not (text_eq value []) && contains_text lowered (lower value)

  -- The loop over a map of attributes.
  pub any_attribute : Map Value → Text → Bool
  unfolding contains attribute_text
  any_attribute [] query = false
  any_attribute ((key, value) ∷ more) query =
      contains key query || contains (attribute_text show value) query || any_attribute more query

  -- The loop over the spans.
  pub any_span : List Span → Text → Bool
  unfolding contains any_attribute
  any_span [] query = false
  any_span (s ∷ more) query =
      contains s.name query
      || contains s.kind query
      || contains s.error_text query
      || contains s.filename query
      || any_attribute (made s.attributes) query
      || any_span more query

  pub matches_http : HttpInfo → Text → Bool
  unfolding contains
  matches_http h query =
      contains h.uri query
      || contains h.route query
      || contains h.host query
      || contains h.remote_address query

  unfoldable pub matches : Trace → Text → Bool
  unfolding text_eq contains matches_http any_attribute any_span
  matches t query =
      let lowered = lower query in
      if text_eq query []
      then true
      else if contains t.name lowered || contains t.id lowered || contains t.error_text lowered
      then true
      else if (elim t.http [ none ↦ false | some h ↦ matches_http h lowered ])
      then true
      else if any_attribute (made t.attributes) lowered
      then true
      else any_span (span_list t) lowered

  -- Whether the loop of Filter appends a trace.
  pub passes : Page → Trace → Bool
  unfolding matches has_kind text_eq
  passes p t =
      if not (matches t p.query)
      then false
      else if not (text_eq p.kind []) && not (has_kind p.kind t)
      then false
      else if not (text_eq p.host []) && not (text_eq (trace_host t) p.host)
      then false
      else not
          (text_eq p.status (bytes "error") && text_eq t.error_text [] && not (is_error t.state))

  filter_each : Page → List Trace → List Trace
  unfolding passes
  filter_each p [] = []
  filter_each p (t ∷ ts) = let rest = filter_each p ts in if passes p t then t ∷ rest else rest

  pub filter : List Trace → Page → List Trace
  unfolding filter_each text_eq
  filter traces p =
      if text_eq p.query []
        && text_eq p.kind []
        && text_eq p.host []
        && (text_eq p.status [] || text_eq p.status (bytes "all"))
      then traces
      else filter_each p traces

pub less : Text → Trace → Trace → Bool
unfolding text_eq
less key a b =
    if text_eq key sort_duration
    then ltb_ℤ a.duration b.duration
    else if text_eq key sort_spans
    then ltb (length a.spans) (length b.spans)
    else if text_eq key sort_allocated
    then ltb a.memory.allocated_bytes b.memory.allocated_bytes
    else ltb a.started_at b.started_at

pub sort_traces : List Trace → Text → Bool → List Trace
unfolding sort_stable less
sort_traces traces key ascending =
    sort_stable (λ a b. if ascending then less key a b else less key b a) traces

-- The loop of Slowest, with the longest duration so far.
slowest_from : ℤ → List Trace → ℤ
slowest_from longest [] = longest
slowest_from longest (t ∷ ts) =
    slowest_from (if ltb_ℤ longest t.duration then t.duration else longest) ts

pub slowest : List Trace → ℤ
unfolding slowest_from
slowest traces = slowest_from (pos 0) traces

abbrev pub feed_rows : ℕ
feed_rows = 25

module _ {n : Numerals} {S : Type 0} (u : Urls) (show : Value → Text) where
  pub new_live_page : Options n S → Snapshot → PageRequest → Page
  unfolding new_page filter sort_stable slowest text_eq
  new_live_page opts snapshot r =
      let page = new_page u opts snapshot view_live r in
      let merged = snapshot.live ++ snapshot.log in
      let hosted =
        if not (text_eq page.host [])
        then filter u.lower show merged (host_page page.host)
        else merged in
      let sorted = sort_stable (λ a b. ltb b.started_at a.started_at) hosted in
      let feed = if ltb feed_rows (length sorted) then take feed_rows sorted else sorted in
      record page { feed = feed; slowest = slowest feed }

  -- The page that serveList renders, with the traces it shows as the log of its snapshot.
  unfoldable pub list_page : Options n S → Snapshot → PageRequest → Page
  unfolding new_page filter sort_traces slowest
  list_page opts snapshot r =
      let page = new_page u opts snapshot view_list r in
      let sorted = sort_traces (filter u.lower show snapshot.log page) page.sort page.ascending in
      let log =
        if ltb_ℤ (pos 0) page.limit && ltb_ℤ page.limit (pos (length sorted))
        then take (pos_part page.limit) sorted
        else sorted in
      record page {
        snapshot = record snapshot { log = log };
        slowest = slowest log;
        refresh = pos 0;
      }
