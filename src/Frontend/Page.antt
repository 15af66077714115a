-- ===== src/Frontend/Page.antt =====
-- The page that the views are rendered from, NewPage of frontend/view/page.go, and the model it is
-- made of (frontend/view/model.go, frontend/view/sort.go). The memory of a trace is left out.
pub mod Links
pub mod Choices
pub mod Following
pub mod Fields
pub mod Detail
use oida.Prelude.{
  ltb, leb, ◌==◌, if◌then◌else◌, ltb→lt, lt→ltb, ==_iff, Bool-cases, Option-cases, if-split,
  sum_cases, length, get_or, set, take, drop, replicate, keep, All, length-append, length-set,
  length-replicate, length-take, get_or-set_self, get_or-set_ne, take-take, take_all,
  length-keep-le, get_or-append_lt, get_or-append_end, All-append, All-reverse, All-take,
  take-append_left, length-reverse, length-map, ℤ, pos, negsuc, pos_part, neg_part, sub_ℕ, ◌+ℤ◌,
  ◌≤ℤ◌, ◌<ℤ◌, ltb_ℤ, leb_ℤ, sub_ℕ_parts, +ℤ_parts, eq_of_parts, int_laws, Text, bytes, text_eq,
  text_eq_refl, text_eq_sound, text_eq_iff, has_prefix, cut_suffix, has_prefix_sound,
  has_prefix-append, cut_suffix_sound, cut_suffix-append, Map, lookup, insert, delete,
  lookup-insert, lookup-delete, lead, split, join, has_byte, cut, contains_text, split-piece,
  split_one, join-lead, split-append, join-split, contains_text_sound, contains_text-append, ℕ,
  zero, suc, ◌+◌, ◌-◌, ◌*◌, ◌/◌, ◌%◌, ◌^◌, ◌≤◌, ◌<◌, min, fun_ext, ◌≡◌, refl, sym, ap, ap₂, ◌∙◌,
  subst, ◌≢◌, ◌↔◌, ◌⊎◌, inl, inr, Bool, true, false, not, ◌&&◌, ◌||◌, Option, none, some, List, [],
  ◌∷◌, ◌++◌, map, reverse, arith,
}
use oida.Model.Data.{Trace}
use oida.Tracer.Snapshots.{Snapshot}
use oida.Model.Options.{Numerals, Options, int_eq}
use oida.Frontend.Rows.{SpanRow}
use oida.Frontend.Timeline.{Segment}
use oida.Frontend.MemoryGraph.{MemoryBudget}

-- What strings, strconv and net/url do. `query_of link` is Query().Get on the URL that `link` is
-- parsed into, `encode` is Values.Encode. The laws say that TrimSpace leaves nothing to trim, that
-- Atoi reads what Itoa writes and refuses an empty string, and that a link of a path and encoded
-- values has those values.
pub record Urls : Type 0 where
  pub lower : Text → Text
  pub trim : Text → Text
  pub atoi : Text → Option ℤ
  pub itoa : ℤ → Text
  pub encode : Map Text → Text
  pub path_escape : Text → Text
  pub query_of : Text → Text → Text
  pub trim-trim : (s : Text) → trim (trim s) ≡ trim s
  pub trim-empty : trim [] ≡ []
  pub atoi-itoa : (n : ℤ) → atoi (itoa n) ≡ some n
  pub atoi-empty : atoi [] ≡ none
  pub query_of-path :
      (path key : Text)
      → has_byte b'?' path ≡ false
      → has_byte b'#' path ≡ false
      → has_byte b'%' path ≡ false
      → query_of path key ≡ []
  pub query_of-encode :
      (path key : Text) (values : Map Text)
      → has_byte b'?' path ≡ false
      → has_byte b'#' path ≡ false
      → has_byte b'%' path ≡ false
      → query_of (path ++ bytes "?" ++ encode values) key
        ≡ (elim (lookup key values) [ none ↦ [] | some v ↦ v ])

pub data View : Type 0 where
  view_hosts view_list view_live view_stats view_detail view_login : View

-- `query key` is r.URL.Query().Get(key).
pub record PageRequest : Type 0 where
  pub query : Text → Text
  pub host : Text

abbrev pub sort_age : Text
sort_age = bytes "age"

abbrev pub sort_duration : Text
sort_duration = bytes "duration"

abbrev pub sort_spans : Text
sort_spans = bytes "spans"

abbrev pub sort_allocated : Text
sort_allocated = bytes "allocated"

abbrev pub sort_keys : List Text
sort_keys = sort_age ∷ sort_duration ∷ sort_spans ∷ sort_allocated ∷ []

abbrev pub first_limit : ℤ
first_limit = pos 20

abbrev pub limit_options : List ℤ
limit_options = first_limit ∷ pos 50 ∷ pos 100 ∷ pos 200 ∷ []

abbrev pub no_budget : MemoryBudget
no_budget = record {
  limit = pos 0;
  has_limit = false;
  used = pos 0;
  has_used = false;
  peak = pos 0;
  spans = false;
}

pub record Page : Type 0 where
  pub snapshot : Snapshot
  pub view : View
  pub path : Text
  pub title : Text
  pub limit : ℤ
  pub query : Text
  pub kind : Text
  pub host : Text
  pub request_host : Text
  pub status : Text
  pub sort : Text
  pub ascending : Bool
  pub refresh : ℤ
  pub stream : Bool
  pub slowest : ℤ
  pub feed : List Trace
  pub trace : Option Trace
  pub rows : List SpanRow
  pub segments : List Segment
  pub memory : MemoryBudget
  pub login_username : Text
  pub login_error : Text
  pub login_back : Text

-- The loop of requestedLimit.
pub offered_limit : ℤ → List ℤ → ℤ
offered_limit value [] = first_limit
offered_limit value (option ∷ options) =
    let rest = offered_limit value options in if int_eq option value then value else rest

pub requested_limit : Urls → PageRequest → ℤ
unfolding offered_limit
requested_limit u r = elim (u.atoi (r.query (bytes "limit"))) [
  | none ↦ first_limit
  | some value ↦ offered_limit value limit_options
]

-- The loop of requestedSort.
pub offered_sort : Text → List Text → Text
unfolding text_eq
offered_sort value [] = sort_age
offered_sort value (key ∷ keys) =
    let rest = offered_sort value keys in if text_eq key value then key else rest

pub requested_sort : PageRequest → Text
unfolding offered_sort
requested_sort r = offered_sort (r.query (bytes "sort")) sort_keys

pub requested_status : PageRequest → Text
unfolding text_eq
requested_status r =
    let value = r.query (bytes "status") in
    if text_eq value (bytes "error") || text_eq value (bytes "all") then value else bytes "all"

module _ {n : Numerals} {S : Type 0} (u : Urls) where
  unfoldable pub new_page : Options n S → Snapshot → View → PageRequest → Page
  unfolding requested_limit requested_sort requested_status text_eq
  new_page opts snapshot name r = record {
    snapshot = snapshot;
    view = name;
    path = opts.path;
    title = bytes "oida";
    limit = requested_limit u r;
    query = u.trim (r.query (bytes "q"));
    kind = let kind = u.trim (r.query (bytes "kind")) in if not (text_eq kind []) then kind else [];
    host = u.trim (r.query (bytes "host"));
    request_host = r.host;
    status = requested_status r;
    sort = requested_sort r;
    ascending = text_eq (r.query (bytes "order")) (bytes "asc");
    refresh = opts.refresh_interval;
    stream = if text_eq (r.query (bytes "stream")) (bytes "off") then false else opts.live_stream;
    slowest = pos 0;
    feed = [];
    trace = none;
    rows = [];
    segments = [];
    memory = no_budget;
    login_username = [];
    login_error = [];
    login_back = [];
  }

-- Being one of a list.
abbrev pub OneOf : {A : Type 0} → A → List A → Type 0
OneOf a [] = ⊥
OneOf a (b ∷ bs) = (a ≡ b) ⊎ OneOf a bs
