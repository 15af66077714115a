-- ===== src/Tests/Links.antt =====
-- A spelling of numbers and of query parameters that undoes itself, and a page of traces.
use mathlib.Core.List.{append_assoc, append-nil}
use oida.Prelude.{
  if◌then◌else◌, keep, ℤ, pos, negsuc, pos_part, Text, bytes, text_eq, Map, lookup, has_byte, cut,
  cut-none, cut_at, ℕ, zero, suc, ◌<◌, ◌≤◌, ◌^◌, neg_part, ◌≡◌, refl, sym, ap, ◌∙◌, ◌≢◌, ◌↔◌, inl,
  inr, true, false, Option, none, some, [], ◌∷◌, ◌++◌, arith,
}
use oida.Model.Options.{new_options, Options}
use oida.Model.Data.{Value, Trace, zero_trace}
use oida.Tracer.Snapshots.{Snapshot, zero_snapshot, IsNewer}
use oida.Frontend.Page.{Urls, Page, PageRequest, new_page, view_list}
use oida.Frontend.Page.Links.{limit_url, status_url, host_url, sort_url}
use oida.Frontend.Page.Choices.{Filters, filters, IsUsable, new_page-IsUsable}
use oida.Frontend.Page.Following.{follow, filters-followed}
use oida.Frontend.Listing.{list_page, new_live_page, passes, filter, feed_rows}
use oida.Frontend.Listing.Filtering.{Passes, filter-Passes}
use oida.Frontend.Listing.Sorting.{InOrder}
use oida.Frontend.Listing.Feed.{IsFront, of_host, list_page-IsFront, live_page-IsFront}
use oida.Internal.Environment.Applying.{Driver}
use oida.Model.Attributes.{Reals}
use oida.Frontend.Page.Detail.{detail_page, detail_page-Ends}
use oida.Model.Cloning.Archive.{archived}
use oida.Model.History.Tree.{run-IsTree}
use oida.Tests.Traces.{request, print, options, calls}
use oida.Tests.Settings.{numerals}

-- A sign and the magnitude.
abbrev spell : ℤ → Text
spell (pos k) = 0 ∷ k ∷ []
spell (negsuc k) = 1 ∷ k ∷ []

abbrev read : Text → Option ℤ
read [] = none
read (zero ∷ k ∷ []) = some (pos k)
read (suc zero ∷ k ∷ []) = some (negsuc k)
read (c ∷ s) = none

read-spell : (n : ℤ) → read (spell n) ≡ some n
read-spell (pos k) = refl
read-spell (negsuc k) = refl

-- A text ends at a zero, and its bytes are one more than they are.
abbrev write_text : Text → Text → Text
write_text [] rest = 0 ∷ rest
write_text (c ∷ s) rest = suc c ∷ write_text s rest

abbrev write_map : Map Text → Text
write_map [] = []
write_map ((key, value) ∷ more) = write_text key (write_text value (write_map more))

-- The key that is read so far, if its end was met, and the text that is read.
abbrev read_map : Option Text → Text → Text → Map Text
read_map key so_far [] = []
read_map none so_far (zero ∷ s) = read_map (some so_far) [] s
read_map (some key) so_far (zero ∷ s) = (key, so_far) ∷ read_map none [] s
read_map key so_far (suc c ∷ s) = read_map key (so_far ++ (c ∷ [])) s

read_map-text :
    (key : Option Text) (so_far s rest : Text)
    → read_map key so_far (write_text s rest) ≡ read_map key (so_far ++ s) (0 ∷ rest)
read_map-text none so_far [] rest = ap (λ t. read_map none t (0 ∷ rest)) (sym (append-nil so_far))
read_map-text (some k) so_far [] rest =
    ap (λ t. read_map (some k) t (0 ∷ rest)) (sym (append-nil so_far))
read_map-text none so_far (c ∷ s) rest =
    read_map-text none (so_far ++ (c ∷ [])) s rest
    ∙ ap (λ t. read_map none t (0 ∷ rest)) (append_assoc so_far (c ∷ []) s)
read_map-text (some k) so_far (c ∷ s) rest =
    read_map-text (some k) (so_far ++ (c ∷ [])) s rest
    ∙ ap (λ t. read_map (some k) t (0 ∷ rest)) (append_assoc so_far (c ∷ []) s)

read_map-write_map : (m : Map Text) → read_map none [] (write_map m) ≡ m
read_map-write_map [] = refl
read_map-write_map ((key, value) ∷ more) =
    read_map-text none [] key (write_text value (write_map more))
    ∙ read_map-text (some key) [] value (write_map more)
    ∙ ap ((key, value) ∷◌) (read_map-write_map more)

abbrev value_at : Text → Map Text → Text
value_at key values = elim (lookup key values) [ none ↦ [] | some v ↦ v ]

abbrev part_value : Text → Option (Text × Text) → Text
part_value key none = []
part_value key (some (path, query)) = value_at key (read_map none [] query)

unfoldable query_value : Text → Text → Text
unfolding cut
query_value link key = part_value key (cut b'?' link)

query_value-path : (path key : Text) → has_byte b'?' path ≡ false → query_value path key ≡ []
unfolding query_value
query_value-path path key h = ap (part_value key) (cut-none b'?' path h)

query_value-encode :
    (path key : Text) (values : Map Text)
    → has_byte b'?' path ≡ false
    → query_value (path ++ bytes "?" ++ write_map values) key ≡ value_at key values
unfolding query_value
query_value-encode path key values h =
    ap (λ s. part_value key (cut b'?' s)) (append_assoc path (bytes "?") (write_map values))
    ∙ ap (part_value key) (cut_at b'?' path (write_map values) h)
    ∙ ap (value_at key) (read_map-write_map values)

-- Text is in lower case and without space around it.
abbrev urls : Urls
urls = record {
  lower = λ s. s;
  trim = λ s. s;
  atoi = read;
  itoa = spell;
  encode = write_map;
  path_escape = λ s. s;
  query_of = query_value;
  trim-trim = λ s. refl;
  trim-empty = refl;
  atoi-itoa = read-spell;
  atoi-empty = refl;
  query_of-path = λ path key h s c. query_value-path path key h;
  query_of-encode = λ path key values h s c. query_value-encode path key values h;
}

abbrev opts : Options numerals Driver
opts = new_options numerals Driver (bytes "shop")

-- A search for a word, slowest first.
abbrev asked : PageRequest
asked = record {
  query = λ key.
      if text_eq key (bytes "q")
      then bytes "select"
      else if text_eq key (bytes "sort")
      then bytes "duration"
      else if text_eq key (bytes "limit")
      then spell (pos 50)
      else [];
  host = bytes "shop.test";
}

abbrev quick : Trace
quick = record zero_trace {
  id = bytes "01Q";
  name = bytes "select one";
  started_at = 200;
  duration = pos 5;
}

abbrev slow : Trace
slow = record quick { id = bytes "01R"; started_at = 150; duration = pos 70 }

abbrev other : Trace
other = record quick { id = bytes "01S"; name = bytes "render"; started_at = 170 }

abbrev taken : Snapshot
taken = record zero_snapshot { live = other ∷ []; log = quick ∷ slow ∷ [] }

abbrev show : Value → Text
show v = bytes "?"

abbrev listed : Page
listed = new_page urls opts taken view_list asked

lists_slowest_first : (list_page urls show opts taken asked).snapshot.log ≡ slow ∷ quick ∷ []
unfolding list_page query_value new_page
lists_slowest_first = refl

new_page-IsUsable_example : IsUsable urls (filters listed)
new_page-IsUsable_example = new_page-IsUsable urls asked opts taken view_list

abbrev reached : Text → Filters
reached link = filters (new_page urls opts taken view_list (follow urls link (bytes "shop.test")))

filters-followed_example :
    (reached (limit_url urls listed (pos 100)) ≡ record (filters listed) { limit = pos 100 })
    × (reached (status_url urls listed (bytes "error"))
        ≡ record (filters listed) { status = bytes "error" })
    × (reached (host_url urls listed (bytes "a.test"))
        ≡ record (filters listed) { host = bytes "a.test" })
    × (reached (sort_url urls listed (bytes "duration"))
        ≡ record (filters listed) { sort = bytes "duration"; ascending = true })
unfolding new_page has_byte
filters-followed_example =
    filters-followed urls opts taken view_list (bytes "shop.test") listed (pos 100) (bytes "error")
      (bytes "a.test") (bytes "duration") (refl, refl, refl)
      (new_page-IsUsable urls asked opts taken view_list) (inr (inr (inl refl))) (inl refl) refl
      (inr (inl refl))

list_page-IsFront_example :
    let page = list_page urls show opts taken asked in
    IsFront
      (InOrder page.sort page.ascending)
      (pos_part page.limit)
      (keep (passes urls.lower show page) taken.log)
      page.snapshot.log
    × ((t : Trace) → (passes urls.lower show page t ≡ true) ↔ Passes urls.lower show page t)
list_page-IsFront_example = list_page-IsFront urls show opts taken asked

live_page-IsFront_example :
    let page = new_live_page urls show opts taken asked in
    IsFront IsNewer feed_rows (of_host page.host (taken.live ++ taken.log)) page.feed
live_page-IsFront_example = live_page-IsFront urls show opts taken asked

filter-Passes_example :
    (filter urls.lower show (quick ∷ other ∷ []) listed
      ≡ keep (passes urls.lower show listed) (quick ∷ other ∷ []))
    × ((t : Trace) → (passes urls.lower show listed t ≡ true) ↔ Passes urls.lower show listed t)
filter-Passes_example = filter-Passes urls.lower show listed (quick ∷ other ∷ [])

zero_bounded : (pos_part (pos 0) < 2 ^ 63) × (neg_part (pos 0) ≤ 2 ^ 63)
zero_bounded = (omega arith, omega arith)

-- No attribute is a float, and no text is a number.
abbrev reals : Reals
reals = record {
  Float = Unit;
  float_of = λ tag. none;
  is_nan = λ f. true;
  at_least_max = λ f. false;
  at_most_min = λ f. false;
  to_int = λ f. pos 0;
  parse_int = λ s. (pos 0, false);
  parse_int-bounded = λ s. zero_bounded;
  to_int-bounded = λ f a b c. zero_bounded;
}

detail_page-Ends_example :
    (p : Page) × ((fuel : ℕ)
      → request.sequence < fuel
      → detail_page reals urls opts taken asked fuel (archived request) ≡ some p)
    × (p.host ≢ [])
detail_page-Ends_example =
    detail_page-Ends reals urls opts taken asked request
      (run-IsTree print 100 (bytes "01A") (bytes "GET /") options calls)
