-- ===== src/Model/Options.antt =====
-- The options of a tracer, model/options.go: their defaults and what makes them usable. A field
-- that holds a function is an opaque value here; only whether it is set matters.
use oida.Prelude.{
  ltb, leb, ◌==◌, if◌then◌else◌, ltb→lt, lt→ltb, ==_iff, Bool-cases, Option-cases, if-split,
  sum_cases, length, get_or, set, take, drop, replicate, keep, All, length-append, length-set,
  length-replicate, length-take, get_or-set_self, get_or-set_ne, take-take, take_all,
  length-keep-le, get_or-append_lt, get_or-append_end, All-append, All-reverse, All-take,
  take-append_left, length-reverse, length-map, ℤ, pos, negsuc, pos_part, neg_part, sub_ℕ, ◌+ℤ◌,
  ◌≤ℤ◌, ◌<ℤ◌, ltb_ℤ, leb_ℤ, sub_ℕ_parts, +ℤ_parts, eq_of_parts, int_laws, Text, bytes, text_eq,
  text_eq_refl, text_eq_sound, text_eq_iff, has_prefix, cut_suffix, has_prefix_sound,
  has_prefix-append, cut_suffix_sound, cut_suffix-append, Map, lookup, insert, delete,
  lookup-insert, lookup-delete, lead, split, join, has_byte, cut, contains_text, split-piece,
  split_one, join-lead, join-split, contains_text_sound, contains_text-append, ℕ, zero, suc, ◌+◌,
  ◌-◌, ◌*◌, ◌/◌, ◌%◌, ◌^◌, ◌≤◌, ◌<◌, min, fun_ext, ◌≡◌, refl, sym, ap, ap₂, ◌∙◌, subst, ◌≢◌, ◌↔◌,
  ◌⊎◌, inl, inr, Bool, true, false, not, ◌&&◌, ◌||◌, Option, none, some, List, [], ◌∷◌, ◌++◌, map,
  reverse, arith,
}
use oida.Model.Data.{GoError}
pub mod Defaults

-- Floating-point numbers, and what parses and prints values. The laws are those of the two
-- bounds of a sample rate.
pub record Numerals : Type 1 where
  pub Float : Type 0
  pub zero_rate : Float
  pub full_rate : Float
  pub is_nan : Float → Bool
  pub lower_than : Float → Float → Bool
  pub equals : Float → Float → Bool
  pub parse_float : Text → Option Float
  pub parse_int : Text → Option ℤ
  pub parse_bool : Text → Option Bool
  pub parse_duration : Text → Option ℤ
  pub is_cidr : Text → Bool
  pub trim : Text → Text
  -- The format %q.
  pub quote : Text → Text
  pub trim-empty : trim [] ≡ []
  pub full-not_zero : lower_than full_rate zero_rate ≡ false
  pub lower_than-irreflexive : (r : Float) → lower_than r r ≡ false
  pub bounds-numbers : (is_nan zero_rate ≡ false) × (is_nan full_rate ≡ false)

pub data OptionError : Type 0 where
  invalid_path invalid_sample_rate : OptionError
  invalid_option : Text → Text → OptionError
  other : GoError → OptionError

abbrev pub default_path : Text
default_path = bytes "/debug/oida"

abbrev pub default_ignores : List Text
default_ignores = bytes "/healthz" ∷ bytes "/readyz" ∷ bytes "/metrics" ∷ bytes "/favicon.ico" ∷ []

abbrev pub int_eq : ℤ → ℤ → Bool
int_eq a b = pos_part a == pos_part b && neg_part a == neg_part b

pub int_eq_iff : (a b : ℤ) → (int_eq a b ≡ true) ↔ (a ≡ b)
int_eq_iff a b = (
  λ h.
      eq_of_parts a b
        (ground (arith, ==_iff (pos_part a) (pos_part b), ==_iff (neg_part a) (neg_part b))),
  λ e. rw e (ground (arith, ==_iff (pos_part b) (pos_part b), ==_iff (neg_part b) (neg_part b))),
)

abbrev pub negative : ℤ → Bool
negative a = ltb_ℤ a (pos 0)

abbrev pub is_set : {A : Type 0} → Option A → Bool
is_set none = false
is_set (some a) = true

-- `Storage` is the type of the retention drivers. Nil lists and maps are `none`.
module _ (p : Numerals) (Storage : Type 0) where
  pub record Options : Type 0 where
    pub path : Text
    pub service_name : Text
    pub enabled : Bool
    pub ring_buffer_size : ℤ
    pub top_requests : ℤ
    pub max_spans_per_trace : ℤ
    pub debug_span_min_duration : ℤ
    pub sample_rate : p.Float
    pub track_memory_use : Bool
    pub trust_request_id : Bool
    pub ignore_paths : Option (List Text)
    pub refresh_interval : ℤ
    pub live_stream : Bool
    pub capture_logs : Bool
    pub read_env : Bool
    pub sampler : Option ℕ
    pub storage : Option Storage
    pub route_func : Option ℕ
    pub on_error : Option ℕ
    pub authorize : Option ℕ
    pub clock : Option ℕ
    pub allowed_networks : Option (List Text)
    pub users : Option (Map Text)
    pub users_file : Text
    pub signing_secret : Text
    pub authorize_user : Option ℕ
    pub initialized : Bool

  abbrev pub new_options : Text → Options
  new_options service_name = record {
    path = default_path;
    service_name = service_name;
    enabled = false;
    ring_buffer_size = pos 200;
    top_requests = pos 20;
    max_spans_per_trace = pos 1000;
    debug_span_min_duration = pos 1000;
    sample_rate = p.full_rate;
    track_memory_use = true;
    trust_request_id = false;
    ignore_paths = some default_ignores;
    refresh_interval = pos 5;
    live_stream = true;
    capture_logs = true;
    read_env = true;
    sampler = none;
    storage = none;
    route_func = none;
    on_error = none;
    authorize = none;
    clock = none;
    allowed_networks = none;
    users = none;
    users_file = [];
    signing_secret = [];
    authorize_user = none;
    initialized = true;
  }

  -- A number that an uninitialized value leaves at zero.
  abbrev number_or : Bool → ℤ → ℤ → ℤ
  number_or initialized default n = if not initialized && int_eq n (pos 0) then default else n

  abbrev pub trimmed_path : Text → Text
  trimmed_path path =
      let given = if text_eq path [] then default_path else path in
      elim (cut_suffix (bytes "/") given) [ none ↦ given | some rest ↦ rest ]

  -- `time_now` stands for time.Now.
  unfoldable pub with_defaults : ℕ → Options → Options
  unfolding text_eq cut_suffix
  with_defaults time_now o = record o {
    path = trimmed_path o.path;
    ring_buffer_size = number_or o.initialized (pos 200) o.ring_buffer_size;
    top_requests = number_or o.initialized (pos 20) o.top_requests;
    max_spans_per_trace = number_or o.initialized (pos 1000) o.max_spans_per_trace;
    debug_span_min_duration = number_or o.initialized (pos 1000) o.debug_span_min_duration;
    sample_rate =
        if not o.initialized && p.equals o.sample_rate p.zero_rate && not (is_set o.sampler)
        then p.full_rate
        else o.sample_rate;
    refresh_interval = number_or o.initialized (pos 5) o.refresh_interval;
    ignore_paths = elim o.ignore_paths [ none ↦ some default_ignores | some ps ↦ some ps ];
    clock = elim o.clock [ none ↦ some time_now | some c ↦ some c ];
    initialized = true;
  }

  -- The first of the networks that is not a CIDR prefix.
  bad_network : List Text → Option Text
  bad_network [] = none
  bad_network (n ∷ ns) = let rest = bad_network ns in if p.is_cidr (p.trim n) then rest else some n

  -- `none` is a usable value.
  unfoldable validate : Options → Option OptionError
  unfolding bad_network has_prefix text_eq
  validate o =
      let refused : Text → Option OptionError =
        λ field. some (invalid_option field (bytes "must not be negative")) in
      if text_eq o.path [] || not (has_prefix (bytes "/") o.path)
      then some invalid_path
      else if p.is_nan o.sample_rate
          || p.lower_than o.sample_rate p.zero_rate
          || p.lower_than p.full_rate o.sample_rate
      then some invalid_sample_rate
      else if negative o.ring_buffer_size
      then refused (bytes "ring_buffer_size")
      else if negative o.top_requests
      then refused (bytes "top_requests")
      else if negative o.max_spans_per_trace
      then refused (bytes "max_spans_per_trace")
      else if negative o.debug_span_min_duration
      then refused (bytes "debug_span_min_duration")
      else if negative o.refresh_interval
      then refused (bytes "refresh_interval")
      else elim o.allowed_networks [
        | none ↦ none
        | some ns ↦ elim (bad_network ns) [
          | none ↦ none
          | some n ↦ some (
              invalid_option (bytes "allowed_networks")
                (p.quote n ++ bytes " is not a CIDR prefix"))
        ]
      ]
