-- ===== src/Internal/RemoteAddress.antt =====
-- The address of a client, internal/remote_addr.go.
pub mod Hops
use oida.Prelude.{
  ltb, leb, ◌==◌, if◌then◌else◌, ltb→lt, lt→ltb, ==_iff, Bool-cases, Option-cases, if-split,
  sum_cases, length, get_or, set, take, drop, replicate, keep, All, length-append, length-set,
  length-replicate, length-take, get_or-set_self, get_or-set_ne, take-take, take_all,
  length-keep-le, get_or-append_lt, get_or-append_end, All-append, All-reverse, All-take,
  take-append_left, length-reverse, length-map, ℤ, pos, negsuc, pos_part, neg_part, sub_ℕ, ◌+ℤ◌,
  ◌≤ℤ◌, ◌<ℤ◌, ltb_ℤ, leb_ℤ, sub_ℕ_parts, +ℤ_parts, eq_of_parts, int_laws, Text, bytes, text_eq,
  text_eq_refl, text_eq_sound, text_eq_iff, has_prefix, cut_suffix, has_prefix_sound,
  has_prefix-append, cut_suffix_sound, cut_suffix-append, Map, lookup, insert, delete,
  lookup-insert, lookup-delete, lead, split, join, has_byte, cut, contains_text, split-piece,
  split_one, join-lead, join-split, contains_text_sound, contains_text-append, ℕ, zero, suc, ◌+◌,
  ◌-◌, ◌*◌, ◌/◌, ◌%◌, ◌^◌, ◌≤◌, ◌<◌, min, fun_ext, ◌≡◌, refl, sym, ap, ap₂, ◌∙◌, subst, ◌≢◌, ◌↔◌,
  ◌⊎◌, inl, inr, Bool, true, false, not, ◌&&◌, ◌||◌, Option, none, some, List, [], ◌∷◌, ◌++◌, map,
  reverse, arith,
}

-- net/netip and what the source takes from strings. `normal` is Unmap without a zone, and
-- `is_unusual` says that an address is mapped or has a zone.
pub record Parsing : Type 1 where
  pub Address : Type 0
  pub Network : Type 0
  pub must_parse_prefix : Text → Network
  pub contains : Network → Address → Bool
  pub parse_addr_port : Text → Option Address
  pub parse_addr : Text → Option Address
  pub normal : Address → Address
  pub is_unusual : Address → Bool
  pub print : Address → Text
  pub trim : Text → Text
  pub trim_quotes : Text → Text
  pub equal_fold : Text → Text → Bool

-- The headers Forwarded and X-Forwarded-For, by their values, and RemoteAddr.
pub record Request : Type 0 where
  pub forwarded : List Text
  pub x_forwarded_for : List Text
  pub remote : Text

abbrev trusted_ranges : List Text
trusted_ranges =
    bytes "10.0.0.0/8"
    ∷ bytes "172.16.0.0/12"
    ∷ bytes "192.168.0.0/16"
    ∷ bytes "127.0.0.0/8"
    ∷ bytes "169.254.0.0/16"
    ∷ bytes "::1/128"
    ∷ bytes "fc00::/7"
    ∷ bytes "fe80::/10"
    ∷ []

-- What stands in front of the last separator.
before_last : ℕ → Text → Option Text
unfolding has_byte
before_last sep [] = none
before_last sep (c ∷ s) =
    let rest = before_last sep s in
    elim rest [ some t ↦ some (c ∷ t) | none ↦ if c == sep then some [] else none ]

abbrev without_last : Text → Text
without_last s = take (length s - 1) s

host_only : Text → Text
unfolding before_last
host_only addr = elim (before_last b':' addr) [
  | none ↦ addr
  | some [] ↦ []
  | some (c ∷ host) ↦
      if c == b'[' && leb 1 (length host) && get_or host (length host - 1) 0 == b']'
      then without_last host
      else c ∷ host
]

-- strings.TrimPrefix and strings.TrimSuffix at one byte.
abbrev trim_open : Text → Text
trim_open [] = []
trim_open (c ∷ s) = if c == b'[' then s else c ∷ s

abbrev trim_close : Text → Text
trim_close s = if leb 1 (length s) && get_or s (length s - 1) 0 == b']' then without_last s else s

module _ (p : Parsing) where
  unfoldable pub parse_forwarded_addr : Text → Option p.Address
  unfolding text_eq
  parse_forwarded_addr given =
      let token = p.trim_quotes (p.trim given) in
      let bare = trim_close (trim_open token) in
      if text_eq token [] then none else elim (p.parse_addr_port token) [
        | some a ↦ some (p.normal a)
        | none ↦ elim (p.parse_addr bare) [ none ↦ none | some a ↦ some (p.normal a) ]
      ]

  -- One `key=value` of a Forwarded header.
  parse_pair : Text → Option p.Address
  unfolding parse_forwarded_addr cut
  parse_pair pair = elim (cut b'=' pair) [
    | none ↦ none
    | some (key, value) ↦
        if p.equal_fold (p.trim key) (bytes "for") then parse_forwarded_addr value else none
  ]

  abbrev pub or_skip : Option p.Address → List p.Address → List p.Address
  or_skip none rest = rest
  or_skip (some a) rest = a ∷ rest

  abbrev pub found : (Text → Option p.Address) → List Text → List p.Address
  found parse [] = []
  found parse (t ∷ ts) = or_skip (parse t) (found parse ts)

  forwarded_pairs : List Text → List p.Address
  unfolding parse_pair split
  forwarded_pairs [] = []
  forwarded_pairs (element ∷ elements) =
      found parse_pair (split b';' element) ++ forwarded_pairs elements

  pub forwarded_headers : List Text → List p.Address
  unfolding forwarded_pairs split
  forwarded_headers [] = []
  forwarded_headers (h ∷ hs) = forwarded_pairs (split b',' h) ++ forwarded_headers hs

  pub x_forwarded_headers : List Text → List p.Address
  unfolding parse_forwarded_addr split
  x_forwarded_headers [] = []
  x_forwarded_headers (h ∷ hs) = found parse_forwarded_addr (split b',' h) ++ x_forwarded_headers hs

  unfoldable pub forwarded_chain : Request → List p.Address
  unfolding forwarded_headers x_forwarded_headers
  forwarded_chain r = elim (forwarded_headers r.forwarded) [
    | [] ↦ x_forwarded_headers r.x_forwarded_for
    | a ∷ chain ↦ a ∷ chain
  ]

  abbrev in_any : List Text → p.Address → Bool
  in_any [] a = false
  in_any (n ∷ ns) a = p.contains (p.must_parse_prefix n) a || in_any ns a

  unfoldable pub trusted_addr : p.Address → Bool
  trusted_addr a = in_any trusted_ranges a

  -- The loop from the right, as the search for the last.
  pub last_untrusted : List p.Address → Option p.Address
  unfolding trusted_addr
  last_untrusted [] = none
  last_untrusted (a ∷ chain) =
      let rest = last_untrusted chain in
      elim rest [ some b ↦ some b | none ↦ if trusted_addr a then none else some a ]

  -- The request's own address.
  pub own_addr : Text → Text
  unfolding host_only parse_forwarded_addr
  own_addr remote = elim (p.parse_addr_port remote) [
    | some a ↦ if p.is_unusual a then p.print (p.normal a) else host_only remote
    | none ↦ elim (parse_forwarded_addr remote) [ none ↦ remote | some a ↦ p.print a ]
  ]

  -- The last untrusted hop, or else the first hop, or else the request's own address.
  abbrev pub chosen : Option p.Address → List p.Address → Text → Text
  chosen (some a) chain own = p.print a
  chosen none (a ∷ chain) own = p.print a
  chosen none [] own = own

  unfoldable pub remote_addr : Request → Text
  unfolding forwarded_chain last_untrusted own_addr
  remote_addr r =
      chosen (last_untrusted (forwarded_chain r)) (forwarded_chain r) (own_addr r.remote)
