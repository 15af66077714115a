-- ===== src/Frontend/Format.antt =====
-- How figures and rows are worded and coloured, frontend/view/funcs.go.
pub mod Sizes
use oida.Prelude.{
  ltb, leb, ◌==◌, if◌then◌else◌, ltb→lt, lt→ltb, ==_iff, Bool-cases, Option-cases, if-split,
  sum_cases, length, get_or, set, take, drop, replicate, keep, All, length-append, length-set,
  length-replicate, length-take, get_or-set_self, get_or-set_ne, take-take, take_all,
  length-keep-le, get_or-append_lt, get_or-append_end, All-append, All-reverse, All-take,
  take-append_left, length-reverse, length-map, ℤ, pos, negsuc, pos_part, neg_part, sub_ℕ, ◌+ℤ◌,
  ◌≤ℤ◌, ◌<ℤ◌, ltb_ℤ, leb_ℤ, sub_ℕ_parts, +ℤ_parts, eq_of_parts, int_laws, Text, bytes, text_eq,
  text_eq_refl, text_eq_sound, text_eq_iff, has_prefix, cut_suffix, has_prefix_sound,
  has_prefix-append, cut_suffix_sound, cut_suffix-append, Map, lookup, insert, delete,
  lookup-insert, lookup-delete, lead, split, join, has_byte, cut, contains_text, split-piece,
  split_one, join-lead, split-append, join-split, contains_text_sound, contains_text-append, ℕ,
  zero, suc, ◌+◌, ◌-◌, ◌*◌, ◌/◌, ◌%◌, ◌^◌, ◌≤◌, ◌<◌, min, fun_ext, ◌≡◌, refl, sym, ap, ap₂, ◌∙◌,
  subst, ◌≢◌, ◌↔◌, ◌⊎◌, inl, inr, Bool, true, false, not, ◌&&◌, ◌||◌, Option, none, some, List, [],
  ◌∷◌, ◌++◌, map, reverse, arith,
}
use oida.Model.Data.{Trace, Value, Attributes}
use oida.Model.Attributes.{Reals, is_bytes, int64}
use oida.Model.Recording.{made}
use oida.Frontend.Listing.{attribute_text}
use oida.Model.State.{is_error}
use oida.Model.Statistics.Hosts.{HostStat}
use oida.Frontend.Rows.{SpanRow}

-- strconv.Itoa and the format %.1f of a quotient of two sizes.
pub record Figures : Type 0 where
  pub itoa : ℤ → Text
  pub tenths : ℕ → ℕ → Text

abbrev pub unit_size : ℕ
unit_size = 1024

-- The loop of bytesText: the divisor, the exponent and what is left to divide, on fuel.
pub scale : ℕ → ℕ → ℕ → ℕ → Option (ℕ × ℕ)
scale zero div exp value = none
scale (suc fuel) div exp value =
    let next = scale fuel (div * unit_size) (exp + 1) (value / unit_size) in
    if leb unit_size value then next else some (div, exp)

abbrev pub prefixes : Text
prefixes = bytes "KMGTPE"

-- `none` is the panic of an index out of range, or of the loop running out of fuel.
abbrev pub letter : ℕ → Text → Option ℕ
letter i [] = none
letter zero (c ∷ cs) = some c
letter (suc i) (c ∷ cs) = letter i cs

module _ (f : Figures) where
  plural : ℤ → Text → Text
  plural count unit =
      if pos_part count == 1 && neg_part count == 0
      then bytes "1 " ++ unit
      else f.itoa count ++ bytes " " ++ unit ++ bytes "s"

  pub bytes_text : ℕ → Option Text
  unfolding scale
  bytes_text n =
      if ltb n unit_size
      then some (f.itoa (pos n) ++ bytes " B")
      else elim (scale 7 unit_size 0 (n / unit_size)) [
        | none ↦ none
        | some (div, exp) ↦ elim (letter exp prefixes) [
          | none ↦ none
          | some c ↦ some (f.tenths n div ++ bytes " " ++ (c ∷ bytes "iB"))
        ]
      ]

  -- The negation of the lowest value is written out, as it has none in 64 bits.
  pub signed_bytes_text : ℤ → Option Text
  unfolding bytes_text
  signed_bytes_text (pos n) = bytes_text n
  signed_bytes_text (negsuc n) = elim (bytes_text (suc n)) [
    | none ↦ none
    | some s ↦ some (bytes "-" ++ s)
  ]

  unfoldable host_health : HostStat → Text
  unfolding plural
  host_health h =
      if h.errors == 0
      then bytes "no failures recorded"
      else plural (pos h.errors) (bytes "failure") ++ bytes " recorded"

-- attributeValue; a missing key is shown as a nil value is.
module _ (f : Figures) (r : Reals) (show : Value → Text) (nil_text : Text) where
  pub attribute_value : Attributes → Text → Option Text
  unfolding is_bytes int64 signed_bytes_text attribute_text
  attribute_value attributes key =
      let (size, is_number) = int64 r key attributes in
      let shown : Text = elim (lookup key (made attributes)) [
        | none ↦ nil_text
        | some v ↦ attribute_text show v
      ] in
      if is_bytes key && is_number then signed_bytes_text f size else some shown

-- value[len(value)-6:]
unfoldable short_id : Text → Text
short_id id = if leb (length id) 6 then id else drop (length id - 6) id

unfoldable remote_text : Trace → Text
unfolding text_eq
remote_text t = elim t.http [
  | none ↦ bytes "internal"
  | some h ↦ if text_eq h.remote_address [] then bytes "internal" else h.remote_address
]

status_dot : ℤ → Text
status_dot status =
    if leb_ℤ (pos 500) status
    then bytes "dot bad"
    else if leb_ℤ (pos 400) status
    then bytes "dot warn"
    else if leb_ℤ (pos 200) status
    then bytes "dot ok"
    else bytes "dot"

unfoldable trace_dot : Trace → Text
unfolding status_dot text_eq
trace_dot t =
    let own =
      if not (text_eq t.error_text []) || is_error t.state
      then bytes "dot bad"
      else bytes "dot ok" in
    elim t.http [
      | none ↦ own
      | some h ↦ if ltb_ℤ (pos 0) h.status then status_dot h.status else own
    ]

unfoldable host_dot : HostStat → Text
host_dot h = if ltb 0 h.errors then bytes "dot bad" else bytes "dot ok"

unfoldable status_class : ℤ → Text
status_class status =
    if leb_ℤ (pos 500) status
    then bytes "status s5xx"
    else if leb_ℤ (pos 400) status
    then bytes "status s4xx"
    else if leb_ℤ (pos 300) status
    then bytes "status s3xx"
    else if leb_ℤ (pos 200) status
    then bytes "status s2xx"
    else bytes "status"

unfoldable pub recent : List Trace → ℤ → List Trace
recent traces n =
    if ltb_ℤ (pos 0) n && ltb_ℤ n (pos (length traces)) then take (pos_part n) traces else traces

-- truncate of frontend/view/text.go; `ellipsis` is the mark of the cut.
unfoldable truncate : Text → Text → ℕ → Text
truncate ellipsis value width =
    if leb (length value) width
    then value
    else if leb width 1
    then take width value
    else take (width - 1) value ++ ellipsis
