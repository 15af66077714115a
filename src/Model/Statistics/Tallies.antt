-- ===== src/Model/Statistics/Tallies.antt =====
-- The groups of a window and what they add up to, the loop of Statistics in model/stats.go. A share
-- or an average that the program keeps as a float is the two numbers it is the quotient of. Sums of
-- 64-bit words wrap; durations are unbounded.
use oida.Prelude.{
  if◌then◌else◌, length, ℤ, pos, negsuc, pos_part, sub_ℕ, ◌+ℤ◌, ltb_ℤ, Text, bytes, text_eq, Map,
  lookup, insert, ℕ, suc, ◌+◌, ◌*◌, ◌/◌, ◌%◌, ◌^◌, Bool, not, ◌||◌, none, some, List, [], ◌∷◌, ◌++◌,
}
use oida.Model.Data.{Trace}
use oida.Model.State.{is_error}

-- What a group of traces has added up to so far.
pub record Statistic : Type 0 where
  pub name : Text
  pub host : Text
  pub count : ℕ
  pub errors : ℕ
  pub total_duration : ℤ
  pub max_duration : ℤ
  pub total_response_bytes : ℕ
  pub total_allocated : ℕ
  pub total_spans : ℕ

pub record Ratio : Type 0 where
  pub part : ℕ
  pub whole : ℕ

-- A group with its averages.
pub record Averaged : Type 0 where
  pub statistic : Statistic
  pub share : Ratio
  pub average_duration : ℤ
  pub average_response_bytes : ℕ
  pub average_allocated_bytes : ℕ
  pub average_spans : Ratio

abbrev pub background_host : Text
background_host = bytes "internal"

-- The pointer of TraceHost is never nil here.
abbrev pub trace_host : Trace → Text
trace_host t = elim t.http [
  | none ↦ background_host
  | some h ↦ if text_eq h.host [] then background_host else h.host
]

-- The name and the host of a trace's group.
abbrev pub group_key : Trace → Text × Text
group_key t = elim t.http [
  | none ↦ (t.name, [])
  | some h ↦
      if not (text_eq h.route [])
      then (h.method ++ bytes " " ++ h.route, h.host)
      else (t.name, h.host)
]

-- `host + "\x00" + name`
abbrev pub key_of : Trace → Text
key_of t = (group_key t).1 ++ (0 ∷ (group_key t).0)

abbrev pub has_failed : Trace → Bool
has_failed t = not (text_eq t.error_text []) || is_error t.state

abbrev pub max_ℤ : ℤ → ℤ → ℤ
max_ℤ a b = if ltb_ℤ a b then b else a

-- The division of Go, which rounds towards zero.
abbrev pub quotient : ℤ → ℕ → ℤ
quotient (pos n) k = pos (n / k)
quotient (negsuc n) k = sub_ℕ 0 (suc n / k)

abbrev pub response_bytes_of : Trace → ℕ
response_bytes_of t = elim t.http [ none ↦ 0 | some h ↦ pos_part h.response_bytes ]

abbrev pub new_statistic : Trace → Statistic
new_statistic t = record {
  name = (group_key t).0;
  host = (group_key t).1;
  count = 0;
  errors = 0;
  total_duration = pos 0;
  max_duration = pos 0;
  total_response_bytes = 0;
  total_allocated = 0;
  total_spans = 0;
}

-- The body of the loop over the window, for the group that the trace is in.
unfoldable pub tally : Trace → Statistic → Statistic
unfolding ◌+ℤ◌ text_eq
tally t s = record s {
  count = s.count + 1;
  errors = if has_failed t then s.errors + 1 else s.errors;
  total_duration = s.total_duration +ℤ t.duration;
  max_duration = max_ℤ s.max_duration t.duration;
  total_response_bytes = (s.total_response_bytes + response_bytes_of t) % 2 ^ 64;
  total_allocated = (s.total_allocated + t.memory.allocated_bytes) % 2 ^ 64;
  total_spans = (s.total_spans + length t.spans) % 2 ^ 64;
}

-- The groups in the order in which the window names them first.
unfoldable pub group_trace : Trace → Map Statistic → Map Statistic
unfolding tally lookup insert
group_trace t groups =
    let s : Statistic = elim (lookup (key_of t) groups) [ none ↦ new_statistic t | some s ↦ s ] in
    insert (key_of t) (tally t s) groups

unfoldable pub group_all : List Trace → Map Statistic → Map Statistic
unfolding group_trace
group_all [] groups = groups
group_all (t ∷ ts) groups = group_all ts (group_trace t groups)

unfoldable pub averaged : ℕ → Statistic → Averaged
averaged window s = record {
  statistic = s;
  share = record { part = s.count * 100; whole = window };
  average_duration = quotient s.total_duration s.count;
  average_response_bytes = s.total_response_bytes / s.count;
  average_allocated_bytes = s.total_allocated / s.count;
  average_spans = record { part = s.total_spans; whole = s.count };
}
