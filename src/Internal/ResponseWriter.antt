-- ===== src/Internal/ResponseWriter.antt =====
-- The response writer of the middleware, internal/response_writer.go. What the wrapped writer
-- answers is an argument; the headers forwarded to it are kept in order.
pub mod Answer
use oida.Prelude.{
  ltb, leb, ◌==◌, if◌then◌else◌, ltb→lt, lt→ltb, ==_iff, Bool-cases, Option-cases, if-split, length,
  get_or, set, take, drop, replicate, keep, All, length-append, length-set, length-replicate,
  length-take, get_or-set_self, get_or-set_ne, take-take, take_all, length-keep-le,
  get_or-append_lt, get_or-append_end, All-append, All-reverse, All-take, take-append_left,
  length-reverse, length-map, ℤ, pos, negsuc, pos_part, neg_part, sub_ℕ, ◌+ℤ◌, ◌≤ℤ◌, ◌<ℤ◌, ltb_ℤ,
  leb_ℤ, sub_ℕ_parts, +ℤ_parts, eq_of_parts, int_laws, Text, bytes, text_eq, text_eq_refl,
  text_eq_sound, text_eq_iff, has_prefix, cut_suffix, has_prefix_sound, has_prefix-append,
  cut_suffix_sound, cut_suffix-append, Map, lookup, insert, delete, lookup-insert, lookup-delete, ℕ,
  zero, suc, ◌+◌, ◌-◌, ◌*◌, ◌/◌, ◌%◌, ◌^◌, ◌≤◌, ◌<◌, min, fun_ext, ◌≡◌, refl, sym, ap, ap₂, ◌∙◌,
  subst, ◌≢◌, ◌↔◌, ◌⊎◌, inl, inr, Bool, true, false, not, ◌&&◌, ◌||◌, Option, none, some, List, [],
  ◌∷◌, ◌++◌, map, reverse, arith,
}
use oida.Model.State.{
  State, waiting, starting, reading, processing, writing, keepalive, closing, error, unknown,
  states, num_states, state_index, is_error, get_or-states, state_index-lt,
}
use oida.Model.Data.{
  Value, int, text, opaque, Attributes, GoError, HttpInfo, MemoryUse, MemCounters, LogEntry, Span,
  Box, Trace, TraceOptions, no_memory, no_counters, zero_span, zero_trace, span_at, span_list,
}
use oida.Model.Recording.{
  new_trace, add_at, enter, set_state, record_error, set_name, made, set_attribute, copy_into,
  set_attributes, attribute, set_http_info, no_http, answered, set_response, err, failed,
  span_count, elapsed, status, contains, kinds_from, kinds, has_kind,
}

pub record Writer : Type 0 where
  pub status : ℤ
  pub bytes : ℤ
  pub trace : Trace
  pub wrote : Bool
  pub forwarded : List ℤ

abbrev pub status_ok : ℤ
status_ok = pos 200

abbrev pub status_switching : ℤ
status_switching = pos 101

unfoldable pub new_response_writer : Trace → Writer
new_response_writer trace = record {
  status = status_ok;
  bytes = pos 0;
  trace = trace;
  wrote = false;
  forwarded = [];
}

pub write_header : ℕ → ℤ → Writer → Writer
write_header raw status w = if w.wrote then w else record w {
  wrote = true;
  status = status;
  trace = set_state raw writing w.trace;
  forwarded = w.forwarded ++ (status ∷ []);
}

-- `if !w.wrote { w.WriteHeader(http.StatusOK) }`
pub default_header : ℕ → Writer → Writer
unfolding write_header
default_header raw w = if not w.wrote then write_header raw status_ok w else w

-- Write and ReadFrom count what the wrapped writer took; the two branches of ReadFrom differ only
-- in who copies.
pub write : ℕ → ℕ → Writer → Writer
unfolding default_header
write raw n w = let w' = default_header raw w in record w' { bytes = w'.bytes +ℤ pos n }

-- How the wrapped writer answers a hijack.
pub data Hijacking : Type 0 where
  unsupported : Hijacking
  refused : GoError → Hijacking
  taken : Hijacking

pub hijack : ℕ → Hijacking → Writer → Writer
hijack raw unsupported w = w
hijack raw (refused e) w = w
hijack raw taken w =
    if not w.wrote
    then record w { wrote = true; status = status_switching; trace = set_state raw writing w.trace }
    else w

pub flush : ℕ → Writer → Writer
unfolding default_header
flush raw w = default_header raw w
