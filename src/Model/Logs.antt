-- ===== src/Model/Logs.antt =====
-- Log lines of a trace, model/log.go, model/logentry.go and the log methods of model/trace.go and
-- model/span.go. `sprint` is fmt.Sprint, which the program does not implement.
use oida.Prelude.{
  ◌==◌, if◌then◌else◌, length, Text, bytes, Map, insert, ℕ, ◌+◌, none, some, List, [], ◌∷◌, ◌++◌,
}
use oida.Model.Data.{Value, int, text, opaque, Attributes, Trace, span_at}
use oida.Model.Clock.{time}
use oida.Model.Recording.{record_error}
use oida.Model.Spans.{at_limit, open_span, record_span_error}

abbrev pub level_info : Text
level_info = bytes "info"

abbrev pub level_warn : Text
level_warn = bytes "warn"

abbrev pub level_error : Text
level_error = bytes "error"

abbrev pub bad_key : Text
bad_key = bytes "!BADKEY"

module _ (sprint : Value → Text) where
  -- A key that is a string stands for itself.
  pub key_text : Value → Text
  key_text (text s) = s
  key_text (int n) = sprint (int n)
  key_text (opaque n) = sprint (opaque n)

  -- The loop of logAttributes, over what is left of the arguments.
  pub pairs_into : Map Value → List Value → Map Value
  unfolding key_text
  pairs_into m [] = m
  pairs_into m (v ∷ []) = insert bad_key v m
  pairs_into m (k ∷ v ∷ args) = pairs_into (insert (key_text k) v m) args

  pub log_attributes : List Value → Attributes
  unfolding pairs_into
  log_attributes [] = none
  log_attributes (v ∷ args) = some (pairs_into [] (v ∷ args))

  -- The loop of formatLogText.
  pub pairs_text : List Value → Text
  pairs_text [] = []
  pairs_text (v ∷ []) = bytes " !BADKEY=" ++ sprint v
  pairs_text (k ∷ v ∷ args) =
      bytes " " ++ (sprint k ++ (bytes "=" ++ (sprint v ++ pairs_text args)))

  pub format_log_text : Text → List Value → Text
  unfolding pairs_text
  format_log_text message args = message ++ pairs_text args

  -- A span ID of zero means the innermost open span.
  pub attributed : ℕ → Trace → ℕ
  unfolding open_span
  attributed span_id t =
      let inner : ℕ = elim (open_span t) [ none ↦ span_id | some i ↦ (span_at i t).id ] in
      if span_id == 0 then inner else span_id

  unfoldable pub write_log : ℕ → Text → ℕ → Text → List Value → Trace → Trace
  unfolding time attributed log_attributes
  write_log raw level span_id message args t =
      let (now, t') = time raw t in
      record t' {
        logs =
            t.logs
            ++ (record {
              at = now;
              level = level;
              message = message;
              span_id = attributed span_id t;
              request_id = t.id;
              attributes = log_attributes args;
            }
                ∷ []);
        updated_at = now;
      }

  unfoldable pub append_log : ℕ → Text → ℕ → Text → List Value → Trace → Trace
  unfolding write_log at_limit
  append_log raw level span_id message args t =
      if t.finished
      then t
      else if at_limit t.max_spans (length t.logs)
      then record t { dropped_logs = t.dropped_logs + 1 }
      else write_log raw level span_id message args t

  unfoldable pub info : ℕ → Text → List Value → Trace → Trace
  unfolding append_log
  info raw message args t = if t.capture_logs then append_log raw level_info 0 message args t else t

  unfoldable pub warn : ℕ → Text → List Value → Trace → Trace
  unfolding append_log
  warn raw message args t = if t.capture_logs then append_log raw level_warn 0 message args t else t

  -- Trace.Error. With log capture off the text goes to the innermost open span, or to the trace.
  unfoldable pub error_line : ℕ → Text → List Value → Trace → Trace
  unfolding append_log format_log_text open_span record_span_error record_error
  error_line raw message args t =
      let e = some (record { identity = 0; message = format_log_text message args }) in
      let fallback : Trace = elim (open_span t) [
        | none ↦ record_error raw e t
        | some i ↦ record_span_error raw e i t
      ] in
      if t.capture_logs then append_log raw level_error 0 message args t else fallback
