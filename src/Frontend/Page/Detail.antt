-- ===== src/Frontend/Page/Detail.antt =====
-- The page of one trace, serveDetail of frontend/handler.go once the trace is found, and the lines
-- of its log, frontend/view/logs.go. The rows are on fuel, as in Frontend.Rows.
use mathlib.Core.Bool.{true≢false}
use oida.Prelude.{
  ◌==◌, if◌then◌else◌, if-split, length, ℤ, pos, sub_ℕ, Text, bytes, text_eq, text_eq_iff, ℕ, ◌<◌,
  ◌≡◌, sym, ap, ◌∙◌, ◌≢◌, Option, none, some, List, [],
}
use oida.Model.Data.{Span, LogEntry, Trace, span_list}
use oida.Model.Logs.{level_error, level_warn}
use oida.Model.Cloning.Archive.{archived}
use oida.Model.History.Shape.{IsTree}
use oida.Frontend.Rows.Walking.{rows-Ends}
use oida.Model.Spans.{find_span}
use oida.Model.Options.{Numerals, Options}
use oida.Model.Statistics.Tallies.{trace_host}
use oida.Tracer.Snapshots.{Snapshot}
use oida.Frontend.Rows.{rows, SpanRow}
use oida.Model.Attributes.{Reals}
use oida.Frontend.MemoryGraph.{trace_memory}
use oida.Frontend.Timeline.{timeline}
use oida.Frontend.Page.{Urls, view_detail, PageRequest, Page, new_page}

-- A trace names its host whether or not the reader chose one.
abbrev laid_out : Reals → Page → Trace → List SpanRow → Page
laid_out reals page t laid = record page {
  host = if text_eq page.host [] then trace_host t else page.host;
  trace = some t;
  rows = laid;
  segments = timeline t;
  memory = trace_memory reals t laid;
  title = t.name;
  refresh = pos 0;
}

pub detail_page :
    {n : Numerals} {S : Type 0}
    → Reals
    → Urls
    → Options n S
    → Snapshot
    → PageRequest
    → ℕ
    → Trace
    → Option Page
unfolding new_page rows timeline trace_memory text_eq
detail_page reals u opts snapshot r fuel t = elim (rows fuel t) [
  | none ↦ none
  | some laid ↦ some (laid_out reals (new_page u opts snapshot view_detail r) t laid)
]

unfoldable log_count : Page → ℕ
log_count p = elim p.trace [ none ↦ 0 | some t ↦ length t.logs ]

log_span : Page → LogEntry → Option Span
unfolding find_span
log_span p entry = elim p.trace [ none ↦ none | some t ↦ find_span entry.span_id (span_list t) ]

unfoldable log_span_name : Page → LogEntry → Text
unfolding log_span
log_span_name p entry = elim (log_span p entry) [ none ↦ [] | some s ↦ s.name ]

-- A time of zero is the zero time.
unfoldable log_offset : Page → LogEntry → ℤ
log_offset p entry = elim p.trace [
  | none ↦ pos 0
  | some t ↦ if entry.at == 0 then pos 0 else sub_ℕ entry.at t.started_at
]

unfoldable log_level_class : Text → Text
unfolding text_eq
log_level_class level =
    if text_eq level level_error
    then bytes "log-level log-level-error"
    else if text_eq level level_warn
    then bytes "log-level log-level-warn"
    else bytes "log-level"

trace_host-nonempty : (t : Trace) → trace_host t ≢ []
unfolding text_eq
trace_host-nonempty t = elim t.http as (λ h. trace_host (record t { http = h }) ≢ []) [
  | none ↦ λ e. cc e
  | some h ↦
      if-split (λ (s : Text). s ≢ []) (text_eq h.host []) (λ _ e. cc e)
        (λ n e. absurd (true≢false (sym ((text_eq_iff h.host []).1 e) ∙ n)))
]

-- For the archived form of a trace whose spans form a tree, as after any history of calls, the
-- page of the trace is laid out, and the same page comes with any fuel above the number of spans
-- that were started; the page names a host.
pub detail_page-Ends :
    {n : Numerals} {S : Type 0} (reals : Reals) (u : Urls) (opts : Options n S)
    (snapshot : Snapshot) (r : PageRequest) (t : Trace)
    → IsTree t
    → (p : Page) × ((fuel : ℕ)
        → t.sequence < fuel
        → detail_page reals u opts snapshot r fuel (archived t) ≡ some p)
      × (p.host ≢ [])
unfolding detail_page
detail_page-Ends reals u opts snapshot r t h =
    let (found, laid) = rows-Ends t h in
    let page = new_page u opts snapshot view_detail r in
    (
      laid_out reals page (archived t) found,
      λ fuel f.
          ap
            (λ o. elim o as (λ x. Option Page) [
              | none ↦ none
              | some found ↦ some (laid_out reals page (archived t) found)
            ])
            (laid fuel f),
      if-split (λ (s : Text). s ≢ []) (text_eq page.host []) (λ _. trace_host-nonempty (archived t))
          (λ k e. absurd (true≢false (sym ((text_eq_iff page.host []).1 e) ∙ k))),
    )
