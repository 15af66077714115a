-- ===== src/Tests/Views.antt =====
-- The statistics of two traces, and the rows of a trace.
use oida.Prelude.{
  refl, length, keep, pos, bytes, lookup, ◌≡◌, ◌⊎◌, none, some, List, [], ◌∷◌, text_eq, arith,
}
use oida.Model.Data.{Trace}
use oida.Model.Statistics.Tallies.{Statistic, Averaged, group_all, key_of, has_failed}
use oida.Model.Statistics.Sorting.{limited_to}
use oida.Model.Statistics.Report.{statistics}
use oida.Model.Statistics.Groups.{of_group, IsTally, lookup-IsTally}
use oida.Model.Statistics.Totals.{total, IsRanked, statistics-ranking}
use oida.Frontend.Timeline.{timeline}
use oida.Frontend.Timeline.Coverage.{any_of, in_segment}
use oida.Frontend.Timeline.Moments.{is_running, timeline-covers}
use oida.Model.Data.{zero_trace, zero_span, span_list}
use oida.Model.Spans.{kind_http}
use oida.Tests.Traces.{spent}

abbrev window : List Trace
window = spent ∷ record spent { name = bytes "job"; error_text = bytes "boom" } ∷ spent ∷ []

lookup-IsTally_example :
    ((of_group (key_of spent) window ≡ []) × (lookup (key_of spent) (group_all window []) ≡ none))
    ⊎ ((s : Statistic) × (lookup (key_of spent) (group_all window []) ≡ some s)
        × IsTally (key_of spent) (of_group (key_of spent) window) s)
lookup-IsTally_example = lookup-IsTally window (key_of spent)

statistics-ranking_example :
    (ranking : List Averaged) × ((statistics window (pos 3) (pos 1) []).top
      ≡ limited_to (pos 1) ranking)
    × IsRanked ranking
    × (total (λ e. e.statistic.count) ranking ≡ 3)
    × (total (λ e. e.statistic.errors) ranking ≡ length (keep has_failed window))
statistics-ranking_example = statistics-ranking window (pos 3) (pos 1) []

-- A query inside of a request.
abbrev shown : Trace
shown = record zero_trace {
  started_at = 100;
  duration = pos 50;
  store =
      record zero_span { id = 1; kind = kind_http; started_at = 100; duration = pos 50 }
      ∷ record zero_span {
        id = 2;
        kind = bytes "job";
        depth = 1;
        started_at = 105;
        duration = pos 20;
      }
      ∷ record zero_span {
        id = 3;
        kind = bytes "query";
        depth = 2;
        started_at = 110;
        duration = pos 5;
      }
      ∷ [];
  spans = 0 ∷ 1 ∷ 2 ∷ [];
}

three_segments :
    timeline shown
    ≡ record { kind = bytes "job"; offset = 5; duration = 5 }
      ∷ record { kind = bytes "query"; offset = 10; duration = 5 }
      ∷ record { kind = bytes "job"; offset = 15; duration = 10 }
      ∷ []
unfolding timeline text_eq
three_segments = refl

timeline-covers_example :
    any_of (in_segment 12) (timeline shown) ≡ any_of (is_running 112) (span_list shown)
timeline-covers_example = timeline-covers shown 12 (omega arith)
