-- ===== src/Model/Statistics/Report.antt =====
-- What Statistics in model/stats.go returns.
use oida.Prelude.{
  ltb, ◌==◌, if◌then◌else◌, length, ℤ, ltb_ℤ, text_eq, Map, ℕ, Bool, not, ◌&&◌, List, [], map,
}
use oida.Model.Data.{Trace}
use oida.Model.Statistics.Tallies.{Averaged, group_all, averaged}
use oida.Model.Statistics.Sorting.{text_before, sort_stable, limited_to}
use oida.Model.Statistics.Hosts.{HostAverages, host_statistics}

pub record Stats : Type 0 where
  pub window_size : ℕ
  pub window_limit : ℤ
  pub top_limit : ℤ
  pub top : List Averaged
  pub hosts : List HostAverages

abbrev int_same : ℤ → ℤ → Bool
int_same a b = not (ltb_ℤ a b) && not (ltb_ℤ b a)

unfoldable pub group_before : Averaged → Averaged → Bool
unfolding text_before text_eq
group_before a b =
    let l = a.statistic in
    let r = b.statistic in
    if not (l.count == r.count)
    then ltb r.count l.count
    else if not (int_same l.total_duration r.total_duration)
    then ltb_ℤ r.total_duration l.total_duration
    else if not (text_eq l.name r.name)
    then text_before l.name r.name
    else text_before l.host r.host

unfoldable pub statistics : List Trace → ℤ → ℤ → Map ℕ → Stats
unfolding host_statistics group_all averaged group_before sort_stable
statistics window window_limit top_limit requests = record {
  window_size = length window;
  window_limit = window_limit;
  top_limit = top_limit;
  top = limited_to top_limit (
      sort_stable group_before
        (map (λ entry. averaged (length window) entry.1) (group_all window [])));
  hosts = host_statistics window requests;
}
