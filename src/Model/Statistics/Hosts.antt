-- ===== src/Model/Statistics/Hosts.antt =====
-- The statistics by host, hostStatistics in model/stats.go.
use oida.Prelude.{
  ltb, ◌==◌, if◌then◌else◌, length, ℤ, pos, ◌+ℤ◌, Text, text_eq, Map, lookup, insert, ℕ, ◌+◌, ◌*◌,
  ◌%◌, ◌^◌, Bool, false, not, ◌||◌, none, some, List, [], ◌∷◌, map,
}
use oida.Model.Data.{Trace}
use oida.Model.Statistics.Tallies.{Ratio, trace_host, group_key, has_failed, max_ℤ, quotient}
use oida.Model.Statistics.Sorting.{text_before, sort_stable}

pub record HostStat : Type 0 where
  pub host : Text
  pub requests : ℕ
  pub traces : ℕ
  pub errors : ℕ
  pub total_duration : ℤ
  pub max_duration : ℤ
  pub spans : ℕ
  pub routes : List Text

-- A host with its averages, which a host without traces has as zero.
pub record HostAverages : Type 0 where
  pub stat : HostStat
  pub share : Ratio
  pub average_duration : ℤ

host_before : HostStat → HostStat → Bool
unfolding text_before
host_before a b =
    if not (a.requests == b.requests)
    then ltb b.requests a.requests
    else if not (a.traces == b.traces)
    then ltb b.traces a.traces
    else text_before a.host b.host

new_host : Text → HostStat
new_host name = record {
  host = name;
  requests = 0;
  traces = 0;
  errors = 0;
  total_duration = pos 0;
  max_duration = pos 0;
  spans = 0;
  routes = [];
}

add_requests : Map ℕ → Map HostStat → Map HostStat
unfolding insert new_host
add_requests [] hosts = hosts
add_requests ((name, count) ∷ requests) hosts =
    add_requests requests (insert name (record (new_host name) { requests = count }) hosts)

abbrev member : Text → List Text → Bool
member s [] = false
member s (t ∷ ts) = text_eq t s || member s ts

host_trace : Trace → Map HostStat → Map HostStat
unfolding lookup insert new_host ◌+ℤ◌ text_eq
host_trace t hosts =
    let name = trace_host t in
    let s : HostStat = elim (lookup name hosts) [ none ↦ new_host name | some s ↦ s ] in
    let route = (group_key t).0 in
    insert name
      (record s {
        traces = s.traces + 1;
        errors = if has_failed t then s.errors + 1 else s.errors;
        total_duration = s.total_duration +ℤ t.duration;
        spans = (s.spans + length t.spans) % 2 ^ 64;
        max_duration = max_ℤ s.max_duration t.duration;
        routes = if member route s.routes then s.routes else route ∷ s.routes;
      })
      hosts

host_all : List Trace → Map HostStat → Map HostStat
unfolding host_trace
host_all [] hosts = hosts
host_all (t ∷ ts) hosts = host_all ts (host_trace t hosts)

host_averages : ℕ → HostStat → HostAverages
host_averages window s =
    if ltb 0 s.traces
    then record {
      stat = s;
      share = record { part = s.traces * 100; whole = window };
      average_duration = quotient s.total_duration s.traces;
    }
    else record { stat = s; share = record { part = 0; whole = 0 }; average_duration = pos 0 }

-- The requests come in some order of the map.
unfoldable pub host_statistics : List Trace → Map ℕ → List HostAverages
unfolding add_requests host_all host_averages host_before sort_stable
host_statistics window requests =
    sort_stable (λ a b. host_before a.stat b.stat)
      (map (λ entry. host_averages (length window) entry.1)
        (host_all window (add_requests requests [])))
