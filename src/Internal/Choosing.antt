-- ===== src/Internal/Choosing.antt =====
-- What the tracer takes from its options: internal/sampler_for.go, internal/trace_options_for.go,
-- internal/clock_now.go and internal/route_pattern.go. `S` is the type of the retention drivers.
use oida.Prelude.{
  if◌then◌else◌, pos_part, Text, text_eq, has_byte, cut, ℕ, ◌≡◌, refl, ◌≢◌, false, ◌||◌, Option,
  none, some, [], ◌∷◌, ◌++◌, cut_at,
}
use oida.Model.Data.{TraceOptions}
use oida.Model.Options.{Numerals, Options}
use oida.Internal.RateSampler.{RateSampler, new_rate_sampler}

-- The sampler that the code has set, or one for the rate.
data Sampler : Type 0 where
  configured : ℕ → Sampler
  of_rate : RateSampler → Sampler

module _ (n : Numerals) (S : Type 0) where
  -- `rounded` is `uint64(100/rate + 0.5)`.
  unfoldable sampler_for : (n.Float → ℕ) → Options n S → Sampler
  unfolding new_rate_sampler
  sampler_for rounded o = elim o.sampler [
    | some f ↦ configured f
    | none ↦ of_rate (
        new_rate_sampler
          (n.lower_than n.full_rate o.sample_rate || n.equals n.full_rate o.sample_rate)
          (n.lower_than o.sample_rate n.zero_rate || n.equals o.sample_rate n.zero_rate)
          (rounded o.sample_rate))
  ]

  -- A limit and a minimum below zero act as none, as the code tests them. The clock is not kept.
  unfoldable trace_options_for : Options n S → TraceOptions
  trace_options_for o = record {
    service = o.service_name;
    max_spans = pos_part o.max_spans_per_trace;
    debug_span_min_duration = pos_part o.debug_span_min_duration;
    capture_logs = o.capture_logs;
  }

  -- `run` calls a configured clock.
  unfoldable clock_now : (ℕ → ℕ) → ℕ → Options n S → ℕ
  clock_now run time_now o = elim o.clock [ none ↦ time_now | some c ↦ run c ]

-- What RouteFunc answers, if one is set, decides; `pattern` is the request's.
route_pattern : Option Text → Text → Text
unfolding text_eq cut
route_pattern answered pattern = elim answered [
  | some route ↦ route
  | none ↦
      if text_eq pattern []
      then []
      else elim (cut b' ' pattern) [ none ↦ pattern | some (method, route) ↦ route ]
]

-- Without a RouteFunc, the pattern of a route comes without its method.
route_pattern-method :
    (method route : Text)
    → has_byte b' ' method ≡ false
    → method ≢ []
    → route_pattern none (method ++ (b' ' ∷ route)) ≡ route
unfolding route_pattern
route_pattern-method [] route h k = absurd (k refl)
route_pattern-method (c ∷ method) route h k = rw (cut_at b' ' (c ∷ method) route h) refl
