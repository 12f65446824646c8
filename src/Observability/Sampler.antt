-- ===== src/Observability/Sampler.antt =====
-- `AdaptiveSampler` of core/performance/adaptive_sampler.py; each method is one step, under its lock,
-- and reads the clock once. Times are milliseconds. A rate is a number of ticks; raising it (times 1.5, plus 1.0) and easing it
-- (times 0.7) are floating-point operations and parameters, as is what the random generator draws.
pub mod Escalation
use salesdata_api.Base.{
  ℕ, zero, suc, ◌+◌, ◌-◌, ◌*◌, min, max, Bool, true, false, not, ◌&&◌, ◌||◌, ltb, leb,
  if◌then◌else◌,
}

pub record AdaptiveSamplerConfig : Type 0 where
  pub target_samples_per_second : ℕ
  pub min_rate : ℕ
  pub max_rate : ℕ
  pub adjustment_interval : ℕ
  pub slow_request_threshold : ℕ
  pub escalation : ℕ

pub record AdaptiveSampler : Type 0 where
  pub rate : ℕ
  pub window_start : ℕ
  pub window_sampled : ℕ
  pub window_requests : ℕ
  pub escalated_until : ℕ
  pub total_requests : ℕ
  pub total_sampled : ℕ
  pub total_escalations : ℕ
  pub total_bad_outcomes : ℕ

-- `window_sampled / elapsed < target`, the quotient being 0.0 where no time has passed
unfoldable pub is_below : ℕ → ℕ → ℕ → Bool
is_below target sampled zero = ltb 0 target
is_below target sampled (suc e) = ltb (1000 * sampled) (target * suc e)

-- `window_sampled / elapsed > target * 1.2`
unfoldable pub is_above : ℕ → ℕ → ℕ → Bool
is_above target sampled zero = false
is_above target sampled (suc e) = ltb (12 * (target * suc e)) (10_000 * sampled)

module _ (config : AdaptiveSamplerConfig) (ramp ease : ℕ → ℕ) where
  unfoldable pub init : ℕ → AdaptiveSampler
  init now = record {
    rate = config.max_rate;
    window_start = now;
    window_sampled = 0;
    window_requests = 0;
    escalated_until = 0;
    total_requests = 0;
    total_sampled = 0;
    total_escalations = 0;
    total_bad_outcomes = 0;
  }

  unfoldable pub adjusted_rate : ℕ → ℕ → ℕ → ℕ
  unfolding is_below is_above
  adjusted_rate rate sampled elapsed =
      if is_below config.target_samples_per_second sampled elapsed
      then min config.max_rate (ramp rate)
      else if is_above config.target_samples_per_second sampled elapsed
      then max config.min_rate (ease rate)
      else rate

  unfoldable pub maybe_adjust : ℕ → AdaptiveSampler → AdaptiveSampler
  unfolding adjusted_rate
  maybe_adjust now s =
      if ltb (now - s.window_start) config.adjustment_interval then s else record s {
        rate = adjusted_rate s.rate s.window_sampled (now - s.window_start);
        window_start = now;
        window_sampled = 0;
        window_requests = 0;
      }

  abbrev pub counted : Bool → AdaptiveSampler → AdaptiveSampler
  counted true s = record s {
    window_sampled = s.window_sampled + 1;
    total_sampled = s.total_sampled + 1;
  }
  counted false s = s

  abbrev pub decides : ℕ → ℕ → AdaptiveSampler → Bool
  decides now draw s = ltb now s.escalated_until || ltb draw s.rate

  unfoldable pub should_sample : ℕ → ℕ → AdaptiveSampler → AdaptiveSampler × Bool
  unfolding maybe_adjust
  should_sample now draw s =
      let s' = maybe_adjust now (record s {
        total_requests = s.total_requests + 1;
        window_requests = s.window_requests + 1;
      }) in
      (counted (decides now draw s') s', decides now draw s')

  unfoldable pub escalate : ℕ → AdaptiveSampler → AdaptiveSampler
  escalate now s = record s {
    total_escalations = s.total_escalations + 1;
    escalated_until = now + config.escalation;
    rate = config.max_rate;
  }

  unfoldable pub is_bad : ℕ → ℕ → Bool
  is_bad status duration = leb 500 status || leb config.slow_request_threshold duration

  -- the sampler, and whether the outcome is logged
  unfoldable pub record_outcome : ℕ → ℕ → ℕ → Bool → AdaptiveSampler → AdaptiveSampler × Bool
  unfolding escalate is_bad
  record_outcome now status duration was_sampled s =
      if is_bad status duration
      then (
        escalate now (record s { total_bad_outcomes = s.total_bad_outcomes + 1 }),
        not was_sampled,
      )
      else (s, false)
