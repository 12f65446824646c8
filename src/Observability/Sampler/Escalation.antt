-- ===== src/Observability/Sampler/Escalation.antt =====
-- The range of the rate, and sampling in the time after a bad outcome.
use salesdata_api.Base.{
  ◌≡◌, refl, ℕ, ◌+◌, ◌-◌, ◌≤◌, ◌<◌, List, [], ◌∷◌, ◌++◌, Bool, true, false, not, ltb, arith, All,
  Bool-cases, inl, inr, either,
}
use salesdata_api.Observability.Sampler.{
  AdaptiveSamplerConfig, AdaptiveSampler, adjusted_rate, maybe_adjust, should_sample, escalate,
  is_bad, record_outcome, is_below, is_above, counted, decides,
}

-- a request that starts, with what is drawn for it; or one that ends, with its status and duration
pub data Event : Type 0 where
  starts : ℕ → ℕ → Event
  ends : ℕ → ℕ → ℕ → Bool → Event

abbrev pub time_of : Event → ℕ
time_of (starts now draw) = now
time_of (ends now status duration was_sampled) = now

module _ (config : AdaptiveSamplerConfig) (ramp ease : ℕ → ℕ) where
  unfoldable pub step : AdaptiveSampler → Event → AdaptiveSampler × List Bool
  unfolding should_sample record_outcome
  step s (starts now draw) =
      let (s', sampled) = should_sample config ramp ease now draw s in (s', sampled ∷ [])
  step s (ends now status duration was_sampled) =
      ((record_outcome config ramp ease now status duration was_sampled s).0, [])

  unfoldable pub run : AdaptiveSampler → List Event → AdaptiveSampler × List Bool
  unfolding step
  run s [] = (s, [])
  run s (e ∷ es) =
      let (s', sampled) = step s e in let (end, more) = run s' es in (end, sampled ++ more)

  -- The rate is in its range, and no more requests are sampled than there are.
  abbrev pub InRange : AdaptiveSampler → Type 0
  InRange s =
      (config.min_rate ≤ s.rate) × (s.rate ≤ config.max_rate) × (s.total_sampled ≤ s.total_requests)

  abbrev Between : ℕ → Type 0
  Between r = (config.min_rate ≤ r) × (r ≤ config.max_rate)

  adjusted-Between :
      (rate sampled elapsed : ℕ)
      → config.min_rate ≤ config.max_rate
      → ((r : ℕ) → r ≤ ramp r)
      → ((r : ℕ) → ease r ≤ r)
      → Between rate
      → Between (adjusted_rate config ramp ease rate sampled elapsed)
  unfolding adjusted_rate
  adjusted-Between rate sampled elapsed range up down h =
      either Between (is_below config.target_samples_per_second sampled elapsed)
        (omega (arith, up rate, h, range), omega (arith, range))
        (either Between (is_above config.target_samples_per_second sampled elapsed)
          (omega (arith, range), omega (arith, down rate, h, range)) h)

  adjust-InRange :
      (now : ℕ) (s : AdaptiveSampler)
      → config.min_rate ≤ config.max_rate
      → ((r : ℕ) → r ≤ ramp r)
      → ((r : ℕ) → ease r ≤ r)
      → Between s.rate × (s.total_sampled < s.total_requests)
      → let s' = maybe_adjust config ramp ease now s in
        Between s'.rate × (s'.total_sampled < s'.total_requests)
  unfolding maybe_adjust
  adjust-InRange now s range up down h =
      either (λ (r : AdaptiveSampler). Between r.rate × (r.total_sampled < r.total_requests))
        (ltb (now - s.window_start) config.adjustment_interval) h
        (adjusted-Between s.rate s.window_sampled (now - s.window_start) range up down h.0, h.1)

  counted-InRange :
      (b : Bool) (s : AdaptiveSampler)
      → Between s.rate × (s.total_sampled < s.total_requests)
      → InRange (counted config ramp ease b s)
  counted-InRange true s h = (h.0.0, h.0.1, omega (arith, h.1))
  counted-InRange false s h = (h.0.0, h.0.1, omega (arith, h.1))

  step-InRange :
      (s : AdaptiveSampler) (e : Event)
      → config.min_rate ≤ config.max_rate
      → ((r : ℕ) → r ≤ ramp r)
      → ((r : ℕ) → ease r ≤ r)
      → InRange s
      → InRange (step s e).0
  unfolding step should_sample record_outcome escalate
  step-InRange s (starts now draw) range up down h = counted-InRange _ _ (
      adjust-InRange now
        (record s {
          total_requests = s.total_requests + 1;
          window_requests = s.window_requests + 1;
        })
        range up down ((h.0, h.1), omega (arith, h.2)))
  step-InRange s (ends now status duration was_sampled) range up down h =
      elim (Bool-cases (is_bad config ramp ease status duration)) [
        | inl bad ↦ rw bad (range, omega arith, h.2)
        | inr fine ↦ rw fine h
      ]

  -- The rate stays between its bounds, and no more requests are counted as sampled than as seen, after
  -- any requests and outcomes; provided that raising the rate does not lower it, and easing it does
  -- not raise it.
  pub run-InRange :
      (s : AdaptiveSampler) (es : List Event)
      → config.min_rate ≤ config.max_rate
      → ((r : ℕ) → r ≤ ramp r)
      → ((r : ℕ) → ease r ≤ r)
      → InRange s
      → InRange (run s es).0
  unfolding run
  run-InRange s [] range up down h = h
  run-InRange s (e ∷ es) range up down h =
      run-InRange (step s e).0 es range up down (step-InRange s e range up down h)

  -- what the event says of the time `t`: it is not before it
  abbrev pub NotBefore : ℕ → Event → Type 0
  NotBefore t e = t ≤ time_of e

  -- requests that start within the escalation after `t` are sampled, so far as the events go
  abbrev pub AllSampled : List Bool → Type 0
  AllSampled = All (λ b. b ≡ true)

  Until : ℕ → AdaptiveSampler → Type 0
  Until t s = t + config.escalation ≤ s.escalated_until

  adjust-Until :
      (t now : ℕ) (s : AdaptiveSampler) → Until t s → Until t (maybe_adjust config ramp ease now s)
  unfolding maybe_adjust Until
  adjust-Until t now s h =
      either (Until t) (ltb (now - s.window_start) config.adjustment_interval) h h

  counted-Until :
      (t : ℕ) (b : Bool) (s : AdaptiveSampler) → Until t s → Until t (counted config ramp ease b s)
  unfolding Until
  counted-Until t true s h = h
  counted-Until t false s h = h

  outcome-Until :
      (t now status duration : ℕ) (was_sampled : Bool) (s : AdaptiveSampler)
      → t ≤ now
      → Until t s
      → Until t (record_outcome config ramp ease now status duration was_sampled s).0
  unfolding record_outcome escalate Until
  outcome-Until t now status duration was_sampled s le h =
      either (λ (r : AdaptiveSampler × Bool). t + config.escalation ≤ r.0.escalated_until)
        (is_bad config ramp ease status duration) (omega (arith, le)) h

  decided :
      (t now draw : ℕ) (s : AdaptiveSampler)
      → now < t + config.escalation
      → Until t s
      → decides config ramp ease now draw s ≡ true
  unfolding Until
  decided t now draw s soon h = ground (arith, soon, h)

  escalated :
      (t : ℕ) (s : AdaptiveSampler) (es : List Event)
      → Until t s
      → All (λ e. (t ≤ time_of e) × (time_of e < t + config.escalation)) es
      → AllSampled (run s es).1
  unfolding run step should_sample
  escalated t s [] until within = tt
  escalated t s (starts now draw ∷ es) until within =
      let kept =
        adjust-Until t now
          (record s {
            total_requests = s.total_requests + 1;
            window_requests = s.window_requests + 1;
          })
          (unfold Until in until) in
      (
        decided t now draw _ within.0.1 kept,
        escalated t (should_sample config ramp ease now draw s).0 es (counted-Until t _ _ kept)
            within.1,
      )
  escalated t s (ends now status duration was_sampled ∷ es) until within =
      escalated t (record_outcome config ramp ease now status duration was_sampled s).0 es
        (outcome-Until t now status duration was_sampled s within.0.0 until) within.1

  -- Once a request has ended badly, with a server's error or after the threshold of slow requests, every
  -- request that starts within the escalation's time after it is sampled, whatever is drawn for it,
  -- however the rate was, and whatever else starts or ends in between; and a bad outcome of a request
  -- that was not sampled itself is logged.
  pub outcome-escalates :
      (t status duration : ℕ) (was_sampled : Bool) (s : AdaptiveSampler) (es : List Event)
      → is_bad config ramp ease status duration ≡ true
      → All (λ e. (t ≤ time_of e) × (time_of e < t + config.escalation)) es
      → AllSampled (run (record_outcome config ramp ease t status duration was_sampled s).0 es).1
        × ((record_outcome config ramp ease t status duration was_sampled s).1 ≡ not was_sampled)
  unfolding record_outcome escalate
  outcome-escalates t status duration was_sampled s es bad within =
      rw bad (escalated t _ es (unfold Until in omega arith) within, refl)
