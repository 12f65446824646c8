-- ===== src/Pool/Sizer/Bounds.antt =====
-- How `AdaptiveSizer.adjust` moves the size, once and over several checks.
use salesdata_api.Base.{
  ℕ, zero, suc, ◌+◌, ◌-◌, ◌≤◌, ◌<◌, ◌≡◌, refl, true, false, ltb, if◌then◌else◌, arith, ap,
}
use salesdata_api.Pool.Sizer.{Sizer, Waits, init, adjust, under_pressure, cooldown_checks}

pub record IsSized (s : Sizer) : Type 0 where
  pub at_least : s.min ≤ s.current
  pub at_most : s.current ≤ s.max

pub init-IsSized : (low high : ℕ) → low ≤ high → IsSized (init low high)
unfolding init
init-IsSized low high le = record { at_least = omega arith; at_most = le }

-- An adjustment keeps the bounds and never changes them; it moves the size by one at most, up only
-- under pressure and down only without; and pressure makes the pool grow unless it is at its most.
pub adjust-IsSized :
    (s : Sizer) (waiters : ℕ) (recent : Waits)
    → IsSized s
    → IsSized (adjust s waiters recent)
      × ((adjust s waiters recent).max ≡ s.max)
      × ((adjust s waiters recent).min ≡ s.min)
      × (s.current ≤ (adjust s waiters recent).current + 1)
      × (under_pressure waiters recent ≡ true
          → (adjust s waiters recent).current
            ≡ (if ltb s.current s.max then s.current + 1 else s.current))
      × (under_pressure waiters recent ≡ false → (adjust s waiters recent).current ≤ s.current)
unfolding adjust
adjust-IsSized s waiters recent h = (
  record { at_least = ground arith; at_most = ground arith },
  ground arith,
  ground arith,
  ground arith,
  λ p. ground arith,
  λ p. ground arith,
)

no_waits : Waits
no_waits = record { total = 0; number = 0 }

-- checks that find no pressure
unfoldable pub idle_checks : ℕ → Sizer → Sizer
unfolding no_waits
idle_checks zero s = s
idle_checks (suc n) s = idle_checks n (adjust s 0 no_waits)

idle_start :
    (n : ℕ) (s : Sizer)
    → s.idle_streak + n < cooldown_checks
    → idle_checks n s ≡ record s { idle_streak = s.idle_streak + n }
unfolding idle_checks adjust
idle_start zero s h = ground arith
idle_start (suc n) s h = ground (arith, idle_start n (record s { idle_streak = s.idle_streak + 1 }))

-- five quiet checks give back one connection, while there is one to give
idle_five :
    (s : Sizer)
    → s.idle_streak ≡ 0
    → s.min < s.current
    → idle_checks 5 s ≡ record s { current = s.current - 1; idle_streak = 0 }
unfolding idle_checks adjust
idle_five s streak lt = ground arith

unfoldable pub quiet_rounds : ℕ → Sizer → Sizer
unfolding idle_checks
quiet_rounds zero s = s
quiet_rounds (suc k) s = quiet_rounds k (idle_checks 5 s)

rounds :
    (k : ℕ) (s : Sizer)
    → s.idle_streak ≡ 0
    → s.min + k ≤ s.current
    → quiet_rounds k s ≡ record s { current = s.current - k; idle_streak = 0 }
unfolding quiet_rounds
rounds zero s streak le = ground arith
rounds (suc k) s streak le = ground (
  arith,
  idle_five s streak (omega arith),
  rounds k (record s { current = s.current - 1; idle_streak = 0 }) refl (omega arith),
)

-- Capacity is given back slowly: after a moment of pressure (no idle streak), fewer than five quiet
-- checks give back nothing, and each five in a row give back one connection, down to the least size.
pub cooldown :
    (s : Sizer) (k n : ℕ)
    → s.idle_streak ≡ 0
    → s.min + k ≤ s.current
    → n < cooldown_checks
    → ((idle_checks n s).current ≡ s.current) × ((quiet_rounds k s).current ≡ s.current - k)
cooldown s k n streak le few = (
  ap (λ (x : Sizer). x.current) (idle_start n s (omega arith)),
  ap (λ (x : Sizer). x.current) (rounds k s streak le),
)
