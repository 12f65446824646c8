-- ===== src/Pool/Sizer.antt =====
-- core/db/pool/adaptive.py: `AdaptiveSizer`. A wait is a number of microseconds, and the average of
-- some waits is their sum and their number, so that the comparison with the threshold is exact.
pub mod Bounds
use salesdata_api.Base.{ℕ, ◌+◌, ◌-◌, ◌*◌, Bool, ◌&&◌, ◌||◌, ltb, leb, if◌then◌else◌}

-- `_COOLDOWN_CHECKS`
abbrev pub cooldown_checks : ℕ
cooldown_checks = 5

-- `_WAIT_PRESSURE_THRESHOLD_MS`, in microseconds
abbrev pub wait_pressure_threshold : ℕ
wait_pressure_threshold = 5000

pub record Sizer : Type 0 where
  pub min : ℕ
  pub max : ℕ
  pub current : ℕ
  pub idle_streak : ℕ

unfoldable pub init : ℕ → ℕ → Sizer
init min max = record { min = min; max = max; current = min; idle_streak = 0 }

-- some waits: how long they took together, and how many they are
pub record Waits : Type 0 where
  pub total : ℕ
  pub number : ℕ

unfoldable pub under_pressure : ℕ → Waits → Bool
under_pressure current_waiters recent =
    ltb 0 current_waiters || ltb (wait_pressure_threshold * recent.number) recent.total

unfoldable pub adjust : Sizer → ℕ → Waits → Sizer
unfolding under_pressure
adjust s current_waiters recent =
    if under_pressure current_waiters recent
    then (if ltb s.current s.max
        then record s { current = s.current + 1; idle_streak = 0 }
        else record s { idle_streak = 0 })
    else if leb cooldown_checks (s.idle_streak + 1) && ltb s.min s.current
    then record s { current = s.current - 1; idle_streak = 0 }
    else record s { idle_streak = s.idle_streak + 1 }
