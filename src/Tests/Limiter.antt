-- ===== src/Tests/Limiter.antt =====
-- Runs of core/auth/rate_limiter.py.
use salesdata_api.Base.{◌≡◌, refl, [], ◌∷◌, true, false, List, arith, ◌≤◌, count}
use salesdata_api.Base.Dict.{lookup, insert, erase}
use salesdata_api.Auth.RateLimiter.{bucket, drop_old, check_and_record, reset}
use salesdata_api.Auth.RateLimiter.History.{
  Event, attempt, clears, run, reference, granted, Forward,
}
use salesdata_api.Auth.RateLimiter.Reference.{run-eq-reference, window_bound, in_window}

abbrev burst : List Event
burst =
    attempt "a" 1 ∷ attempt "a" 2 ∷ attempt "a" 3 ∷ attempt "b" 3 ∷ attempt "a" 12 ∷ clears "a" ∷ []

burst-run : run 2 10 [] burst ≡ true ∷ true ∷ false ∷ true ∷ true ∷ []
unfolding run check_and_record bucket drop_old reset lookup insert erase
burst-run = refl

forward : Forward 0 burst
forward = (omega arith, (omega arith, (omega arith, (omega arith, (omega arith, tt)))))

run-eq-reference_example : run 2 10 [] burst ≡ reference 2 10 [] burst
run-eq-reference_example = run-eq-reference 2 10 burst forward

window_bound_example : count (in_window 2 10 "a" 2) (granted 2 10 [] [] burst) ≤ 2
window_bound_example = window_bound 2 10 burst "a" 2 forward
