-- ===== src/Auth/RateLimiter.antt =====
-- core/auth/rate_limiter.py: the sliding window over the attempts of a key. Times are ticks of the
-- monotonic clock; `bucket[0] < now - window` is read as `bucket[0] + window < now`. The lock makes
-- each call one step.
mod Sorted
pub mod History
mod Knows
pub mod Reference
use salesdata_api.Base.{
  ℕ, ◌+◌, String, List, [], ◌∷◌, ◌++◌, Option, none, some, Bool, true, false, leb, ltb, length,
  if◌then◌else◌,
}
use salesdata_api.Base.Dict.{Dict, lookup, insert, erase}

-- `_attempts`: the times of a key's recorded attempts, oldest first
abbrev pub Attempts : Type 0
Attempts = Dict (List ℕ)

-- `_attempts[key]` of a `defaultdict(deque)`
unfoldable pub bucket : Attempts → String → List ℕ
bucket s key = elim (lookup key s) [ none ↦ [] | some times ↦ times ]

-- `while bucket and bucket[0] < cutoff: bucket.popleft()`
unfoldable pub drop_old : ℕ → ℕ → List ℕ → List ℕ
drop_old window now [] = []
drop_old window now (t ∷ ts) =
    let rest = drop_old window now ts in if ltb (t + window) now then rest else t ∷ ts

module _ (max_attempts window_seconds : ℕ) where
  unfoldable pub check_and_record : Attempts → String → ℕ → Attempts × Bool
  check_and_record s key now =
      let recent = drop_old window_seconds now (bucket s key) in
      if leb max_attempts (length recent)
      then (insert key recent s, false)
      else (insert key (recent ++ now ∷ []) s, true)

unfoldable pub reset : Attempts → String → Attempts
reset s key = erase key s
