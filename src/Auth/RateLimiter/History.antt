-- ===== src/Auth/RateLimiter/History.antt =====
-- Events of the limiter, and the reference: a limiter that keeps every allowed attempt.
use salesdata_api.Base.{
  ℕ, ◌+◌, ◌≤◌, String, List, [], ◌∷◌, Bool, ◌&&◌, leb, ltb, count, if◌then◌else◌, str_eq,
}
use salesdata_api.Auth.RateLimiter.{Attempts, check_and_record, reset}

-- What happens to the limiter: an attempt at a time, or a reset.
pub data Event : Type 0 where
  attempt : String → ℕ → Event
  clears : String → Event

abbrev pub History : Type 0
History = List (String × ℕ)

abbrev pub recent_of : ℕ → String → ℕ → String × ℕ → Bool
recent_of w key now (k, t) = str_eq k key && leb now (t + w)

abbrev pub forget : String → History → History
forget key [] = []
forget key ((k, t) ∷ h) = let rest = forget key h in if str_eq k key then rest else (k, t) ∷ rest

-- attempts that do not run backwards from a time
abbrev pub Forward : ℕ → List Event → Type 0
Forward last [] = Unit
Forward last (attempt key now ∷ es) = (last ≤ now) × Forward now es
Forward last (clears key ∷ es) = Forward last es

module _ (max w : ℕ) where
  -- the answers to the attempts
  unfoldable pub run : Attempts → List Event → List Bool
  run s [] = []
  run s (attempt key now ∷ es) =
      let (s', allowed) = check_and_record max w s key now in allowed ∷ run s' es
  run s (clears key ∷ es) = run (reset s key) es

  -- the reference: it keeps every allowed attempt, and counts those in the window
  unfoldable pub allows : History → String → ℕ → Bool
  allows h key now = ltb (count (recent_of w key now) h) max

  unfoldable pub reference : History → List Event → List Bool
  reference h [] = []
  reference h (attempt key now ∷ es) =
      let allowed = allows h key now in
      allowed ∷ reference (if allowed then (key, now) ∷ h else h) es
  reference h (clears key ∷ es) = reference (forget key h) es

  -- the attempts that the limiter allowed and no reset forgot, after those of `h`
  unfoldable pub granted : History → Attempts → List Event → History
  granted h s [] = h
  granted h s (attempt key now ∷ es) =
      let (s', allowed) = check_and_record max w s key now in
      granted (if allowed then (key, now) ∷ h else h) s' es
  granted h s (clears key ∷ es) = granted (forget key h) (reset s key) es
