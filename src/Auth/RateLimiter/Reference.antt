-- ===== src/Auth/RateLimiter/Reference.antt =====
-- The limiter of core/auth/rate_limiter.py against the reference of History.
use salesdata_api.Base.{
  ℕ, ◌+◌, ◌≤◌, ◌≡◌, refl, String, List, [], ◌∷◌, Bool, ◌&&◌, leb, count, if◌then◌else◌, arith,
  str_eq, eq_iff,
}
use salesdata_api.Base.Dict.{lookup}
use salesdata_api.Auth.RateLimiter.{Attempts, bucket, check_and_record, reset}
use salesdata_api.Auth.RateLimiter.History.{
  Event, attempt, clears, History, recent_of, forget, Forward, run, allows, reference, granted,
}
use salesdata_api.Auth.RateLimiter.Knows.{Knows, Knows-attempt, Knows-reset}

module _ (max w : ℕ) where
  run-Knows :
      (es : List Event) (last : ℕ) (h : History) (s : Attempts)
      → Forward last es
      → ((j : String) → Knows max w last h j (bucket s j))
      → run max w s es ≡ reference max w h es
  unfolding run reference
  run-Knows [] last h s forward knows = refl
  run-Knows (attempt key now ∷ es) last h s forward knows =
      let (same, knows') = Knows-attempt max w last now h s key forward.0 knows in
      cc (
        same,
        run-Knows es now (if allows max w h key now then (key, now) ∷ h else h)
            (check_and_record max w s key now).0 forward.1 knows',
      )
  run-Knows (clears key ∷ es) last h s forward knows =
      run-Knows es last (forget key h) (reset s key) forward
        (λ j. Knows-reset max w last last h s key (omega arith) knows key j)

  -- From no attempts, while the clock does not run backwards, the limiter answers every sequence
  -- of attempts and resets as the reference does, which counts the attempts of the key that were
  -- allowed in the window, both ends included, and that no reset forgot.
  pub run-eq-reference : (es : List Event) → Forward 0 es → run max w [] es ≡ reference max w [] es
  run-eq-reference es forward =
      run-Knows es 0 [] [] forward (λ j.
        unfold bucket lookup in record { sorted = tt; past = tt; counts = λ later after. refl })

  -- attempts of a key from a time to the end of the window that starts there
  abbrev pub in_window : String → ℕ → String × ℕ → Bool
  in_window key t (k, u) = str_eq k key && (leb t u && leb u (t + w))

  window-le-recent :
      (key : String) (t now : ℕ) (h : History)
      → now ≤ t + w
      → count (in_window key t) h ≤ count (recent_of w key now) h
  window-le-recent key t now [] le = omega arith
  window-le-recent key t now ((k, u) ∷ h) le = ground (arith, window-le-recent key t now h le)

  abbrev IsLimited : History → Type 0
  IsLimited h = (key : String) (t : ℕ) → count (in_window key t) h ≤ max

  allow-IsLimited :
      (h : History) (key : String) (now : ℕ)
      → IsLimited h
      → IsLimited (if allows max w h key now then (key, now) ∷ h else h)
  unfolding allows
  allow-IsLimited h key now limited j t =
      ground (arith, limited j t, eq_iff key j, window-le-recent j t now h)

  forget-IsLimited : (target : String) (h : History) → IsLimited h → IsLimited (forget target h)
  forget-IsLimited target h limited key t = omega (arith, fewer h, limited key t)
    where
      fewer : (h : History) → count (in_window key t) (forget target h) ≤ count (in_window key t) h
      fewer = elim [ [] ↦ omega arith | e ∷ (rest → ih) ↦ ground (arith, ih) ]

  granted-IsLimited :
      (es : List Event) (last : ℕ) (h : History) (s : Attempts)
      → Forward last es
      → ((j : String) → Knows max w last h j (bucket s j))
      → IsLimited h
      → IsLimited (granted max w h s es)
  unfolding granted
  granted-IsLimited [] last h s forward knows limited = limited
  granted-IsLimited (attempt key now ∷ es) last h s forward knows limited =
      let (same, knows') = Knows-attempt max w last now h s key forward.0 knows in
      rw same (
        granted-IsLimited es now (if allows max w h key now then (key, now) ∷ h else h)
          (check_and_record max w s key now).0 forward.1 knows' (allow-IsLimited h key now limited))
  granted-IsLimited (clears key ∷ es) last h s forward knows limited =
      granted-IsLimited es last (forget key h) (reset s key) forward
        (λ j. Knows-reset max w last last h s key (omega arith) knows key j)
        (forget-IsLimited key h limited)

  -- However attempts and resets are mixed, while the clock does not run backwards, no window of
  -- the given length holds more than `max` allowed attempts of one key since its last reset.
  pub window_bound :
      (es : List Event) (key : String) (t : ℕ)
      → Forward 0 es
      → count (in_window key t) (granted max w [] [] es) ≤ max
  window_bound es key t forward =
      granted-IsLimited es 0 [] [] forward
        (λ j.
          unfold bucket lookup in record { sorted = tt; past = tt; counts = λ later after. refl })
        (λ k u. omega arith) key t
