-- ===== src/Pool/Session/Ends.antt =====
-- Where a session's connection is after it.
use salesdata_api.Base.{
  ◌≡◌, refl, sym, ap, ◌∙◌, ◌↔◌, ◌⊎◌, inl, inr, ℕ, ◌+◌, List, [], ◌∷◌, ◌++◌, none, some, Bool, true,
  false, arith, Bool-cases, false≢true,
}
use salesdata_api.Sql.Chars.{lower}
use salesdata_api.Pool.Slots.{find, drop, find-drop}
use salesdata_api.Pool.Sync.{Pool, release, release_found}
use salesdata_api.Pool.Session.{
  signals, is_prefix, is_in, any_in, is_connection_level_error, Body, completes, raises,
  rollback_raises, broken_connection, end_session,
}

-- The text has one of the words in it.
abbrev pub Among : List (List ℕ) → List ℕ → Type 0
Among [] s = ⊥
Among (w ∷ ws) s =
    ((before : List ℕ) × (after : List ℕ) × (s ≡ before ++ (w ++ after))) ⊎ Among ws s

prefix_rest : (w s : List ℕ) → is_prefix w s ≡ true → (after : List ℕ) × (s ≡ w ++ after)
unfolding is_prefix
prefix_rest [] s h = (s, refl)
prefix_rest (c ∷ w) [] h = absurd (cc)
prefix_rest (c ∷ w) (d ∷ s) h =
    let (after, e) = prefix_rest w s (ground (arith, h)) in (after, ground (arith, h, e))

prefix-append : (w after : List ℕ) → is_prefix w (w ++ after) ≡ true
unfolding is_prefix
prefix-append [] after = refl
prefix-append (c ∷ w) after = ground (arith, prefix-append w after)

in_split :
    (w s : List ℕ)
    → is_in w s ≡ true
    → (before : List ℕ) × (after : List ℕ) × (s ≡ before ++ (w ++ after))
unfolding is_in
in_split w [] h = let (after, e) = prefix_rest w [] h in ([], after, e)
in_split w (d ∷ s) h = elim (Bool-cases (is_prefix w (d ∷ s))) [
  | inl here ↦ let (after, e) = prefix_rest w (d ∷ s) here in ([], after, e)
  | inr away ↦
      let (before, after, e) = in_split w s (ground (arith, h, away)) in
      (d ∷ before, after, ap (λ t. d ∷ t) e)
]

in-here : (w after : List ℕ) → is_in w (w ++ after) ≡ true
unfolding is_in
in-here [] [] = unfold is_prefix in refl
in-here [] (d ∷ after) = unfold is_prefix in refl
in-here (c ∷ w) after = ground (arith, prefix-append (c ∷ w) after)

in-append : (w before after : List ℕ) → is_in w (before ++ (w ++ after)) ≡ true
unfolding is_in
in-append w [] after = in-here w after
in-append w (d ∷ before) after = ground (arith, in-append w before after)

any_sound : (ws : List (List ℕ)) (s : List ℕ) → any_in ws s ≡ true → Among ws s
unfolding any_in
any_sound [] s h = absurd (cc)
any_sound (w ∷ ws) s h = elim (Bool-cases (is_in w s)) [
  | inl here ↦ inl (in_split w s here)
  | inr away ↦ inr (any_sound ws s (ground (arith, h, away)))
]

any_complete : (ws : List (List ℕ)) (s : List ℕ) → Among ws s → any_in ws s ≡ true
unfolding any_in
any_complete [] s h = absurd h
any_complete (w ∷ ws) s (inl (before, after, e)) =
    let here = in-append w before after in rw e (rw here refl)
any_complete (w ∷ ws) s (inr later) = ground (arith, any_complete ws s later)

-- The error is of the connection: its text in lower case has a signal in it.
abbrev pub IsSignalled : Body → Type 0
IsSignalled completes = ⊥
IsSignalled (raises exc) = Among signals (lower exc)

signalled : (body : Body) (fails : Bool) → (broken_connection body fails ≡ true) ↔ IsSignalled body
unfolding broken_connection is_connection_level_error rollback_raises
signalled completes fails = (λ e. absurd (cc), λ h. absurd h)
signalled (raises exc) fails = (
  λ e. any_sound signals (lower exc) (ground (arith, e)),
  λ h. ground (arith, any_complete signals (lower exc) h),
)

-- A session gives its connection up however its body ends, and a waiting thread is notified. If the
-- body raised an error of the connection, one whose text has a signal in it, the connection does not
-- go back among the idle ones and is counted as evicted. Otherwise, after a query error too, it goes
-- back; and it does so even where rolling back has failed, since that failure is caught before the
-- session could see it.
pub end_session_lem :
    (p : Pool) (conn t : ℕ) (body : Body) (fails : Bool)
    → find conn p.in_use ≡ some (some t)
    → let (q, notified) = end_session p conn body fails in
      (notified ≡ true)
      × (find conn q.in_use ≡ none)
      × (IsSignalled body → (q.available ≡ p.available) × (q.broken_evicted ≡ p.broken_evicted + 1))
      × (¬ IsSignalled body
          → (q.available
              ≡ record { created_at = t; counter = p.counter; conn = conn } ∷ p.available)
            × (q.broken_evicted ≡ p.broken_evicted))
unfolding end_session release release_found
end_session_lem p conn t body fails held = rw held (ended (broken_connection body fails) refl)
  where
    gone : find conn (drop conn p.in_use) ≡ none
    gone = ground (arith, find-drop conn conn p.in_use)

    ended :
        (b : Bool)
        → broken_connection body fails ≡ b
        → let (q, notified) = release_found p conn b (some (some t)) in
          (notified ≡ true)
          × (find conn q.in_use ≡ none)
          × (IsSignalled body
              → (q.available ≡ p.available) × (q.broken_evicted ≡ p.broken_evicted + 1))
          × (¬ IsSignalled body
              → (q.available
                  ≡ record { created_at = t; counter = p.counter; conn = conn } ∷ p.available)
                × (q.broken_evicted ≡ p.broken_evicted))
    ended true e = (refl, gone, λ h. (refl, refl), λ h. absurd (h ((signalled body fails).0 e)))
    ended false e = (
      refl,
      gone,
      λ h. absurd (false≢true (sym e ∙ (signalled body fails).1 h)),
      λ h. (refl, refl),
    )
