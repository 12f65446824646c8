-- ===== src/Auth/RateLimiter/Sorted.antt =====
-- What `popleft` leaves of a bucket whose times do not run backwards.
use salesdata_api.Base.{
  ℕ, ◌+◌, ◌≤◌, ◌≡◌, refl, List, [], ◌∷◌, ◌++◌, Bool, leb, ltb, length, count, arith, Bool-cases,
  inl, inr,
}
use salesdata_api.Auth.RateLimiter.{drop_old}

-- still in the window of a time
abbrev pub recent : ℕ → ℕ → ℕ → Bool
recent w now t = leb now (t + w)

abbrev pub IsSorted : List ℕ → Type 0
IsSorted [] = Unit
IsSorted (t ∷ []) = Unit
IsSorted (t ∷ u ∷ ts) = (t ≤ u) × IsSorted (u ∷ ts)

-- every time is at most a given one
abbrev pub Until : ℕ → List ℕ → Type 0
Until n [] = Unit
Until n (t ∷ ts) = (t ≤ n) × Until n ts

module _ (w now : ℕ) where
  -- in order of time, what `popleft` leaves is what is in the window
  sorted-recent :
      (t : ℕ) (ts : List ℕ)
      → now ≤ t + w
      → IsSorted (t ∷ ts)
      → count (recent w now) (t ∷ ts) ≡ length (t ∷ ts)
  sorted-recent t [] le h = ground arith
  sorted-recent t (u ∷ ts) le h = ground (arith, sorted-recent u ts (omega arith) h.1)

  IsSorted-tail : (t : ℕ) (ts : List ℕ) → IsSorted (t ∷ ts) → IsSorted ts
  IsSorted-tail t [] h = tt
  IsSorted-tail t (u ∷ ts) h = h.1

  pub length-drop_old :
      (ts : List ℕ) → IsSorted ts → length (drop_old w now ts) ≡ count (recent w now) ts
  unfolding drop_old
  length-drop_old [] h = refl
  length-drop_old (t ∷ ts) h =
      ground (arith, length-drop_old ts (IsSorted-tail t ts h), sorted-recent t ts)

  -- nothing that a later window could count is dropped
  pub count-drop_old :
      (later : ℕ) (ts : List ℕ)
      → now ≤ later
      → count (recent w later) (drop_old w now ts) ≡ count (recent w later) ts
  unfolding drop_old
  count-drop_old later [] le = refl
  count-drop_old later (t ∷ ts) le = ground (arith, count-drop_old later ts le)

  pub drop_old-IsSorted : (ts : List ℕ) → IsSorted ts → IsSorted (drop_old w now ts)
  unfolding drop_old
  drop_old-IsSorted [] h = tt
  drop_old-IsSorted (t ∷ ts) h = elim (Bool-cases (ltb (t + w) now)) [
    | inl old ↦ rw old (drop_old-IsSorted ts (IsSorted-tail t ts h))
    | inr new ↦ rw new h
  ]

  pub drop_old-Until : (n : ℕ) (ts : List ℕ) → Until n ts → Until n (drop_old w now ts)
  unfolding drop_old
  drop_old-Until n [] h = tt
  drop_old-Until n (t ∷ ts) h = ground (arith, drop_old-Until n ts h.1)

pub Until-mono : {m n : ℕ} (ts : List ℕ) → m ≤ n → Until m ts → Until n ts
Until-mono [] le h = tt
Until-mono (t ∷ ts) le h = (omega arith, Until-mono ts le h.1)

pub append-IsSorted : (n : ℕ) (ts : List ℕ) → IsSorted ts → Until n ts → IsSorted (ts ++ n ∷ [])
append-IsSorted n [] h u = tt
append-IsSorted n (t ∷ []) h u = (u.0, tt)
append-IsSorted n (t ∷ s ∷ ts) h u = (h.0, append-IsSorted n (s ∷ ts) h.1 u.1)

pub append-Until : (n : ℕ) (ts : List ℕ) → Until n ts → Until n (ts ++ n ∷ [])
append-Until n [] u = (omega arith, tt)
append-Until n (t ∷ ts) u = (u.0, append-Until n ts u.1)
