-- ===== src/Cache/Ttl/Earliest.antt =====
-- The key that `TTLQueryCache.put` evicts: the first with the least expiry.
use salesdata_api.Base.{
  ℕ, ◌≤◌, ◌<◌, ◌≡◌, refl, String, [], ◌∷◌, none, some, arith, eq_refl, eq_iff, Bool-cases, inl, inr,
  ltb, ◌⊎◌, ap,
}
use salesdata_api.Base.Dict.{Dict, IsDict, lookup}
use salesdata_api.Cache.Entry.{Entry}
use salesdata_api.Cache.Ttl.{earliest, earliest_from, expiry}

module _ {ℓ} {V : Type ℓ} where
  -- every entry expires at or after a time
  abbrev pub ExpiresFrom : ℕ → ℕ → Dict (Entry V) → Type 0
  ExpiresFrom default t [] = Unit
  ExpiresFrom default t ((k, e) ∷ m) = (t ≤ expiry default e) × ExpiresFrom default t m

  ExpiresFrom-mono :
      (default s t : ℕ) (m : Dict (Entry V))
      → s ≤ t
      → ExpiresFrom default t m
      → ExpiresFrom default s m
  ExpiresFrom-mono default s t [] le h = tt
  ExpiresFrom-mono default s t (e ∷ m) le h = (omega arith, ExpiresFrom-mono default s t m le h.1)

  -- the key of an entry further down is not the key of the first
  below :
      (k r : String) (x e : Entry V) (m : Dict (Entry V))
      → lookup k m ≡ none
      → lookup r m ≡ some e
      → lookup r ((k, x) ∷ m) ≡ some e
  unfolding lookup
  below k r x e m new found = ground (arith, eq_iff k r)

  abbrev Best : ℕ → String → ℕ → Dict (Entry V) → String → Type ℓ
  Best default best at m r =
      ((r ≡ best) × ExpiresFrom default at m)
      ⊎ ((e : Entry V) × (lookup r m ≡ some e)
          × (expiry default e ≤ at)
          × ExpiresFrom default (expiry default e) m)

  Best-skip :
      (default : ℕ) (best : String) (at : ℕ) (k : String) (x : Entry V) (m : Dict (Entry V))
      (r : String)
      → lookup k m ≡ none
      → at ≤ expiry default x
      → Best default best at m r
      → Best default best at ((k, x) ∷ m) r
  Best-skip default best at k x m r new le (inl (same, from)) = inl (same, (le, from))
  Best-skip default best at k x m r new le (inr (e, found, early, from)) =
      inr (e, below k r x e m new found, early, (omega arith, from))

  Best-take :
      (default : ℕ) (best : String) (at : ℕ) (k : String) (x : Entry V) (m : Dict (Entry V))
      (r : String)
      → lookup k m ≡ none
      → expiry default x < at
      → Best default k (expiry default x) m r
      → Best default best at ((k, x) ∷ m) r
  unfolding lookup
  Best-take default best at k x m r new lt (inl (same, from)) =
      inr (x, rw (same, eq_refl), omega arith, (omega arith, from))
  Best-take default best at k x m r new lt (inr (e, found, early, from)) =
      inr (e, unfold lookup in below k r x e m new found, omega arith, (early, from))

  -- the result of the search has an entry with the least expiry
  earliest_from-Best :
      (default : ℕ) (best : String) (at : ℕ) (m : Dict (Entry V))
      → IsDict m
      → Best default best at m (earliest_from default best at m)
  unfolding earliest_from
  earliest_from-Best default best at [] d = inl (refl, tt)
  earliest_from-Best default best at ((k, x) ∷ m) d = elim (Bool-cases (ltb t at)) [
    | inl lt ↦ rw lt (
        Best-take default best at k x m (earliest_from default k t m) d.0 (ground arith)
          (earliest_from-Best default k t m d.1))
    | inr ge ↦ rw ge (
        Best-skip default best at k x m (earliest_from default best at m) d.0 (ground arith)
          (earliest_from-Best default best at m d.1))
  ]
    where
      t : ℕ
      t = expiry default x

  -- The key that `min` finds in a dict that is not empty has the least expiry of all entries.
  pub earliest_lem :
      (default : ℕ) (j : String) (x : Entry V) (m : Dict (Entry V))
      → IsDict ((j, x) ∷ m)
      → (k : String) × (e : Entry V) × (earliest default ((j, x) ∷ m) ≡ some k)
        × (lookup k ((j, x) ∷ m) ≡ some e)
        × ExpiresFrom default (expiry default e) ((j, x) ∷ m)
  unfolding earliest
  earliest_lem default j x m d = elim (earliest_from-Best default j (expiry default x) m d.1) [
    | inl (same, from) ↦ (j, x, ap some same, (unfold lookup in rw eq_refl), (omega arith, from))
    | inr (e, found, early, from) ↦ (
      earliest_from default j (expiry default x) m,
      e,
      refl,
      below j (earliest_from default j (expiry default x) m) x e m d.0 found,
      (early, from),
    )
  ]
