-- ===== src/Cache/Lru/Accesses.antt =====
-- Entries in the order of their last access, and what removal and appending leave of the order.
use salesdata_api.Base.{ℕ, ◌≤◌, String, [], ◌∷◌, arith}
use salesdata_api.Base.Dict.{Dict, erase, push_back}
use salesdata_api.Cache.Entry.{Entry}

module _ {ℓ} {V : Type ℓ} where
  -- every entry was accessed at or after a time, and at or before one
  abbrev pub Since : ℕ → Dict (Entry V) → Type 0
  Since t [] = Unit
  Since t ((k, e) ∷ m) = (t ≤ e.accessed_at) × Since t m

  abbrev pub Until : ℕ → Dict (Entry V) → Type 0
  Until t [] = Unit
  Until t ((k, e) ∷ m) = (e.accessed_at ≤ t) × Until t m

  abbrev pub IsOrdered : Dict (Entry V) → Type 0
  IsOrdered [] = Unit
  IsOrdered ((k, e) ∷ m) = Since e.accessed_at m × IsOrdered m

  pub Until-mono : {s t : ℕ} (m : Dict (Entry V)) → s ≤ t → Until s m → Until t m
  Until-mono [] le h = tt
  Until-mono (e ∷ m) le h = (omega arith, Until-mono m le h.1)

  pub erase-Since : (t : ℕ) (k : String) (m : Dict (Entry V)) → Since t m → Since t (erase k m)
  unfolding erase
  erase-Since t k [] h = tt
  erase-Since t k ((j, e) ∷ m) h = ground (arith, erase-Since t k m h.1)

  pub erase-Until : (t : ℕ) (k : String) (m : Dict (Entry V)) → Until t m → Until t (erase k m)
  unfolding erase
  erase-Until t k [] h = tt
  erase-Until t k ((j, e) ∷ m) h = ground (arith, erase-Until t k m h.1)

  pub erase-IsOrdered : (k : String) (m : Dict (Entry V)) → IsOrdered m → IsOrdered (erase k m)
  unfolding erase
  erase-IsOrdered k [] h = tt
  erase-IsOrdered k ((j, e) ∷ m) h =
      ground (arith, erase-IsOrdered k m h.1, erase-Since e.accessed_at k m h.0)

  pub push_back-Since :
      (t : ℕ) (k : String) (x : Entry V) (m : Dict (Entry V))
      → t ≤ x.accessed_at
      → Since t m
      → Since t (push_back k x m)
  push_back-Since t k x [] le h = (le, tt)
  push_back-Since t k x (e ∷ m) le h = (h.0, push_back-Since t k x m le h.1)

  pub push_back-Until :
      (t : ℕ) (k : String) (x : Entry V) (m : Dict (Entry V))
      → x.accessed_at ≤ t
      → Until t m
      → Until t (push_back k x m)
  push_back-Until t k x [] le h = (le, tt)
  push_back-Until t k x (e ∷ m) le h = (h.0, push_back-Until t k x m le h.1)

  pub push_back-IsOrdered :
      (k : String) (x : Entry V) (m : Dict (Entry V))
      → Until x.accessed_at m
      → IsOrdered m
      → IsOrdered (push_back k x m)
  push_back-IsOrdered k x [] u h = (tt, tt)
  push_back-IsOrdered k x ((j, e) ∷ m) u h =
      (push_back-Since e.accessed_at k x m u.0 h.0, push_back-IsOrdered k x m u.1 h.1)
