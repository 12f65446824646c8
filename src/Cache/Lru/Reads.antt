-- ===== src/Cache/Lru/Reads.antt =====
-- What `LRUQueryCache.get` returns after a `put`, for the key that was put and for the others.
use salesdata_api.Base.{
  ℕ, ◌≡◌, ◌≢◌, refl, String, [], ◌∷◌, Option, none, some, arith, length, eq_refl, eq_iff,
  if◌then◌else◌, Option-cases, inl, inr, ap, ◌⊎◌, leb, true,
}
use salesdata_api.Base.Dict.{Dict, lookup, lookup-erase, lookup-push_back, contains, lookup-refresh}
use salesdata_api.Cache.Entry.{Entry, new_entry, is_expired, record_access}
use salesdata_api.Cache.Lru.{Lru, get, get_found, put}
use salesdata_api.Cache.Lru.Bounded.{IsValid, kept, after_put, put-after_put, lookup-kept_absent}

-- The value that an entry gives to a reader at a time: none if there is no entry or it is too old.
abbrev pub visible {ℓ} : {V : Type ℓ} → Option (Entry V) → ℕ → Option V
visible none now = none
visible (some e) now = if is_expired e now then none else e.value

-- The key that `put` evicts for a new key: the first, if the cache is full.
abbrev pub victim {ℓ} : {V : Type ℓ} → ℕ → Dict (Entry V) → Option String
victim n [] = none
victim n ((k, e) ∷ m) = if leb n (length ((k, e) ∷ m)) then some k else none

module _ {ℓ} {V : Type ℓ} where
  pub get-visible :
      (c : Lru V) (key : String) (now : ℕ) → (get c key now).1 ≡ visible (lookup key c.cache) now
  unfolding get get_found
  get-visible c key now = ground arith

  found_ne :
      (c : Lru V) (key j : String) (now : ℕ) (o : Option (Entry V))
      → key ≢ j
      → lookup j (get_found c key now o).0.cache ≡ lookup j c.cache
  unfolding get_found
  found_ne c key j now none ne = refl
  found_ne c key j now (some x) ne = ground (
    arith,
    eq_iff key j,
    lookup-erase key j c.cache,
    lookup-refresh key j (record_access x now) c.cache,
  )

  -- `get` hides nothing from a later `get` of another key.
  pub get-get_ne :
      (c : Lru V) (key j : String) (now later : ℕ)
      → key ≢ j
      → (get (get c key now).0 j later).1 ≡ (get c j later).1
  get-get_ne c key j now later ne =
      rw (get-visible (get c key now).0 j later, get-visible c j later)
        (ap (λ o. visible o later) (unfold get in found_ne c key j now (lookup key c.cache) ne))

  lookup-kept_ne :
      (n : ℕ) (j : String) (m : Dict (Entry V))
      → victim n m ≢ some j
      → lookup j (kept n m) ≡ lookup j m
  unfolding lookup
  lookup-kept_ne n j [] h = refl
  lookup-kept_ne n j ((k, e) ∷ m) h = ground (arith, eq_iff k j)

  module _ (c : Lru V) (key : String) (value : Option V) (ttl : Option ℕ) (now : ℕ) where
    -- the key that was put
    lookup-after_put_self :
        lookup key (after_put c key value ttl now) ≡ some (new_entry value ttl now)
    lookup-after_put_self = elim (Option-cases (lookup key c.cache)) [
      | inl new ↦
          rw (new, lookup-push_back, lookup-kept_absent c.max_size key c.cache new, eq_refl key)
      | inr (x, old) ↦ rw (old, lookup-refresh, eq_refl key)
    ]

    -- A `get` after a `put` returns the value for as long as its time-to-live has not passed.
    pub get-put_self :
        (later : ℕ) {c' : Lru V}
        → IsValid c
        → put c key value ttl now ≡ some c'
        → (get c' key later).1 ≡ visible (some (new_entry value ttl now)) later
    get-put_self later {c'} h e = rw (get-visible c' key later) (
        ap (λ o. visible o later) {y = some (new_entry value ttl now)}
          (ground (arith, put-after_put c key value ttl now h, lookup-after_put_self)))

    lookup-after_put_ne :
        (j : String)
        → key ≢ j
        → (contains key c.cache ≡ true) ⊎ (victim c.max_size c.cache ≢ some j)
        → lookup j (after_put c key value ttl now) ≡ lookup j c.cache
    lookup-after_put_ne j ne (inl old) = rw (old, lookup-refresh) (ground (arith, eq_iff key j))
    lookup-after_put_ne j ne (inr other) = ground (
      arith,
      eq_iff key j,
      lookup-refresh key j (new_entry value ttl now) c.cache,
      lookup-push_back key j (new_entry value ttl now) (kept c.max_size c.cache),
      lookup-kept_ne c.max_size j c.cache other,
    )

    -- A `put` changes no other key, except the one that it evicts to make room for a new key.
    pub get-put_ne :
        (j : String) (later : ℕ) {c' : Lru V}
        → IsValid c
        → put c key value ttl now ≡ some c'
        → key ≢ j
        → (contains key c.cache ≡ true) ⊎ (victim c.max_size c.cache ≢ some j)
        → (get c' j later).1 ≡ (get c j later).1
    get-put_ne j later {c'} h e ne stays =
        rw (get-visible c' j later, get-visible c j later)
          (ap (λ o. visible o later)
            (ground (arith, put-after_put c key value ttl now h, lookup-after_put_ne j ne stays)))
