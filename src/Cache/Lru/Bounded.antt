-- ===== src/Cache/Lru/Bounded.antt =====
-- The invariant of `LRUQueryCache`: its size and its keys.
use salesdata_api.Base.{
  ℕ, ◌≤◌, ◌<◌, ◌≡◌, refl, String, [], ◌∷◌, Option, none, some, arith, length, eq_refl,
  if◌then◌else◌, Bool-cases, Option-cases, inl, inr, length-append, leb,
}
use salesdata_api.Base.Dict.{
  Dict, IsDict, lookup, erase, push_back, lookup-erase, erase-IsDict, push_back-IsDict,
  length-erase, length-erase-le, contains, erase_absent,
}
use salesdata_api.Cache.Entry.{Entry, new_entry, is_expired, record_access}
use salesdata_api.Cache.Lru.{
  Lru, init, get, get_found, put, make_room, evict_first, invalidate, clear,
}

pub record IsValid {ℓ} {V : Type ℓ} (c : Lru V) : Type ℓ where
  pub positive : 0 < c.max_size
  pub bounded : length c.cache ≤ c.max_size
  pub distinct : IsDict c.cache

module _ {ℓ} {V : Type ℓ} where
  pub init-IsValid : (n : ℕ) → 0 < n → IsValid (init {V = V} n)
  unfolding init
  init-IsValid n h = record { positive = h; bounded = omega arith; distinct = tt }

  -- moving a key to the end keeps the keys apart
  refresh-IsDict :
      (k : String) (e : Entry V) (m : Dict (Entry V))
      → IsDict m
      → IsDict (push_back k e (erase k m))
  refresh-IsDict k e m h =
      push_back-IsDict k e (erase k m) (rw (lookup-erase k k m, eq_refl)) (erase-IsDict k m h)

  length-refresh :
      (k : String) (e x : Entry V) (m : Dict (Entry V))
      → IsDict m
      → lookup k m ≡ some x
      → length (push_back k e (erase k m)) ≡ length m
  length-refresh k e x m h found =
      ground (arith, length-append (erase k m) ((k, e) ∷ []), length-erase k m h)

  get_found-IsValid :
      (c : Lru V) (key : String) (now : ℕ) (o : Option (Entry V))
      → lookup key c.cache ≡ o
      → IsValid c
      → IsValid (get_found c key now o).0
  unfolding get_found
  get_found-IsValid c key now none e h = record {
    positive = h.positive;
    bounded = h.bounded;
    distinct = h.distinct;
  }
  get_found-IsValid c key now (some x) e h = elim (Bool-cases (is_expired x now)) [
    | inl old ↦ rw old (record {
      positive = h.positive;
      bounded = omega (arith, length-erase-le key c.cache, h.bounded);
      distinct = erase-IsDict key c.cache h.distinct;
    })
    | inr live ↦ rw live (record {
      positive = h.positive;
      bounded =
          omega (arith, length-refresh key (record_access x now) x c.cache h.distinct e, h.bounded);
      distinct = refresh-IsDict key (record_access x now) c.cache h.distinct;
    })
  ]

  -- `get` keeps the invariant, on a hit, a miss and an expired entry.
  pub get-IsValid : (c : Lru V) (key : String) (now : ℕ) → IsValid c → IsValid (get c key now).0
  unfolding get
  get-IsValid c key now h = get_found-IsValid c key now (lookup key c.cache) refl h

  -- the entries that `put` keeps when it makes room: all but the first of a full cache
  abbrev pub kept : ℕ → Dict (Entry V) → Dict (Entry V)
  kept n [] = []
  kept n (e ∷ m) = if leb n (length (e ∷ m)) then m else e ∷ m

  make_room-kept :
      (n : ℕ) (m : Dict (Entry V))
      → 0 < n
      → IsDict m
      → (if leb n (length m) then evict_first m else some m) ≡ some (kept n m)
  unfolding evict_first erase
  make_room-kept n [] pos h = ground arith
  make_room-kept n ((k, e) ∷ m) pos h = ground (arith, eq_refl k, erase_absent k m h.0)

  kept-IsDict :
      (n : ℕ) (m : Dict (Entry V))
      → 0 < n
      → length m ≤ n
      → IsDict m
      → (length (kept n m) < n) × IsDict (kept n m)
  kept-IsDict n [] pos le h = (pos, tt)
  kept-IsDict n (e ∷ m) pos le h = ground arith

  pub lookup-kept_absent :
      (n : ℕ) (j : String) (m : Dict (Entry V)) → lookup j m ≡ none → lookup j (kept n m) ≡ none
  unfolding lookup
  lookup-kept_absent n j [] h = refl
  lookup-kept_absent n j (e ∷ m) h = ground arith

  -- the dict after a `put`
  abbrev pub after_put : Lru V → String → Option V → Option ℕ → ℕ → Dict (Entry V)
  after_put c key value ttl now =
      if contains key c.cache
      then push_back key (new_entry value ttl now) (erase key c.cache)
      else push_back key (new_entry value ttl now) (kept c.max_size c.cache)

  pub put-after_put :
      (c : Lru V) (key : String) (value : Option V) (ttl : Option ℕ) (now : ℕ)
      → IsValid c
      → put c key value ttl now ≡ some (record c { cache = after_put c key value ttl now })
  unfolding put make_room
  put-after_put c key value ttl now h =
      ground (arith, make_room-kept c.max_size c.cache h.positive h.distinct)

  after_put-IsDict :
      (c : Lru V) (key : String) (value : Option V) (ttl : Option ℕ) (now : ℕ)
      → IsValid c
      → (length (after_put c key value ttl now) ≤ c.max_size)
        × IsDict (after_put c key value ttl now)
  after_put-IsDict c key value ttl now h = elim (Option-cases (lookup key c.cache)) [
    | inl new ↦
        let (room, apart) = kept-IsDict c.max_size c.cache h.positive h.bounded h.distinct in
        rw new (
          omega (arith, length-append (kept c.max_size c.cache) ((key, e) ∷ []), room),
          push_back-IsDict key e (kept c.max_size c.cache)
              (lookup-kept_absent c.max_size key c.cache new) apart,
        )
    | inr (x, old) ↦ rw old (
      omega (arith, length-refresh key e x c.cache h.distinct old, h.bounded),
      refresh-IsDict key e c.cache h.distinct,
    )
  ]
    where
      e : Entry V
      e = new_entry value ttl now

  -- `put` into a valid cache never raises, and keeps the invariant.
  pub put-IsValid :
      (c : Lru V) (key : String) (value : Option V) (ttl : Option ℕ) (now : ℕ)
      → IsValid c
      → (c' : Lru V) × (put c key value ttl now ≡ some c') × IsValid c'
  put-IsValid c key value ttl now h =
      let (bounded, distinct) = after_put-IsDict c key value ttl now h in
      (
        record c { cache = after_put c key value ttl now },
        put-after_put c key value ttl now h,
        record { positive = h.positive; bounded = bounded; distinct = distinct },
      )

  pub invalidate-IsValid : (c : Lru V) (key : String) → IsValid c → IsValid (invalidate c key)
  unfolding invalidate
  invalidate-IsValid c key h = record {
    positive = ground arith;
    bounded = ground (arith, length-erase-le key c.cache, h.bounded);
    distinct = ground (arith, erase-IsDict key c.cache h.distinct, h.distinct);
  }

  pub clear-IsValid : (c : Lru V) → IsValid c → IsValid (clear c)
  unfolding clear
  clear-IsValid c h = record { positive = h.positive; bounded = omega arith; distinct = tt }
