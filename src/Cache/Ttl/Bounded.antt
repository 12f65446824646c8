-- ===== src/Cache/Ttl/Bounded.antt =====
-- The invariant of `TTLQueryCache`, and what a `put` leaves.
use salesdata_api.Base.{
  ℕ, suc, ◌+◌, ◌≤◌, ◌<◌, ◌≡◌, ◌≢◌, refl, String, [], ◌∷◌, Option, none, some, arith, length,
  eq_refl, eq_iff, if◌then◌else◌, Bool-cases, inl, inr, leb, true, ◌⊎◌,
}
use salesdata_api.Base.Dict.{
  Dict, IsDict, lookup, erase, insert, lookup-erase, lookup-insert, erase-IsDict, insert-IsDict,
  length-erase, length-erase-le, length-insert, contains,
}
use salesdata_api.Cache.Entry.{Entry, new_entry, is_expired, record_access}
use salesdata_api.Cache.Ttl.{
  Ttl, get, get_found, put, make_room, earliest, expiry, or_default, invalidate,
}
use salesdata_api.Cache.Ttl.Earliest.{ExpiresFrom, earliest_lem}

pub record IsValid {ℓ} {V : Type ℓ} (c : Ttl V) : Type ℓ where
  pub positive : 0 < c.max_size
  pub bounded : length c.cache ≤ c.max_size
  pub distinct : IsDict c.cache

module _ {ℓ} {V : Type ℓ} where
  -- What `put` makes room by: nothing, or the removal of an entry with the least expiry.
  pub make_room_lem :
      (c : Ttl V)
      → IsValid c
      → ((length c.cache < c.max_size) × (make_room c ≡ some c.cache))
        ⊎ ((k : String) × (e : Entry V) × (make_room c ≡ some (erase k c.cache))
            × (lookup k c.cache ≡ some e)
            × ExpiresFrom c.default_ttl (expiry c.default_ttl e) c.cache)
  unfolding make_room
  make_room_lem c h = at_size c.default_ttl c.cache c.max_size refl h.positive h.distinct
    where
      at_size :
          (default : ℕ) (m : Dict (Entry V)) (n : ℕ)
          → m ≡ m
          → 0 < n
          → IsDict m
          → ((length m < n)
              × ((if leb n (length m)
                    then elim (earliest default m) [ none ↦ none | some k ↦ some (erase k m) ]
                    else some m)
                  ≡ some m))
            ⊎ ((k : String) × (e : Entry V) × ((if leb n (length m)
                    then elim (earliest default m) [ none ↦ none | some k ↦ some (erase k m) ]
                    else some m)
                  ≡ some (erase k m))
                × (lookup k m ≡ some e)
                × ExpiresFrom default (expiry default e) m)
      at_size default [] n same pos d = inl (pos, ground arith)
      at_size default ((j, x) ∷ m) n same pos d = elim (Bool-cases (leb n (suc (length m)))) [
        | inl full ↦
            let (k, e, found, at, from) = earliest_lem default j x m d in
            inr (k, e, rw (full, found), at, from)
        | inr room ↦ inl (ground arith, rw room)
      ]

  with_room :
      (c : Ttl V) (key : String) (e : Entry V) (room : Dict (Entry V))
      → 0 < c.max_size
      → length room < c.max_size
      → IsDict room
      → IsValid (record c { cache = insert key e room })
  with_room c key e room pos le d = record {
    positive = pos;
    bounded = ground (arith, length-insert key e room);
    distinct = insert-IsDict key e room d;
  }

  -- `put` into a valid cache never raises, keeps the invariant, and stores the value under the key
  -- with a time-to-live that is never 0 by default.
  pub put-lookup :
      (c : Ttl V) (key : String) (value : Option V) (ttl : Option ℕ) (now : ℕ)
      → IsValid c
      → (c' : Ttl V) × (put c key value ttl now ≡ some c')
        × IsValid c'
        × (lookup key c'.cache ≡ some (new_entry value (some (or_default ttl c.default_ttl)) now))
  unfolding put
  put-lookup c key value ttl now h = elim (make_room_lem c h) [
    | inl (room, made) ↦ (
      record c { cache = insert key e c.cache },
      rw (made, put),
      with_room c key e c.cache h.positive room h.distinct,
      rw (lookup-insert, eq_refl),
    )
    | inr (k, x, made, found, from) ↦ (
      record c { cache = insert key e (erase k c.cache) },
      rw (made, put),
      with_room c key e (erase k c.cache) h.positive
          (ground (arith, length-erase k c.cache h.distinct, h.bounded))
          (erase-IsDict k c.cache h.distinct),
      rw (lookup-insert, eq_refl),
    )
  ]
    where
      e : Entry V
      e = new_entry value (some (or_default ttl c.default_ttl)) now

  found-IsValid :
      (c : Ttl V) (key : String) (now : ℕ) (o : Option (Entry V))
      → lookup key c.cache ≡ o
      → IsValid c
      → IsValid (get_found c key now o).0
  unfolding get_found
  found-IsValid c key now none e h = record {
    positive = h.positive;
    bounded = h.bounded;
    distinct = h.distinct;
  }
  found-IsValid c key now (some x) e h = elim (Bool-cases (is_expired x now)) [
    | inl old ↦ rw old (record {
      positive = h.positive;
      bounded = omega (arith, length-erase-le key c.cache, h.bounded);
      distinct = erase-IsDict key c.cache h.distinct;
    })
    | inr live ↦ rw live (record {
      positive = h.positive;
      bounded = ground (arith, length-insert key (record_access x now) c.cache, h.bounded);
      distinct = insert-IsDict key (record_access x now) c.cache h.distinct;
    })
  ]

  pub get-IsValid : (c : Ttl V) (key : String) (now : ℕ) → IsValid c → IsValid (get c key now).0
  unfolding get
  get-IsValid c key now h = found-IsValid c key now (lookup key c.cache) refl h

  pub invalidate-IsValid : (c : Ttl V) (key : String) → IsValid c → IsValid (invalidate c key)
  unfolding invalidate
  invalidate-IsValid c key h = record {
    positive = ground arith;
    bounded = ground (arith, length-erase-le key c.cache, h.bounded);
    distinct = ground (arith, erase-IsDict key c.cache h.distinct, h.distinct);
  }

  -- An overwrite in a full cache evicts as a new key does, so if the evicted entry is another
  -- key's, that key is lost and the cache is one short.
  pub put_overwrites_full :
      (c : Ttl V) (key k : String) (value : Option V) (ttl : Option ℕ) (now : ℕ) {c' : Ttl V}
      → IsValid c
      → length c.cache ≡ c.max_size
      → contains key c.cache ≡ true
      → earliest c.default_ttl c.cache ≡ some k
      → contains k c.cache ≡ true
      → k ≢ key
      → put c key value ttl now ≡ some c'
      → (lookup k c'.cache ≡ none) × (length c'.cache + 1 ≡ length c.cache)
  unfolding put make_room
  put_overwrites_full c key k value ttl now {c'} h full there first old ne e =
      let x : Entry V = new_entry value (some (or_default ttl c.default_ttl)) now in
      ground (
        arith,
        eq_iff k key,
        eq_iff key k,
        eq_refl k,
        lookup-insert key k x (erase k c.cache),
        lookup-erase k k c.cache,
        lookup-erase k key c.cache,
        length-insert key x (erase k c.cache),
        length-erase k c.cache h.distinct,
      )
