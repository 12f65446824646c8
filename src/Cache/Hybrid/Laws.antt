-- ===== src/Cache/Hybrid/Laws.antt =====
-- What the hybrid cache promises: its invariant, its reads, and the decorator `query_cache`.
use salesdata_api.Base.{ℕ, ◌≡◌, refl, String, Option, none, some, ◌∙◌, false, if◌then◌else◌}
use salesdata_api.Cache.Entry.{new_entry, is_expired}
use salesdata_api.Cache.Lru
use salesdata_api.Cache.Lru.{Lru}
use salesdata_api.Cache.Ttl
use salesdata_api.Cache.Hybrid.{Hybrid, get, get_checked, put, cached_call, cached_found}

pub record IsValid {ℓ} {V : Type ℓ} (c : Hybrid V) : Type ℓ where
  pub lru : Lru.Bounded.IsValid c.lru
  pub ttl : Ttl.Bounded.IsValid c.ttl

module _ {ℓ} {V : Type ℓ} where
  checked-value :
      (c : Hybrid V) (key : String) (now : ℕ) (r : Lru V × Option V)
      → (get_checked c key now r).1 ≡ r.1
  unfolding get_checked
  checked-value c key now (l, none) = refl
  checked-value c key now (l, some v) = refl

  -- The answer of the hybrid cache is that of its LRU half: the TTL half is read and its answer
  -- dropped, so an entry that only the TTL half takes for expired is still returned.
  pub get-eq-lru :
      (c : Hybrid V) (key : String) (now : ℕ) → (get c key now).1 ≡ (Lru.get c.lru key now).1
  unfolding get
  get-eq-lru c key now = checked-value c key now (Lru.get c.lru key now)

  checked-IsValid :
      (c : Hybrid V) (key : String) (now : ℕ) (r : Lru V × Option V)
      → Lru.Bounded.IsValid r.0
      → IsValid c
      → IsValid (get_checked c key now r).0
  unfolding get_checked
  checked-IsValid c key now (l, none) valid h = record { lru = valid; ttl = h.ttl }
  checked-IsValid c key now (l, some v) valid h = record {
    lru = valid;
    ttl = Ttl.Bounded.get-IsValid c.ttl key now h.ttl;
  }

  -- `get` keeps both halves valid.
  pub get-IsValid : (c : Hybrid V) (key : String) (now : ℕ) → IsValid c → IsValid (get c key now).0
  unfolding get
  get-IsValid c key now h =
      checked-IsValid c key now (Lru.get c.lru key now)
        (Lru.Bounded.get-IsValid c.lru key now h.lru) h

  -- `put` into a valid hybrid cache never raises, keeps both halves valid, and a later `get` of
  -- the key returns the value until the time-to-live that was given, if one was, has passed.
  pub put-get :
      (c : Hybrid V) (key : String) (value : Option V) (ttl : Option ℕ) (now : ℕ)
      → IsValid c
      → (c' : Hybrid V) × (put c key value ttl now ≡ some c')
        × IsValid c'
        × ((later : ℕ)
            → (get c' key later).1
              ≡ (if is_expired (new_entry value ttl now) later then none else value))
  unfolding put
  put-get c key value ttl now h =
      let (l, le, lv) = Lru.Bounded.put-IsValid c.lru key value ttl now h.lru in
      let (t, te, tv, stored) = Ttl.Bounded.put-lookup c.ttl key value ttl now h.ttl in
      (
        record { lru = l; ttl = t },
        rw (le, te, put),
        record { lru = lv; ttl = tv },
        λ later.
            get-eq-lru (record { lru = l; ttl = t }) key later
            ∙ Lru.Reads.get-put_self c.lru key value ttl now later h.lru le
            ∙ (unfold new_entry in refl),
      )

  found-miss :
      (key : String) (ttl : Option ℕ) (done : ℕ) (result : Option V) (r : Hybrid V × Option V)
      {c' : Hybrid V}
      → r.1 ≡ none
      → put r.0 key result ttl done ≡ some c'
      → cached_found key ttl done result r ≡ some (c', result)
  unfolding cached_found
  found-miss key ttl done result (c, none) miss e = rw (e, cached_found)
  found-miss key ttl done result (c, some v) miss e = cc

  found-hit :
      (key : String) (ttl : Option ℕ) (done : ℕ) (result : Option V) (r : Hybrid V × Option V)
      {v : V}
      → r.1 ≡ some v
      → cached_found key ttl done result r ≡ some (r.0, some v)
  unfolding cached_found
  found-hit key ttl done result (c, none) hit = cc
  found-hit key ttl done result (c, some v) hit = cc

  -- A decorated function that is called twice runs once: while the time-to-live has not passed,
  -- the second call returns what the first returned, whatever the function would return now. The
  -- result of the first must not be `None`, which is never taken for a hit.
  pub cached_call_twice :
      (c : Hybrid V) (key : String) (ttl : Option ℕ) (now done : ℕ) (v : V) (later done' : ℕ)
      (other : Option V)
      → IsValid c
      → (get c key now).1 ≡ none
      → is_expired (new_entry (some v) ttl done) later ≡ false
      → (c' : Hybrid V) × (c'' : Hybrid V) × (cached_call c key ttl now done (some v)
          ≡ some (c', some v))
        × (cached_call c' key ttl later done' other ≡ some (c'', some v))
  unfolding cached_call
  cached_call_twice c key ttl now done v later done' other h miss live =
      let (c', e, valid, reads) =
        put-get (get c key now).0 key (some v) ttl done (get-IsValid c key now h) in
      (
        c',
        (get c' key later).0,
        found-miss key ttl done (some v) (get c key now) miss e,
        found-hit key ttl done' other (get c' key later) (reads later ∙ (rw live)),
      )
