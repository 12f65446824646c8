-- ===== src/Cache/Lru/Order.antt =====
-- Recency in `LRUQueryCache`: sequences of calls, the order of the entries, and what is evicted.
use salesdata_api.Base.{
  ℕ, ◌+◌, ◌≤◌, ◌<◌, ◌≡◌, refl, String, List, [], ◌∷◌, ◌++◌, Option, none, some, arith, length,
  Bool-cases, Option-cases, inl, inr, subst,
}
use salesdata_api.Base.Dict.{Dict, lookup, erase}
use salesdata_api.Cache.Entry.{Entry, new_entry, is_expired, record_access}
use salesdata_api.Cache.Lru.{Lru, init, get, get_found, put, invalidate, clear}
use salesdata_api.Cache.Lru.Accesses.{
  Since, Until, IsOrdered, Until-mono, erase-Until, erase-IsOrdered, push_back-Until,
  push_back-IsOrdered,
}
use salesdata_api.Cache.Lru.Bounded.{
  IsValid, kept, after_put, put-after_put, init-IsValid, get-IsValid, put-IsValid,
  invalidate-IsValid, clear-IsValid,
}

module _ {ℓ} {V : Type ℓ} where
  kept_lem :
      (n t : ℕ) (m : Dict (Entry V))
      → Until t m
      → IsOrdered m
      → Until t (kept n m) × IsOrdered (kept n m)
  kept_lem n t [] u h = (tt, tt)
  kept_lem n t (e ∷ m) u h = ground arith

-- A cache that is valid, in order of access, with no access after `now`.
pub record IsRecent {ℓ} {V : Type ℓ} (now : ℕ) (c : Lru V) : Type ℓ where
  pub valid : IsValid c
  pub past : Until now c.cache
  pub ordered : IsOrdered c.cache

module _ {ℓ} {V : Type ℓ} where
  pub init-IsRecent : (n now : ℕ) → 0 < n → IsRecent now (init {V = V} n)
  unfolding init
  init-IsRecent n now h = record { valid = init-IsValid n h; past = tt; ordered = tt }

  found-IsOrdered :
      (c : Lru V) (key : String) (now : ℕ) (o : Option (Entry V))
      → Until now c.cache
      → IsOrdered c.cache
      → Until now (get_found c key now o).0.cache × IsOrdered (get_found c key now o).0.cache
  unfolding get_found record_access
  found-IsOrdered c key now none u h = (u, h)
  found-IsOrdered c key now (some x) u h = elim (Bool-cases (is_expired x now)) [
    | inl old ↦ rw old (erase-Until now key c.cache u, erase-IsOrdered key c.cache h)
    | inr live ↦
        let e : Entry V = record x { accessed_at = now; access_count = x.access_count + 1 } in
        rw live (
          push_back-Until now key e (erase key c.cache) (omega arith)
              (erase-Until now key c.cache u),
          push_back-IsOrdered key e (erase key c.cache) (erase-Until now key c.cache u)
              (erase-IsOrdered key c.cache h),
        )
  ]

  get-IsRecent :
      (c : Lru V) (key : String) (t now : ℕ)
      → t ≤ now
      → IsRecent t c
      → IsRecent now (get c key now).0
  unfolding get
  get-IsRecent c key t now le h =
      let (u, o) =
        found-IsOrdered c key now (lookup key c.cache) (Until-mono c.cache le h.past) h.ordered in
      record { valid = get-IsValid c key now h.valid; past = u; ordered = o }

  after_put-IsOrdered :
      (c : Lru V) (key : String) (value : Option V) (ttl : Option ℕ) (now : ℕ)
      → Until now c.cache
      → IsOrdered c.cache
      → Until now (after_put c key value ttl now) × IsOrdered (after_put c key value ttl now)
  unfolding new_entry
  after_put-IsOrdered c key value ttl now u h = elim (Option-cases (lookup key c.cache)) [
    | inl new ↦
        let (u', h') = kept_lem c.max_size now c.cache u h in
        rw new (
          push_back-Until now key e (kept c.max_size c.cache) (omega arith) u',
          push_back-IsOrdered key e (kept c.max_size c.cache) u' h',
        )
    | inr (x, old) ↦
        let u' = erase-Until now key c.cache u in
        rw old (
          push_back-Until now key e (erase key c.cache) (omega arith) u',
          push_back-IsOrdered key e (erase key c.cache) u' (erase-IsOrdered key c.cache h),
        )
  ]
    where
      e : Entry V
      e = new_entry value ttl now

  put-IsRecent :
      (c : Lru V) (key : String) (value : Option V) (ttl : Option ℕ) (t now : ℕ)
      → t ≤ now
      → IsRecent t c
      → (c' : Lru V) × (put c key value ttl now ≡ some c') × IsRecent now c'
  put-IsRecent c key value ttl t now le h =
      let (c', e, valid) = put-IsValid c key value ttl now h.valid in
      let (u, o) =
        after_put-IsOrdered c key value ttl now (Until-mono c.cache le h.past) h.ordered in
      let same : record c { cache = after_put c key value ttl now } ≡ c' =
        cc (put-after_put c key value ttl now h.valid, e) in
      (
        c',
        e,
        record {
          valid = valid;
          past = subst (λ (d : Lru V). Until now d.cache) same u;
          ordered = subst (λ (d : Lru V). IsOrdered d.cache) same o;
        },
      )

  invalidate-IsRecent :
      (c : Lru V) (key : String) (t now : ℕ)
      → t ≤ now
      → IsRecent t c
      → IsRecent now (invalidate c key)
  invalidate-IsRecent c key t now le h =
      let u = Until-mono c.cache le h.past in
      record {
        valid = invalidate-IsValid c key h.valid;
        past = unfold invalidate in ground (arith, erase-Until now key c.cache u, u);
        ordered =
            unfold invalidate in ground (arith, erase-IsOrdered key c.cache h.ordered, h.ordered);
      }

-- The calls that a client makes, each at a time.
pub data Call {ℓ} (V : Type ℓ) : Type ℓ where
  gets : String → Call V
  puts : String → Option V → Option ℕ → Call V
  invalidates : String → Call V
  clears : Call V

module _ {ℓ} {V : Type ℓ} where
  unfoldable pub step : Lru V → ℕ × Call V → Option (Lru V)
  step c (now, gets key) = some (get c key now).0
  step c (now, puts key value ttl) = put c key value ttl now
  step c (now, invalidates key) = some (invalidate c key)
  step c (now, clears) = some (clear c)

  unfoldable pub run : Lru V → List (ℕ × Call V) → Option (Lru V)
  run c [] = some c
  run c (call ∷ calls) = elim (step c call) [ none ↦ none | some c' ↦ run c' calls ]

  -- times that do not run backwards from `t`
  abbrev pub Forward : ℕ → List (ℕ × Call V) → Type 0
  Forward t [] = Unit
  Forward t ((now, call) ∷ calls) = (t ≤ now) × Forward now calls

  abbrev pub end : ℕ → List (ℕ × Call V) → ℕ
  end t [] = t
  end t ((now, call) ∷ calls) = end now calls

  step-IsRecent :
      (c : Lru V) (t now : ℕ) (call : Call V)
      → t ≤ now
      → IsRecent t c
      → (c' : Lru V) × (step c (now, call) ≡ some c') × IsRecent now c'
  unfolding step clear
  step-IsRecent c t now (gets key) le h = ((get c key now).0, refl, get-IsRecent c key t now le h)
  step-IsRecent c t now (puts key value ttl) le h = put-IsRecent c key value ttl t now le h
  step-IsRecent c t now (invalidates key) le h =
      (invalidate c key, refl, invalidate-IsRecent c key t now le h)
  step-IsRecent c t now clears le h =
      (clear c, refl, record { valid = clear-IsValid c h.valid; past = tt; ordered = tt })

  -- From a recent cache no sequence of calls raises, while the clock does not run backwards, and
  -- the cache stays within its size, with no key twice, in the order of the last accesses.
  pub run-IsRecent :
      (calls : List (ℕ × Call V)) (c : Lru V) (t : ℕ)
      → Forward t calls
      → IsRecent t c
      → (c' : Lru V) × (run c calls ≡ some c') × IsRecent (end t calls) c'
  unfolding run
  run-IsRecent [] c t forward h = (c, refl, h)
  run-IsRecent ((now, call) ∷ calls) c t forward h =
      let (c₁, e, h₁) = step-IsRecent c t now call forward.0 h in
      let (c₂, e₂, h₂) = run-IsRecent calls c₁ now forward.1 h₁ in (c₂, rw (e, run) e₂, h₂)

  -- A `put` of a new key into a full, ordered cache drops exactly the first entry, which was
  -- accessed no later than any that stays, and appends the new one.
  pub put-evicts_oldest :
      (c : Lru V) (key k : String) (e : Entry V) (rest : Dict (Entry V)) (value : Option V)
      (ttl : Option ℕ) (t now : ℕ)
      → IsRecent t c
      → c.cache ≡ (k, e) ∷ rest
      → length c.cache ≡ c.max_size
      → lookup key c.cache ≡ none
      → (c' : Lru V) × (put c key value ttl now ≡ some c')
        × (c'.cache ≡ rest ++ (key, new_entry value ttl now) ∷ [])
        × Since e.accessed_at rest
  put-evicts_oldest c key k e rest value ttl t now h shape full new = (
    record c { cache = after_put c key value ttl now },
    put-after_put c key value ttl now h.valid,
    ground arith,
    (subst IsOrdered shape h.ordered).0,
  )
