-- ===== src/Cache/Ttl.antt =====
-- `TTLQueryCache` of core/db/cache.py. `put` into a full cache that is empty (`max_size` 0) raises
-- `ValueError` in `min`; `none` stands for that.
pub mod Earliest
pub mod Bounded
use salesdata_api.Base.{
  ℕ, zero, suc, ◌+◌, String, List, [], ◌∷◌, Option, none, some, leb, ltb, length, if◌then◌else◌,
}
use salesdata_api.Base.Dict.{Dict, lookup, contains, erase, insert}
use salesdata_api.Cache.Entry.{Entry, new_entry, is_expired, record_access, Stats, stats_of}

pub record Ttl {ℓ} (V : Type ℓ) : Type ℓ where
  pub max_size : ℕ
  pub default_ttl : ℕ
  pub cache : Dict (Entry V)
  pub hits : ℕ
  pub misses : ℕ

-- `ttl or self.default_ttl`: both `None` and 0 are false
unfoldable pub or_default : Option ℕ → ℕ → ℕ
or_default none default = default
or_default (some zero) default = default
or_default (some (suc n)) default = suc n

module _ {ℓ} {V : Type ℓ} where
  unfoldable pub init : ℕ → ℕ → Ttl V
  init max_size default_ttl = record {
    max_size = max_size;
    default_ttl = default_ttl;
    cache = [];
    hits = 0;
    misses = 0;
  }

  -- what `get` does with the entry that the key has, if any
  unfoldable pub get_found : Ttl V → String → ℕ → Option (Entry V) → Ttl V × Option V
  get_found c key now none = (record c { misses = c.misses + 1 }, none)
  get_found c key now (some entry) =
      if is_expired entry now
      then (record c { cache = erase key c.cache; misses = c.misses + 1 }, none)
      else (
        record c { cache = insert key (record_access entry now) c.cache; hits = c.hits + 1 },
        entry.value,
      )

  unfoldable pub get : Ttl V → String → ℕ → Ttl V × Option V
  get c key now = get_found c key now (lookup key c.cache)

  unfoldable pub expiry : ℕ → Entry V → ℕ
  expiry default e = e.created_at + or_default e.ttl default

  -- `min` over the keys: the first of those with the least expiry, `best` being that so far
  unfoldable pub earliest_from : ℕ → String → ℕ → Dict (Entry V) → String
  earliest_from default best at [] = best
  earliest_from default best at ((k, e) ∷ rest) =
      let t = expiry default e in
      earliest_from default (if ltb t at then k else best) (if ltb t at then t else at) rest

  unfoldable pub earliest : ℕ → Dict (Entry V) → Option String
  earliest default [] = none
  earliest default ((k, e) ∷ rest) = some (earliest_from default k (expiry default e) rest)

  unfoldable pub make_room : Ttl V → Option (Dict (Entry V))
  make_room c =
      if leb c.max_size (length c.cache)
      then elim (earliest c.default_ttl c.cache) [ none ↦ none | some k ↦ some (erase k c.cache) ]
      else some c.cache

  unfoldable pub put : Ttl V → String → Option V → Option ℕ → ℕ → Option (Ttl V)
  put c key value ttl now = elim (make_room c) [
    | none ↦ none
    | some room ↦ some (record c {
      cache = insert key (new_entry value (some (or_default ttl c.default_ttl)) now) room;
    })
  ]

  unfoldable pub invalidate : Ttl V → String → Ttl V
  invalidate c key = if contains key c.cache then record c { cache = erase key c.cache } else c

  unfoldable pub clear : Ttl V → Ttl V
  clear c = record c { cache = []; hits = 0; misses = 0 }

  unfoldable pub size : Ttl V → ℕ
  size c = length c.cache

  unfoldable pub stats : Ttl V → Stats
  unfolding stats_of
  stats c = stats_of (size c) c.max_size c.hits c.misses
