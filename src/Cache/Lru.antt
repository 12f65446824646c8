-- ===== src/Cache/Lru.antt =====
-- `LRUQueryCache` of core/db/cache.py. The dict is an `OrderedDict`: the least recently used key
-- comes first. `put` into a full cache that is empty (`max_size` 0) raises `StopIteration` in
-- `next(iter(…))`; `none` stands for that.
pub mod Bounded
pub mod Reads
pub mod Accesses
pub mod Order
use salesdata_api.Base.{
  ℕ, ◌+◌, String, List, [], ◌∷◌, Option, none, some, Bool, leb, length, if◌then◌else◌,
}
use salesdata_api.Base.Dict.{Dict, lookup, contains, erase, push_back}
use salesdata_api.Cache.Entry.{Entry, new_entry, is_expired, record_access, Stats, stats_of}

pub record Lru {ℓ} (V : Type ℓ) : Type ℓ where
  pub max_size : ℕ
  pub cache : Dict (Entry V)
  pub hits : ℕ
  pub misses : ℕ

module _ {ℓ} {V : Type ℓ} where
  unfoldable pub init : ℕ → Lru V
  init max_size = record { max_size = max_size; cache = []; hits = 0; misses = 0 }

  -- what `get` does with the entry that the key has, if any
  unfoldable pub get_found : Lru V → String → ℕ → Option (Entry V) → Lru V × Option V
  get_found c key now none = (record c { misses = c.misses + 1 }, none)
  get_found c key now (some entry) =
      if is_expired entry now
      then (record c { cache = erase key c.cache; misses = c.misses + 1 }, none)
      else (
        record c {
          cache = push_back key (record_access entry now) (erase key c.cache);
          hits = c.hits + 1;
        },
        entry.value,
      )

  unfoldable pub get : Lru V → String → ℕ → Lru V × Option V
  get c key now = get_found c key now (lookup key c.cache)

  -- `removed_key = next(iter(self.cache)); del self.cache[removed_key]`
  unfoldable pub evict_first : Dict (Entry V) → Option (Dict (Entry V))
  evict_first [] = none
  evict_first ((k, e) ∷ rest) = some (erase k ((k, e) ∷ rest))

  unfoldable pub make_room : Lru V → Option (Dict (Entry V))
  make_room c = if leb c.max_size (length c.cache) then evict_first c.cache else some c.cache

  unfoldable pub put : Lru V → String → Option V → Option ℕ → ℕ → Option (Lru V)
  put c key value ttl now =
      if contains key c.cache
      then some (record c { cache = push_back key (new_entry value ttl now) (erase key c.cache) })
      else elim (make_room c) [
        | none ↦ none
        | some room ↦ some (record c { cache = push_back key (new_entry value ttl now) room })
      ]

  unfoldable pub invalidate : Lru V → String → Lru V
  invalidate c key = if contains key c.cache then record c { cache = erase key c.cache } else c

  unfoldable pub clear : Lru V → Lru V
  clear c = record c { cache = []; hits = 0; misses = 0 }

  unfoldable pub size : Lru V → ℕ
  size c = length c.cache

  unfoldable pub stats : Lru V → Stats
  unfolding stats_of
  stats c = stats_of (size c) c.max_size c.hits c.misses
