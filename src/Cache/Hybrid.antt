-- ===== src/Cache/Hybrid.antt =====
-- `HybridQueryCache` of core/db/cache.py, and the decorator `query_cache`.
pub mod Laws
use salesdata_api.Base.{ℕ, ◌≡◌, refl, String, Option, none, some, arith}
use salesdata_api.Cache.Entry.{Stats}
use salesdata_api.Cache.Lru.{Lru}
use salesdata_api.Cache.Lru
use salesdata_api.Cache.Ttl.{Ttl}
use salesdata_api.Cache.Ttl

pub record Hybrid {ℓ} (V : Type ℓ) : Type ℓ where
  pub lru : Lru V
  pub ttl : Ttl V

module _ {ℓ} {V : Type ℓ} where
  unfoldable pub init : ℕ → ℕ → Hybrid V
  init max_size default_ttl = record {
    lru = Lru.init max_size;
    ttl = Ttl.init max_size default_ttl;
  }

  -- `if value is not None: self.ttl.get(key); return value`
  unfoldable pub get_checked : Hybrid V → String → ℕ → Lru V × Option V → Hybrid V × Option V
  get_checked c key now (lru, none) = (record c { lru = lru }, none)
  get_checked c key now (lru, some v) =
      (record { lru = lru; ttl = (Ttl.get c.ttl key now).0 }, some v)

  unfoldable pub get : Hybrid V → String → ℕ → Hybrid V × Option V
  get c key now = get_checked c key now (Lru.get c.lru key now)

  unfoldable pub put : Hybrid V → String → Option V → Option ℕ → ℕ → Option (Hybrid V)
  put c key value ttl now = elim (Lru.put c.lru key value ttl now) [
    | none ↦ none
    | some lru ↦ elim (Ttl.put c.ttl key value ttl now) [
      | none ↦ none
      | some t ↦ some (record { lru = lru; ttl = t })
    ]
  ]

  unfoldable pub invalidate : Hybrid V → String → Hybrid V
  invalidate c key = record { lru = Lru.invalidate c.lru key; ttl = Ttl.invalidate c.ttl key }

  unfoldable pub clear : Hybrid V → Hybrid V
  clear c = record { lru = Lru.clear c.lru; ttl = Ttl.clear c.ttl }

  unfoldable pub size : Hybrid V → ℕ
  size c = Lru.size c.lru

  -- of both halves, and `combined_size`
  unfoldable pub stats : Hybrid V → Stats × Stats × ℕ
  stats c = (Lru.stats c.lru, Ttl.stats c.ttl, size c)

  -- `wrapper` of the decorator `query_cache`: `key` is the text made of the function's name and its
  -- arguments, and `func` the call of the function, with the time at which it returns
  unfoldable pub cached_found :
      String → Option ℕ → ℕ → Option V → Hybrid V × Option V → Option (Hybrid V × Option V)
  cached_found key ttl done result (c, some v) = some (c, some v)
  cached_found key ttl done result (c, none) = elim (put c key result ttl done) [
    | none ↦ none
    | some c' ↦ some (c', result)
  ]

  unfoldable pub cached_call :
      Hybrid V → String → Option ℕ → ℕ → ℕ → Option V → Option (Hybrid V × Option V)
  cached_call c key ttl now done result = cached_found key ttl done result (get c key now)
