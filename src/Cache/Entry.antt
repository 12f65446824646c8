-- ===== src/Cache/Entry.antt =====
-- `CacheEntry` of core/db/cache.py. One reading of the clock serves both of its time stamps.
use salesdata_api.Base.{ℕ, ◌+◌, ◌*◌, if◌then◌else◌, Option, none, some, Bool, false, ltb}

pub record Entry {ℓ} (V : Type ℓ) : Type ℓ where
  pub value : Option V
  pub ttl : Option ℕ
  pub created_at : ℕ
  pub accessed_at : ℕ
  pub access_count : ℕ

module _ {ℓ} {V : Type ℓ} where
  unfoldable pub new_entry : Option V → Option ℕ → ℕ → Entry V
  new_entry value ttl now = record {
    value = value;
    ttl = ttl;
    created_at = now;
    accessed_at = now;
    access_count = 0;
  }

  -- `elapsed > ttl`, the difference taken to the other side
  unfoldable pub is_expired : Entry V → ℕ → Bool
  is_expired e now = elim e.ttl [ none ↦ false | some ttl ↦ ltb (e.created_at + ttl) now ]

  unfoldable pub record_access : Entry V → ℕ → Entry V
  record_access e now = record e { accessed_at = now; access_count = e.access_count + 1 }

-- what `stats` reports: the hit rate is the hits times 100 by the requests, or 0 by 1 with none
pub record Stats : Type 0 where
  pub size : ℕ
  pub max_size : ℕ
  pub hits : ℕ
  pub misses : ℕ
  pub hit_rate : ℕ × ℕ
  pub total_requests : ℕ

unfoldable pub stats_of : ℕ → ℕ → ℕ → ℕ → Stats
stats_of size max_size hits misses = record {
  size = size;
  max_size = max_size;
  hits = hits;
  misses = misses;
  hit_rate = if ltb 0 (hits + misses) then (hits * 100, hits + misses) else (0, 1);
  total_requests = hits + misses;
}
