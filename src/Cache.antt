-- ===== src/Cache.antt =====
-- core/db/cache.py: the in-process query caches, `LRUQueryCache`, `TTLQueryCache` and
-- `HybridQueryCache`. A cached value is `Any` in the source, so it may be Python's `None`: it is an
-- `Option V` here, and `get` returns `none` for a miss and for a cached `None` alike. The clock is
-- an argument of each call, in ticks; a time-to-live is a number of ticks.
pub mod Lru
pub mod Ttl
pub mod Hybrid
pub mod Entry
