-- ===== src/Lib.antt =====
-- The sales data API: an HTTP service that runs SQL statements against a warehouse for callers with
-- scopes, caches the results of reads, pools connections and limits rates. This library models its
-- core and proves what the parts promise.
--
-- A request reaches `QueryService.run` (core/services/query_service.py, in Query/Service). It is
-- classified by its text and its cost (core/db/sql_policy.py, in Sql/Policy over the matcher of
-- Sql/Regex); a write needs the scope "write". A write goes to the warehouse and then invalidates what
-- it may have changed. A read goes through `QueryCacheCoordinator`
-- (core/caching/query_cache_coordinator.py, in Query/Coordinator, its lookup in
-- Query/Coordinator/Lookup): the in-process cache L1 (`HybridQueryCache` of core/db/cache.py, in
-- Cache), then the table `query_cache` of the service database as L2
-- (core/caching/query_result_cache.py, in Query/ResultCache), then the warehouse. Its rows are cut to
-- the limits of core/services/query_limits.py (Query/Limits).
--
-- Before a request reaches a route, `enforce_auth` (core/auth/middleware.py, in Auth/Middleware) finds out
-- whom it comes from: by a key that `APIKeyService` (core/auth/api_key_service.py, in Auth/ApiKeys)
-- validates against the table `api_keys` (core/storage/service_db.py, in Storage/Keys) or a cache of
-- thirty seconds, or by a token. The routes of core/app/api/routes/auth.py (Auth/Routes) register users,
-- log them in, change their roles (Auth/Routes/Roles) over the table `users` (Storage/Users), and manage
-- keys (Auth/Routes/Keys).
--
-- Cache/Entry, Cache/Lru, Cache/Ttl, Cache/Hybrid: CacheEntry and the three caches of core/db/cache.py,
-- one function for each method, and the decorator `query_cache`.
-- Auth/RateLimiter: `check_and_record` and `reset` of core/auth/rate_limiter.py.
-- Auth/ApiKeys: one function for each method of APIKeyService, and `step` for calls that overlap: a
-- validation arrives, its query is read by the executor, and it finishes; a revocation changes the row
-- and then evicts. Auth/Passwords: core/auth/passwords.py.
-- Sql/Chars, Sql/Regex, Sql/Policy: texts as lists of code points, the part of Python's `re` that the
-- policy uses, and every function of the policy.
-- Pool/Sizer: AdaptiveSizer of core/db/pool/adaptive.py. Pool/Sync: SyncConnectionPool of
-- core/db/pool/sync_pool.py, one function for each stretch of code under its lock; threads are the
-- order in which they take these steps (Pool/Sync/Steps). Pool/Async: AsyncConnectionPool of
-- core/db/pool/async_pool.py, the same state with a list of waiting events.
-- Query/Persistence: CachePersistenceQueue of core/caching/persistence_queue.py, its workers as steps.
-- Concurrency/Cpu: core/concurrency/cpu.py, with what the system reports as arguments.
-- Storage/Transaction: `transaction` of core/storage/service_db.py. Observability/WriteQueue and
-- Observability/Alerts: core/observability/write_queue.py and alerts.py; Observability/Histogram: the class
-- `Histogram` of core/performance/histogram.py. App/Lifespan: `ApplicationLifespan` of core/app/lifespan.py,
-- its steps in order, and the container.
-- Pool/Session: the end of `get_sync_session` of core/db/session.py, with the classifier of errors of
-- core/db/pool/base.py. Auth/Bootstrap: the script bootstrap_admin.py, and `initialize_admin_user` of
-- core/storage/service_db.py, whose `cleanup_expired_cache` is in Query/ResultCache/Cleanup.
-- Observability/Sampler: core/performance/adaptive_sampler.py.
-- Base: shared names, lists, Boolean tests, and dictionaries in insertion order. Tests: runs of the
-- model, and the theorems at concrete inputs.
--
-- Conventions. State is passed explicitly. A clock is an argument, in ticks from 0. A Python exception
-- is `none` or a constructor of the result. An operation on a shared structure under a lock is one
-- step. Text is ASCII. The database, hashing, JSON and `LIKE` are parameters (the record `Codec`), and
-- so is the warehouse's session.
--
-- Fuel. `greedy` and `reluctant` of Sql/Regex take the characters that are left as fuel, since a round
-- that consumes none ends the loop. `tables_from` takes one more than the characters of the statement,
-- since each of its rounds consumes one.
--
-- Not modelled: the records of core/observability, the route of queries, and the rest of the performance
-- library, which may follow; drivers, exporters, dashboards and the other scripts, which are I/O.
pub mod Base
pub mod Cache
pub mod Auth
pub mod Sql
pub mod Storage
pub mod Pool
pub mod Concurrency
pub mod Query
pub mod Observability
pub mod App
mod Tests
