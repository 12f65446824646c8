-- ===== src/Query.antt =====
-- core/services and core/caching: a request to run a statement, and the caches in front of it.
pub mod Limits
pub mod ResultCache
pub mod Coordinator
pub mod Service
pub mod Persistence
