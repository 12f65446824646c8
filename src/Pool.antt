-- ===== src/Pool.antt =====
-- core/db/pool: the adaptive size of a connection pool, and the pools of threads and of tasks.
pub mod Sizer
pub mod Slots
pub mod Sync
pub mod Async
pub mod Session
