-- ===== src/App.antt =====
-- core/app: the start and the end of the process.
pub mod Lifespan
