-- ===== src/Concurrency.antt =====
-- core/concurrency: how much of the machine the pools and executors take.
pub mod Cpu
