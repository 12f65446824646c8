-- ===== src/Tests.antt =====
-- Runs of the model at concrete inputs, and the theorems at inputs that meet their hypotheses.
mod Policy
mod Caches
mod Limiter
mod Pools
mod Requests
mod Background
mod Keys
mod Accounts
mod Telemetry
