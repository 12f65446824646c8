-- ===== src/Observability.antt =====
-- core/observability and core/performance: what is recorded of requests, and the alerts.
pub mod WriteQueue
pub mod Histogram
pub mod Alerts
pub mod Sampler
