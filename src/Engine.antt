-- ===== src/Engine.antt =====
-- engines/mod.rs: the types of the metrics contract, the life of one engine, and the collector loop.
pub mod Types
pub mod Metrics
pub mod State
pub mod Collector
pub mod ApiKeys
pub mod Sample
