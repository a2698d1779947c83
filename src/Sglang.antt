-- ===== src/Sglang.antt =====
-- engines/sglang.rs: the adapter of SGLang.
pub mod Metrics
pub mod Adapter
pub mod Polls
mod Tests
pub mod Latches
