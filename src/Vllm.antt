-- ===== src/Vllm.antt =====
-- engines/vllm.rs: the adapter of vLLM.
pub mod Metrics
pub mod Adapter
mod Tests
pub mod Warming
