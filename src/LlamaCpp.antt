-- ===== src/LlamaCpp.antt =====
-- engines/llamacpp.rs: the adapter of llama.cpp's server.
pub mod Answers
pub mod Identified
pub mod Metrics
pub mod Adapter
pub mod Polls
pub mod Groups
pub mod Scrapes
pub mod Declared
pub mod Tests
