-- ===== src/Ollama.antt =====
-- engines/ollama.rs: where an Ollama server listens, which server is one, and what it has loaded.
pub mod Host
pub mod Identify
pub mod Adapter
pub mod Loaded
pub mod Refresh
mod Tests
