-- ===== src/Llm.antt =====
-- Calls of chat models (internal/llm).
pub mod Retry
