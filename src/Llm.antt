-- ===== src/Llm.antt =====
-- internal/llm: the client that guards the calls of the language model.
pub mod Resilient
mod Tests
