-- ===== src/Hooks.antt =====
-- internal/hooks: what happens before and after a turn of an agent.
pub mod PreTurn
pub mod PostTurn
pub mod RerankCache
mod Tests
