-- ===== src/Extract.antt =====
-- The extraction of entities and facts from stored memories: internal/capture/entity_extractor.go,
-- internal/graph/fact_extractor.go and internal/extract/post_store.go.
pub mod Entities
pub mod Facts
pub mod Run
mod Tests
