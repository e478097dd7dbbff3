-- ===== src/Indexer.antt =====
-- The indexer of Markdown files of internal/indexer.
pub mod Tree
pub mod Split
pub mod Files
pub mod Summaries
mod Tests
