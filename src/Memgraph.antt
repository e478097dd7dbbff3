-- ===== src/Memgraph.antt =====
-- internal/memgraph: the parts of the database's clients that compute before and after a query. The
-- answers of the queries are arguments.
pub mod Where
pub mod Traversal
mod Tests
