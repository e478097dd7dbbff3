-- ===== src/Store.antt =====
-- internal/store: the store in memory (mock_store.go), the search filters and the duplicate check.
-- What a method copies deeply is a value here.
pub mod Filters
pub mod Mock
pub mod Dedup
mod Validation
mod Tests
