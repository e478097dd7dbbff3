-- ===== src/Graph.antt =====
-- internal/graph: deciding whether an extracted entity or fact is known already. The texts of the
-- prompts are not modelled: a client of the language model takes the values that they show.
pub mod EntityResolver
pub mod FactResolver
pub mod MockClient
mod Tests
