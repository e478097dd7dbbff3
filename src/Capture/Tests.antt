-- ===== src/Capture/Tests.antt =====
-- internal/capture: the theorems at concrete memories.
use openclaw_cortex.Base.{ℕ, true, none, some, [], ◌∷◌}
use openclaw_cortex.Models.{Fact, SearchResult}
use openclaw_cortex.Graph.MockClient.{MockClient, new_mock_client}
use openclaw_cortex.Capture.Contradiction.{Detector}
use openclaw_cortex.Capture.Contradiction.Filter.{Words}
use openclaw_cortex.Samples.{memory_a, found_a, fact_f}

abbrev lengths : Words
lengths = record { len = λ s. 4; trim = λ s. s }

-- The memory `a`, of another content.
abbrev found_j : SearchResult ℕ
found_j = record found_a { memory = record memory_a { content = "joined" } }

-- A search that finds `a`, without a graph and a language model.
abbrev detector : Detector ℕ
detector = record {
  search = λ v limit. some (found_j ∷ []);
  get = λ id. none;
  graph_client = none;
  complete = none;
  unfenced = λ s. s;
  unmarshal = λ s. none;
  auto_reason = λ a b. "alike";
  cfg = record {
    enabled = true;
    similarity_threshold = 1;
    max_candidates = 20;
    llm_confirm_threshold = 4;
  };
}

-- A fact of the memory `a`.
abbrev fact_a : Fact ℕ
fact_a = record fact_f { source_memory_ids = "a" ∷ []; relation_type = "WORKS_AT" }

abbrev graph_a : MockClient ℕ
graph_a = record new_mock_client { facts = ("f", fact_a) ∷ [] }
