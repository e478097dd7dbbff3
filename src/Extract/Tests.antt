-- ===== src/Extract/Tests.antt =====
-- internal/extract: the theorem at one memory.
use openclaw_cortex.Base.{ℕ, false, some, [], ◌∷◌, lookup}
use openclaw_cortex.Store.Mock.{new_mock_store}
use openclaw_cortex.Graph.MockClient.{new_mock_client}
use openclaw_cortex.Extract.Run.{StoredMemory, run}
use openclaw_cortex.Extract.Run.Grounded.{Answers, in_memory_deps, Grounded}
use openclaw_cortex.Extract.Run.Joined.{run-Grounded}
use openclaw_cortex.Samples.{entity_e, fact_f}

-- A fact between "Ann" and herself, and one with an unknown end.
abbrev answers : Answers ℕ
answers = record {
  extract_entities = λ i text. some (entity_e ∷ []);
  extract_facts = λ i text names.
      some (record fact_f { source_entity_id = "Ann"; target_entity_id = "Ann" } ∷ fact_f ∷ []);
  ended_first = λ i. false;
  ended_second = λ i. false;
  to_lower = λ s. s;
}

abbrev memory_m : StoredMemory
memory_m = record { id = "m"; content = "text" }

nothing-Grounded : Grounded (new_mock_store {F = ℕ}, new_mock_client)
unfolding lookup
nothing-Grounded = record { joins = λ id f e. cc }

run-Grounded_example :
    Grounded
      (run (some (in_memory_deps answers)) (memory_m ∷ []) (new_mock_store, new_mock_client)).0
run-Grounded_example =
    run-Grounded answers (memory_m ∷ []) (new_mock_store, new_mock_client) nothing-Grounded
