-- ===== src/Graph/Tests.antt =====
-- internal/graph: the theorems at concrete entities and facts.
use openclaw_cortex.Base.{ℕ, Bool, List, lookup, erase, true, false, none, some, [], ◌∷◌, ◌≡◌, refl}
use openclaw_cortex.Base.Int.{pos}
use openclaw_cortex.Models.{Fact}
use openclaw_cortex.Graph.EntityResolver.{
  EntityResult, ResolutionResponse, deterministic_match, resolve,
}
use openclaw_cortex.Graph.FactResolver.Laws.{resolve_fact-Sound}
use openclaw_cortex.Graph.EntityResolver as Entities
use openclaw_cortex.Graph.FactResolver as Facts
use openclaw_cortex.Graph.FactResolver.Laws as FactLaws
use openclaw_cortex.Base.Sort.{exchange_sort}
use openclaw_cortex.Graph.MockClient.{
  MockClient, FactResult, new_mock_client, invalidate_fact, get_facts_between, get_facts_for_entity,
  recall_by_graph, search_facts,
}
use openclaw_cortex.Graph.MockClient.Laws.{invalidate_fact-erases}
use openclaw_cortex.Samples.{whole, words, fact_f}

abbrev candidate : EntityResult ℕ
candidate = record { id = "c"; name = "Bob"; type = "person"; score = 1 }

-- The language model names the id "x".
abbrev inventing : Entities.Resolver ℕ
inventing = record {
  search_entities = λ name v project limit. some (candidate ∷ []);
  get_entity = λ id. none;
  equal_fold = λ a b. false;
  client = some (λ e cs context. some "answer");
  unmarshal = λ text. some (record { is_duplicate = true; existing_id = "x" });
  threshold = 1;
  max_cands = 10;
}

-- The language model says that the first and a ninth fact are contradicted.
abbrev contradicting : Facts.Resolver ℕ
contradicting = record {
  get_facts_between = λ a b. some (fact_f ∷ []);
  client = some (λ cs new. some "answer");
  unmarshal =
      λ text. some (record { duplicate_indices = []; contradicted_indices = pos 1 ∷ pos 9 ∷ [] });
}

abbrev fact_n : Fact ℕ
fact_n = record fact_f { id = "n"; fact_text = "other text" }

resolve_fact-Sound_example : FactLaws.Sound (fact_f ∷ []) (Facts.resolve contradicting fact_n)
resolve_fact-Sound_example = resolve_fact-Sound contradicting fact_n (fact_f ∷ []) refl

abbrev graph_f : MockClient ℕ
graph_f = record new_mock_client { facts = ("f", fact_f) ∷ ("n", fact_n) ∷ [] }

abbrev sorted : (FactResult ℕ → FactResult ℕ → Bool) → List (FactResult ℕ) → List (FactResult ℕ)
sorted less xs = exchange_sort less xs

abbrev without_f : MockClient ℕ
without_f = record graph_f { facts = erase "f" graph_f.facts }

abbrev after_f : MockClient ℕ
after_f = (invalidate_fact "f" 8 8 graph_f).0

invalidate_fact-erases_example :
    (get_facts_between "h" "e" after_f ≡ get_facts_between "h" "e" without_f)
    × (get_facts_for_entity "e" after_f ≡ get_facts_for_entity "e" without_f)
    × (recall_by_graph after_f ≡ recall_by_graph without_f)
    × (search_facts whole words sorted "text" [] 5 after_f
        ≡ search_facts whole words sorted "text" [] 5 without_f)
unfolding lookup
invalidate_fact-erases_example =
    invalidate_fact-erases whole words "f" 8 8 graph_f fact_f sorted "h" "e" "e" "text" [] 5
      (refl, (refl, tt)) refl
