-- ===== src/Capture/Contradiction.antt =====
-- internal/capture/contradiction.go: the three stages of the contradiction detector, and the
-- invalidation of what it finds in the store of mock_store.go.
pub mod Filter
pub mod Laws
pub mod Found
pub mod Members
pub mod Candidates
pub mod Kept
pub mod Report
pub mod Expired
use openclaw_cortex.Base.{
  ℕ, zero, suc, String, Bool, true, false, not, ◌&&◌, ◌||◌, Option, none, some, List, [], ◌∷◌, ◌++◌,
  map, keep, any, length, if◌then◌else◌, ◌==◌, Map, lookup, insert, values, str_eq,
}
use openclaw_cortex.Base.Float.{Float}
use openclaw_cortex.Base.Strings.{Strings}
use openclaw_cortex.Models.{Memory, SearchResult, Fact}
use openclaw_cortex.Store.Filters.{is_none}
use openclaw_cortex.Store.Mock.{MockStore, invalidate_memory}
use openclaw_cortex.Graph.MockClient.{with_id}
use openclaw_cortex.Capture.Contradiction.Filter.{Words, exclusive_conflict, keyword_conflict}

pub record ContradictionConfig (F : Type 0) : Type 0 where
  pub enabled : Bool
  pub similarity_threshold : F
  pub max_candidates : ℕ
  pub llm_confirm_threshold : F

-- The JSON that the language model answers with.
pub record Verdict : Type 0 where
  pub contradicts : Bool
  pub reason : String

pub record ContradictionResult : Type 0 where
  pub candidate_id : String
  pub reason : String

-- The two reads that the detector makes of the graph; `none` is an error.
pub record FactSource (F : Type 0) : Type 0 where
  pub get_memory_facts : String → Option (List (Fact F))
  pub get_facts_for_entity : String → Option (List (Fact F))

-- The calls of the detector. `search` is the store's Search without filters, `complete` the language
-- model's answer to the prompt about the new and the old content within the timeout, `unfenced` the
-- cutting of code fences, `unmarshal` the JSON parser, and `auto_reason` fmt.Sprintf.
pub record Detector (F : Type 0) : Type 0 where
  pub search : List F → ℕ → Option (List (SearchResult F))
  pub get : String → Option (Memory F)
  pub graph_client : Option (FactSource F)
  pub complete : Option (String → String → Option String)
  pub unfenced : String → String
  pub unmarshal : String → Option Verdict
  pub auto_reason : F → F → String
  pub cfg : ContradictionConfig F

module _ (fl : Float) (st : Strings) (words : Words) (d : Detector (fl.Number)) where
  open fl use {Number, lit, lt, eq}

  -- `a >= b`
  abbrev pub at_least : Number → Number → Bool
  at_least a b = lt b a || eq a b

  -- byID and scores
  abbrev pub Pool : Type 0
  Pool = Map (Memory Number) × Map Number

  abbrev pub put : String → Memory Number → Number → Pool → Pool
  put id m score (by_id, scores) = (insert id m by_id, insert id score scores)

  unfoldable pub add_similar : List (SearchResult Number) → Pool → Pool
  add_similar [] pool = pool
  add_similar (r ∷ rs) pool = add_similar rs (
      if at_least r.score d.cfg.similarity_threshold
      then put r.memory.id r.memory r.score pool
      else pool)

  abbrev pub with_ends : List String → List (Fact Number) → List String
  with_ends ids [] = ids
  with_ends ids (f ∷ fs) =
      with_ends (with_id f.target_entity_id (with_id f.source_entity_id ids)) fs

  unfoldable pub entity_ids : FactSource Number → List (Memory Number) → List String → List String
  entity_ids g [] ids = ids
  entity_ids g (m ∷ ms) ids =
      entity_ids g ms
        (elim (g.get_memory_facts m.id) [ none ↦ ids | some facts ↦ with_ends ids facts ])

  unfoldable pub add_source : String → Pool → Pool
  add_source id pool =
      if is_none (lookup id pool.0)
      then (elim (d.get id) [ none ↦ pool | some m ↦ put id m (lit 75 2) pool ])
      else pool

  unfoldable pub add_sources : List String → Pool → Pool
  unfolding add_source
  add_sources [] pool = pool
  add_sources (id ∷ ids) pool = add_sources ids (add_source id pool)

  unfoldable pub add_fact_sources : List (Fact Number) → Pool → Pool
  unfolding add_sources
  add_fact_sources [] pool = pool
  add_fact_sources (f ∷ fs) pool = add_fact_sources fs (add_sources f.source_memory_ids pool)

  unfoldable pub add_linked : FactSource Number → List String → Pool → Pool
  unfolding add_fact_sources
  add_linked g [] pool = pool
  add_linked g (id ∷ ids) pool =
      add_linked g ids
        (elim (g.get_facts_for_entity id) [ none ↦ pool | some fs ↦ add_fact_sources fs pool ])

  unfoldable pub enrich_from_graph : FactSource Number → Pool → Pool
  unfolding entity_ids add_linked
  enrich_from_graph g pool = add_linked g (entity_ids g (values pool.0) []) pool

  unfoldable pub pool_of : List (SearchResult Number) → Pool
  unfolding add_similar enrich_from_graph
  pool_of results =
      let similar = add_similar results ([], []) in
      elim d.graph_client [ none ↦ similar | some g ↦ enrich_from_graph g similar ]

  unfoldable pub retrieve_candidates : List Number → Option (List (Memory Number) × Map Number)
  unfolding pool_of
  retrieve_candidates embedding = elim (d.search embedding d.cfg.max_candidates) [
    | none ↦ none
    | some results ↦ let (by_id, scores) = pool_of results in some (values by_id, scores)
  ]

  -- hasExclusivePredicateConflict, with no facts on an error.
  unfoldable pub suspicious : String → Memory Number → Bool
  unfolding exclusive_conflict keyword_conflict
  suspicious new_content cand = elim d.graph_client [
    | none ↦ keyword_conflict st words new_content cand
    | some g ↦ elim (g.get_memory_facts cand.id) [
      | none ↦ false
      | some facts ↦ exclusive_conflict st words (st.to_lower new_content) facts
    ]
  ]

  unfoldable pub heuristic_filter : String → List (Memory Number) → List (Memory Number)
  unfolding suspicious
  heuristic_filter new_content candidates = keep (suspicious new_content) candidates

  -- `none` on an error, an empty answer and one that does not parse.
  unfoldable pub call_llm : (String → String → Option String) → String → String → Option Verdict
  call_llm complete new_content candidate_content = elim (complete new_content candidate_content) [
    | none ↦ none
    | some raw ↦
        let text = st.trim_space (d.unfenced raw) in
        if str_eq text "" then none else d.unmarshal text
  ]

  abbrev pub similarity : Map Number → String → Number
  similarity scores id = elim (lookup id scores) [ none ↦ lit 0 0 | some x ↦ x ]

  unfoldable pub judge :
      String → Map Number → Memory Number → List ContradictionResult → List ContradictionResult
  unfolding call_llm
  judge new_content scores m rest =
      let sim = similarity scores m.id in
      if at_least sim d.cfg.llm_confirm_threshold
      then record { candidate_id = m.id; reason = d.auto_reason sim d.cfg.llm_confirm_threshold }
        ∷ rest
      else elim d.complete [
        | none ↦
            record {
              candidate_id = m.id;
              reason = "heuristic: exclusive-predicate signal detected (no LLM confirmation)";
            }
            ∷ rest
        | some complete ↦ elim (call_llm complete new_content m.content) [
          | none ↦ rest
          | some v ↦
              if v.contradicts
              then record { candidate_id = m.id; reason = v.reason } ∷ rest
              else rest
        ]
      ]

  unfoldable pub llm_confirm : String → Map Number → List (Memory Number) → List ContradictionResult
  unfolding judge
  llm_confirm new_content scores [] = []
  llm_confirm new_content scores (m ∷ ms) =
      judge new_content scores m (llm_confirm new_content scores ms)

  unfoldable pub find_contradictions : String → List Number → List ContradictionResult
  unfolding retrieve_candidates heuristic_filter llm_confirm
  find_contradictions new_content new_embedding =
      if d.cfg.enabled
      then (elim (retrieve_candidates new_embedding) [
        | none ↦ []
        | some (candidates, scores) ↦
            llm_confirm new_content scores (heuristic_filter new_content candidates)
      ])
      else []

-- InvalidateContradictions: a memory that is not found is passed over.
unfoldable pub invalidate_contradictions :
    {F : Type 0} → ℕ → List ContradictionResult → MockStore F → MockStore F
invalidate_contradictions now [] s = s
invalidate_contradictions now (r ∷ rs) s =
    invalidate_contradictions now rs (invalidate_memory r.candidate_id now s).0
