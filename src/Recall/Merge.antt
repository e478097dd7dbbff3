-- ===== src/Recall/Merge.antt =====
-- internal/recall/recall.go `RecallWithGraph` and `communitySweep`: the vector results, then the
-- memories that the graph adds.
pub mod Laws
pub mod Unfiltered
use openclaw_cortex.Base.{
  ℕ, zero, suc, String, Bool, true, false, not, ◌&&◌, Option, none, some, List, [], ◌∷◌, ◌++◌, map,
  ltb, leb, length, if◌then◌else◌, Map,
}
use openclaw_cortex.Base.Int.{ℤ, pos, negsuc}
use openclaw_cortex.Base.Float.{Float}
use openclaw_cortex.Base.Strings.{Strings}
use openclaw_cortex.Base.Once.{member}
use openclaw_cortex.Models.{Memory, SearchResult}
use openclaw_cortex.Graph.EntityResolver.{EntityResult}
use openclaw_cortex.Recall.{
  RecallResult, Recaller, GraphClient, GraphRecall, with_hops, with_depth, base,
  graph_depth_or_default,
}
use openclaw_cortex.Recall.Scores.{Sorting, rank, rank_with_graph_proximity}
use openclaw_cortex.Recall.Fusion.{id_of, score_of, rrf_score, rrf_blend}

-- The ids, with the hops where the client reports them.
unfoldable pub graph_answer : GraphRecall → ℤ → Option (List String × Option (Map ℤ))
graph_answer (with_hops f) depth = f depth
graph_answer (with_depth f) depth = elim (f depth) [ none ↦ none | some ids ↦ some (ids, none) ]
graph_answer (base answer) depth = elim answer [ none ↦ none | some ids ↦ some (ids, none) ]

module _ (fl : Float) where
  open fl use {Number, lit, divide, of_nat}

  abbrev hop_proximity : ℤ → Number
  hop_proximity (pos (suc zero)) = lit 10 1
  hop_proximity (pos (suc (suc zero))) = lit 5 1
  hop_proximity hops = lit 25 2

  unfoldable pub proximity_map : Option (Map ℤ) → Option (Map Number)
  proximity_map none = none
  proximity_map (some hops) = some (map (λ (id, hop). (id, hop_proximity hop)) hops)

  -- The merged results with the set of their ids.
  abbrev pub Merged : Type 0
  Merged = List (SearchResult Number) × List String

  -- A vector result keeps its own score as the original similarity.
  abbrev pub reblended : Map Number → SearchResult Number → SearchResult Number
  reblended blended sr = record sr {
    score = score_of fl blended sr.memory.id;
    original_similarity = elim sr.original_similarity [ none ↦ some (sr.score) | some x ↦ some x ];
  }

  unfoldable pub from_vector : Map Number → List (SearchResult Number) → Merged
  from_vector blended results = (map (reblended blended) results, map id_of results)

  -- An id that is not merged yet and that the store returns is added at the end.
  unfoldable pub add_fetched :
      (String → Option (Memory Number)) → (String → Number) → String → Merged → Merged
  add_fetched get score id (merged, existing) =
      if member id existing then (merged, existing) else elim (get id) [
        | none ↦ (merged, existing)
        | some mem ↦ (
          merged ++ (record { memory = mem; score = score id; original_similarity = none }) ∷ [],
          id ∷ existing,
        )
      ]

  unfoldable pub add_all :
      (String → Option (Memory Number)) → (String → Number) → List String → Merged → Merged
  unfolding add_fetched
  add_all get score [] acc = acc
  add_all get score (id ∷ ids) acc = add_all get score ids (add_fetched get score id acc)

  module _ (st : Strings) where
    open st use {fields}

    -- The ids of the first community of the one entity that a short query finds.
    unfoldable pub community_ids : GraphClient Number → String → List String
    community_ids gc query =
        if leb 10 (length (fields query)) then [] else elim (gc.search_entities query) [
          | some (e ∷ []) ↦ elim (gc.get_communities_for_entity e.id) [
            | some (c ∷ cs) ↦ elim (gc.get_memories_for_community c) [ none ↦ [] | some ids ↦ ids ]
            | _ ↦ []
          ]
          | _ ↦ []
        ]

    unfoldable pub community_sweep :
        (String → Option (Memory Number)) → GraphClient Number → String → Merged → Merged
    unfolding add_all community_ids
    community_sweep get gc query acc =
        if gc.is_mage_available
        then add_all get (λ id. rrf_score fl 0) (community_ids gc query) acc
        else acc

    -- What RecallWithGraph ranks.
    unfoldable pub merge :
        Recaller Number
        → GraphClient Number
        → String
        → List (SearchResult Number)
        → List String
        → Merged
    unfolding from_vector add_all community_sweep
    merge r gc query results graph_ids =
        let blended = rrf_blend fl r results graph_ids in
        community_sweep r.get gc query
          (add_all r.get (score_of fl blended) graph_ids (from_vector blended results))

    unfoldable pub recall_with_graph :
        (ℕ → ℕ → Number)
        → ℕ
        → Sorting fl
        → Recaller Number
        → String
        → String
        → List (SearchResult Number)
        → List (RecallResult Number)
    unfolding graph_answer proximity_map merge
    recall_with_graph hours_between now sort r project query results = elim r.graph_client [
      | none ↦ rank fl st hours_between now r project query sort results
      | some gc ↦ elim (graph_answer gc.recall (graph_depth_or_default r)) [
        | none ↦ rank fl st hours_between now r project query sort results
        | some (graph_ids, hops) ↦
            rank_with_graph_proximity fl st hours_between now r project query sort
              (merge r gc query results graph_ids).0 (proximity_map hops)
      ]
    ]
