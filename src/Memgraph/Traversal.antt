-- ===== src/Memgraph/Traversal.antt =====
-- internal/memgraph/graph.go `RecallByGraphWithDepth`: memories within two hops of the entities that
-- a query names.
use openclaw_cortex.Base.{
  ℕ, String, Bool, ◌&&◌, Option, none, some, List, [], ◌∷◌, map, ltb, leb, if◌then◌else◌, length,
  take, str_eq, Map, lookup, insert, lookup-insert, ◌≡◌, refl, sym, ap, ◌∙◌, arith, Bool-cases,
  Option-cases, inl, inr, eq_iff,
}
use openclaw_cortex.Base.Float.{Float}
use openclaw_cortex.Base.Once.{member}
use openclaw_cortex.Store.Filters.{is_none}
use openclaw_cortex.Graph.MockClient.{with_id, add_unseen}

-- A record of the query: a fact in force at one of the entities, and the entity at its other end.
pub record Row : Type 0 where
  pub memory_ids : List String
  pub neighbor_id : String

-- The queries: SearchEntities, the facts at entities, and the source memories of the facts that
-- SearchFacts finds; `none` is an error.
pub record Queries : Type 0 where
  pub search_entities : Option (List String)
  pub rows : List String → Option (List Row)
  pub fact_sources : Option (List (List String))

unfoldable memories_of : List String → List Row → List String
memories_of seen [] = seen
memories_of seen (r ∷ rs) = memories_of (add_unseen seen r.memory_ids) rs

unfoldable neighbors_of : List String → List Row → List String
neighbors_of seen [] = seen
neighbors_of seen (r ∷ rs) =
    neighbors_of (if str_eq r.neighbor_id "" then seen else with_id r.neighbor_id seen) rs

module _ (q : Queries) where
  unfoldable traverse_entity_facts : List String → Option (List String × List String)
  unfolding memories_of neighbors_of
  traverse_entity_facts [] = some ([], [])
  traverse_entity_facts (id ∷ ids) = elim (q.rows (id ∷ ids)) [
    | none ↦ none
    | some rows ↦ some (memories_of [] rows, neighbors_of [] rows)
  ]

  abbrev all_sources : List String → List (List String) → List String
  all_sources seen [] = seen
  all_sources seen (ids ∷ rest) = all_sources (add_unseen seen ids) rest

  -- recallByFactSearch
  unfoldable recall_by_fact_search : Option (List String)
  recall_by_fact_search = elim q.fact_sources [
    | none ↦ none
    | some sources ↦ some (all_sources [] sources)
  ]

  -- The neighbours that are not visited yet, each once.
  unfoldable pub unvisited : List String → List String → List String
  unvisited visited [] = []
  unvisited visited (id ∷ ids) =
      let old = unvisited visited ids in
      let new = unvisited (id ∷ visited) ids in if member id visited then old else id ∷ new

  -- The memories of the second hop; none on an error.
  unfoldable second_hop : List String → List String → List String
  unfolding traverse_entity_facts unvisited
  second_hop entity_ids neighbors = elim (traverse_entity_facts (unvisited entity_ids neighbors)) [
    | none ↦ []
    | some (ids, next) ↦ ids
  ]

module _ (fl : Float) where
  open fl use {Number, lit, lt}

  -- Each id that has no score yet gets this one.
  unfoldable add_scores : Number → List String → Map Number → Map Number
  add_scores score [] seen = seen
  add_scores score (id ∷ ids) seen =
      add_scores score ids (if is_none (lookup id seen) then insert id score seen else seen)

  abbrev Ranking : Type 0
  Ranking =
      (String × Number → String × Number → Bool) → List (String × Number) → List (String × Number)

  abbrev pub higher : String × Number → String × Number → Bool
  higher a b = lt b.1 a.1

  unfoldable hop_scores : List String → List String → Map Number
  unfolding add_scores
  hop_scores near far = add_scores (lit 5 1) far (add_scores (lit 10 1) near [])

  -- A limit of 0 is none.
  unfoldable recall_by_graph_with_depth : Ranking → Queries → ℕ → ℕ → Option (List String)
  unfolding traverse_entity_facts second_hop hop_scores recall_by_fact_search
  recall_by_graph_with_depth sort q limit depth = elim q.search_entities [
    | none ↦ recall_by_fact_search q
    | some [] ↦ recall_by_fact_search q
    | some (e ∷ es) ↦ elim (traverse_entity_facts q (e ∷ es)) [
      | none ↦ recall_by_fact_search q
      | some (near, neighbors) ↦
          let far =
            if leb 2 depth && ltb 0 (length neighbors)
            then second_hop q (e ∷ es) neighbors
            else [] in
          let ranked = map (λ s. s.0) (sort higher (hop_scores near far)) in
          some (if ltb 0 limit then take limit ranked else ranked)
    ]
  ]

  abbrev pub either : Option Number → Option Number → Option Number
  either none y = y
  either (some x) y = some x

  lookup-add_scores :
      (score : Number) (ids : List String) (seen : Map Number) (k : String)
      → lookup k (add_scores score ids seen)
        ≡ either (lookup k seen) (if member k ids then some score else none)
  unfolding add_scores
  lookup-add_scores score [] seen k = ground arith
  lookup-add_scores score (id ∷ ids) seen k = elim (Option-cases (lookup id seen)) [
    | inl e ↦
        rw (e, add_scores)
          (lookup-add_scores score ids (insert id score seen) k
            ∙ rw (lookup-insert id k score seen) (elim (Bool-cases (str_eq id k)) [
              | inl h ↦
                  (let gone : lookup k seen ≡ none =
                      ap (λ j. lookup j seen) (sym ((eq_iff id k).0 h)) ∙ e in
                    rw (h, gone) refl)
              | inr h ↦ rw h refl
            ]))
    | inr (x, e) ↦
        rw (e, add_scores)
          (lookup-add_scores score ids seen k ∙ (elim (Bool-cases (str_eq id k)) [
            | inl h ↦
                (let here : lookup k seen ≡ some x =
                    ap (λ j. lookup j seen) (sym ((eq_iff id k).0 h)) ∙ e in
                  rw (h, here) refl)
            | inr h ↦ rw h refl
          ]))
  ]

  -- A memory of the first hop has the score 1, another of the second hop 0.5, and no other memory
  -- has one.
  hop_scores-lookup :
      (near far : List String) (k : String)
      → lookup k (hop_scores near far)
        ≡ (if member k near then some (lit 10 1) else if member k far then some (lit 5 1) else none)
  unfolding hop_scores lookup
  hop_scores-lookup near far k =
      lookup-add_scores (lit 5 1) far (add_scores (lit 10 1) near []) k
      ∙ ap (λ o. either o (if member k far then some (lit 5 1) else none))
          (lookup-add_scores (lit 10 1) near [] k)
      ∙ ground arith
