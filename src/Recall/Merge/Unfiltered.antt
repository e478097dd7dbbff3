-- ===== src/Recall/Merge/Unfiltered.antt =====
-- internal/recall/recall.go `RecallWithGraph`: the memories that the graph adds are read by id, and
-- pass no filter of the search.
use mathlib.Core.List.{Permᴰ}
use openclaw_cortex.Base.{
  ℕ, String, true, Option, some, List, [], ◌∷◌, map, ◌≡◌, inl, inr, refl, ap, subst, ◌∙◌, arith,
  Bool-cases, Option-cases, Map, str_eq, eq_iff,
}
use openclaw_cortex.Base.Int.{ℤ}
use openclaw_cortex.Base.Float.{Float}
use openclaw_cortex.Base.Strings.{Strings}
use openclaw_cortex.Base.Once.{Once, has_key, has_key-map, member, any-append, any-perm}
use openclaw_cortex.Models.{Memory, SearchResult}
use openclaw_cortex.Recall.{RecallResult, Recaller, GraphClient, graph_depth_or_default}
use openclaw_cortex.Recall.Scores.{Sorting, higher, rank_one, rank_with_graph_proximity}
use openclaw_cortex.Recall.Fusion.{id_of, score_of, rrf_score, rrf_blend}
use openclaw_cortex.Recall.Merge.{
  Merged, from_vector, add_fetched, add_all, community_ids, community_sweep, merge, graph_answer,
  proximity_map, recall_with_graph,
}
use openclaw_cortex.Recall.Merge.Laws.{
  Good, add_fetched-Good, from_vector-Good, with_answer, recalled_id,
}

module _ (fl : Float) (r : Recaller (fl.Number))
    (faithful : (id : String) (m : Memory (fl.Number)) → r.get id ≡ some m → m.id ≡ id)
    (results : List (SearchResult (fl.Number))) where
  open fl use {Number}

  add_fetched_keeps :
      (score : String → Number) (id k : String) (acc : Merged fl)
      → has_key id_of k acc.0 ≡ true
      → has_key id_of k (add_fetched fl r.get score id acc).0 ≡ true
  unfolding add_fetched
  add_fetched_keeps score id k (merged, existing) h = elim (Bool-cases (member id existing)) [
    | inl e ↦ rw e h
    | inr e ↦ rw e (elim (Option-cases (r.get id)) [
      | inl f ↦ rw f h
      | inr (m, f) ↦ rw f (any-append (λ y. str_eq y.memory.id k) merged _ ∙ rw h refl)
    ])
  ]

  add_all_keeps :
      (score : String → Number) (ids : List String) (k : String) (acc : Merged fl)
      → has_key id_of k acc.0 ≡ true
      → has_key id_of k (add_all fl r.get score ids acc).0 ≡ true
  unfolding add_all
  add_all_keeps score [] k acc h = h
  add_all_keeps score (id ∷ ids) k acc h =
      add_all_keeps score ids k (add_fetched fl r.get score id acc)
        (add_fetched_keeps score id k acc h)

  add_fetched_adds :
      (score : String → Number) (id : String) (m : Memory Number) (acc : Merged fl)
      → r.get id ≡ some m
      → Good fl r faithful results acc
      → has_key id_of id (add_fetched fl r.get score id acc).0 ≡ true
  unfolding add_fetched
  add_fetched_adds score id m (merged, existing) f g = elim (Bool-cases (member id existing)) [
    | inl e ↦ rw e (g.agree id ∙ e)
    | inr e ↦
        rw (e, f)
          (any-append (λ y. str_eq y.memory.id id) merged _
            ∙ ground (arith, (eq_iff m.id id).1 (faithful id m f)))
  ]

  add_all_adds :
      (score : String → Number) (ids : List String) (id : String) (m : Memory Number)
      (acc : Merged fl)
      → r.get id ≡ some m
      → Good fl r faithful results acc
      → member id ids ≡ true
      → has_key id_of id (add_all fl r.get score ids acc).0 ≡ true
  unfolding add_all
  add_all_adds score [] id m acc f g h = cc
  add_all_adds score (k ∷ ids) id m acc f g h =
      let next = add_fetched fl r.get score k acc in
      elim (Bool-cases (str_eq k id)) [
        | inl e ↦ add_all_keeps score ids id next (
            subst (λ j. has_key id_of j next.0 ≡ true) ((eq_iff k id).0 e)
              (add_fetched_adds score k m acc (ap (r.get) ((eq_iff k id).0 e) ∙ f) g))
        | inr e ↦
            add_all_adds score ids id m next f
              (add_fetched-Good fl r faithful results score k acc g) (ground (arith, e, h))
      ]

  module _ (st : Strings) (hours_between : ℕ → ℕ → Number) (now : ℕ) (sort : Sorting fl)
      (permutes : (xs : List (RecallResult Number)) → Permᴰ (sort (higher fl) xs) xs)
      (project query : String) where
    merge_adds :
        (gc : GraphClient Number) (ids : List String) (id : String) (m : Memory Number)
        → Once id_of results
        → member id ids ≡ true
        → r.get id ≡ some m
        → has_key id_of id (merge fl st r gc query results ids).0 ≡ true
    unfolding merge community_sweep
    merge_adds gc ids id m h k f =
        let blended = rrf_blend fl r results ids in
        let start = from_vector fl blended results in
        let acc = add_all fl r.get (score_of fl blended) ids start in
        let added =
          add_all_adds (score_of fl blended) ids id m start f
            (from_vector-Good fl r faithful results blended h) k in
        elim (Bool-cases (gc.is_mage_available)) [
          | inl e ↦
              rw e (add_all_keeps (λ i. rrf_score fl 0) (community_ids fl st gc query) id acc added)
          | inr e ↦ rw e added
        ]

    -- A memory that the store has under an id of the graph's answer is recalled whatever its
    -- visibility, its project and its validity, if the graph answers, the store returns a memory
    -- under its own id, sort.Slice permutes and the vector results have each id once.
    pub recall_with_graph-adds :
        (gc : GraphClient Number) (ids : List String) (hops : Option (Map ℤ)) (id : String)
        (m : Memory Number)
        → r.graph_client ≡ some gc
        → graph_answer gc.recall (graph_depth_or_default r) ≡ some (ids, hops)
        → Once id_of results
        → member id ids ≡ true
        → r.get id ≡ some m
        → has_key recalled_id id
            (recall_with_graph fl st hours_between now sort r project query results)
          ≡ true
    unfolding rank_with_graph_proximity rank_one
    recall_with_graph-adds gc ids hops id m c a h k f =
        let merged = (merge fl st r gc query results ids).0 in
        let one = rank_one fl st hours_between now r project query merged (proximity_map fl hops) in
        ap (has_key recalled_id id) (
          with_answer fl r faithful results st hours_between now sort permutes project query gc ids
            hops c a)
        ∙ any-perm (λ rr. str_eq rr.memory.id id) (permutes (map one merged))
        ∙ has_key-map id_of recalled_id one (λ x. refl) id merged
        ∙ merge_adds gc ids id m h k f
