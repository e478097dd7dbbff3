-- ===== src/Recall/Merge/Laws.antt =====
-- internal/recall/recall.go `RecallWithGraph`: which memories it returns.
use mathlib.Core.List.{Permᴰ}
use openclaw_cortex.Base.{
  ℕ, String, true, Option, none, some, List, [], ◌∷◌, map, ◌≡◌, ◌⊎◌, inl, inr, refl, sym, ap, subst,
  ◌∙◌, arith, All, All-append, All-map, All-mono, Bool-cases, Option-cases, Map, str_eq,
}
use openclaw_cortex.Base.Int.{ℤ}
use openclaw_cortex.Base.Float.{Float}
use openclaw_cortex.Base.Strings.{Strings}
use openclaw_cortex.Base.Sort.Laws.{All-perm}
use openclaw_cortex.Base.Once.{
  Once, Once-map, Once-perm, Once-snoc, has_key, has_key-map, has_key_own, member, any-append,
  any-perm,
}
use openclaw_cortex.Models.{Memory, SearchResult}
use openclaw_cortex.Recall.{RecallResult, Recaller, GraphClient, graph_depth_or_default}
use openclaw_cortex.Recall.Scores.{Sorting, higher, rank_one, rank, rank_with_graph_proximity}
use openclaw_cortex.Recall.Fusion.{id_of, score_of, rrf_blend}
use openclaw_cortex.Recall.Merge.{
  Merged, reblended, from_vector, add_fetched, add_all, community_ids, community_sweep, merge,
  graph_answer, proximity_map, recall_with_graph,
}

abbrev pub recalled_id : {F : Type 0} → RecallResult F → String
recalled_id rr = rr.memory.id

-- The store's Get returns memories of the id it is asked for.
module _ (fl : Float) (r : Recaller (fl.Number))
    (faithful : (id : String) (m : Memory (fl.Number)) → r.get id ≡ some m → m.id ≡ id)
    (results : List (SearchResult (fl.Number))) where
  open fl use {Number}

  -- A memory of the vector search, or one that the store has.
  abbrev Known : Memory Number → Type 0
  Known m = (has_key id_of m.id results ≡ true) ⊎ (r.get m.id ≡ some m)

  pub record Good (acc : Merged fl) : Type 0 where
    pub once : Once id_of acc.0
    pub agree : (id : String) → has_key id_of id acc.0 ≡ member id acc.1
    pub kept : (id : String) → has_key id_of id results ≡ true → has_key id_of id acc.0 ≡ true
    pub known : All (λ sr. Known sr.memory) acc.0

  pub add_fetched-Good :
      (score : String → Number) (id : String) (acc : Merged fl)
      → Good acc
      → Good (add_fetched fl r.get score id acc)
  unfolding add_fetched
  add_fetched-Good score id (merged, existing) g = elim (Bool-cases (member id existing)) [
    | inl e ↦ rw e g
    | inr e ↦ rw e (elim (Option-cases (r.get id)) [
      | inl f ↦ rw f g
      | inr (m, f) ↦ rw f (
          let own = faithful id m f in
          record {
            once =
                Once-snoc id_of merged _ (g.once)
                  (ap (λ k. has_key id_of k merged) own ∙ g.agree id ∙ e);
            agree = λ k.
                any-append (λ y. str_eq y.memory.id k) merged _
                ∙ rw (own, g.agree k) (ground arith);
            kept = λ k h. any-append (λ y. str_eq y.memory.id k) merged _ ∙ rw (g.kept k h) refl;
            known =
                All-append (λ sr. Known sr.memory) merged _ (g.known)
                  (inr (ap (r.get) own ∙ f), tt);
          })
    ])
  ]

  add_all-Good :
      (score : String → Number) (ids : List String) (acc : Merged fl)
      → Good acc
      → Good (add_all fl r.get score ids acc)
  unfolding add_all
  add_all-Good score [] acc g = g
  add_all-Good score (id ∷ ids) acc g =
      add_all-Good score ids (add_fetched fl r.get score id acc) (add_fetched-Good score id acc g)

  pub from_vector-Good :
      (blended : Map Number) → Once id_of results → Good (from_vector fl blended results)
  unfolding from_vector
  from_vector-Good blended h = record {
    once = Once-map id_of id_of (reblended fl blended) (λ x. refl) results h;
    agree = λ id.
        has_key-map id_of id_of (reblended fl blended) (λ x. refl) id results
        ∙ sym (has_key-map id_of (λ k. k) id_of (λ x. refl) id results);
    kept = λ id k. has_key-map id_of id_of (reblended fl blended) (λ x. refl) id results ∙ k;
    known =
        All-map (λ sr. Known sr.memory) (reblended fl blended) results
          (All-mono (λ sr k. inl k) results (has_key_own id_of results));
  }

  -- What the recall returns is sound.
  pub record Sound (ranked : List (RecallResult Number)) : Type 0 where
    pub unrepeated : Once recalled_id ranked
    pub complete :
        (id : String) → has_key id_of id results ≡ true → has_key recalled_id id ranked ≡ true
    pub sourced : All (λ rr. Known rr.memory) ranked

  module _ (st : Strings) (hours_between : ℕ → ℕ → Number) (now : ℕ) (sort : Sorting fl)
      (permutes : (xs : List (RecallResult Number)) → Permᴰ (sort (higher fl) xs) xs)
      (project query : String) where
    ranked-Sound :
        (merged : List (SearchResult Number)) (existing : List String) (near : Option (Map Number))
        → Good (merged, existing)
        → Sound (rank_with_graph_proximity fl st hours_between now r project query sort merged near)
    unfolding rank_with_graph_proximity rank_one
    ranked-Sound merged existing near g =
        let one = rank_one fl st hours_between now r project query merged near in
        let same = permutes (map one merged) in
        record {
          unrepeated =
              Once-perm recalled_id same
                (Once-map id_of recalled_id one (λ x. refl) merged (g.once));
          complete = λ id h.
              any-perm (λ rr. str_eq rr.memory.id id) same
              ∙ has_key-map id_of recalled_id one (λ x. refl) id merged
              ∙ g.kept id h;
          sourced =
              All-perm (higher fl) (λ rr. Known rr.memory) same
                (All-map (λ rr. Known rr.memory) one merged (g.known));
        }

    merge-Good :
        (gc : GraphClient Number) (graph_ids : List String)
        → Once id_of results
        → Good (merge fl st r gc query results graph_ids)
    unfolding merge community_sweep
    merge-Good gc graph_ids h =
        let blended = rrf_blend fl r results graph_ids in
        let acc =
          add_all fl r.get (score_of fl blended) graph_ids (from_vector fl blended results) in
        let g =
          add_all-Good (score_of fl blended) graph_ids (from_vector fl blended results)
            (from_vector-Good blended h) in
        elim (Bool-cases (gc.is_mage_available)) [
          | inl e ↦ rw e (add_all-Good _ (community_ids fl st gc query) acc g)
          | inr e ↦ rw e g
        ]

    plain-Good : Once id_of results → Good (results, map id_of results)
    plain-Good h = record {
      once = h;
      agree = λ id. sym (has_key-map id_of (λ k. k) id_of (λ x. refl) id results);
      kept = λ id k. k;
      known = All-mono (λ sr k. inl k) results (has_key_own id_of results);
    }

    without_client :
        r.graph_client ≡ none
        → recall_with_graph fl st hours_between now sort r project query results
          ≡ rank fl st hours_between now r project query sort results
    unfolding recall_with_graph rank
    without_client e = rw (e, recall_with_graph) refl

    without_answer :
        (gc : GraphClient Number)
        → r.graph_client ≡ some gc
        → graph_answer gc.recall (graph_depth_or_default r) ≡ none
        → recall_with_graph fl st hours_between now sort r project query results
          ≡ rank fl st hours_between now r project query sort results
    unfolding recall_with_graph
    without_answer gc e f = ground (arith, e, f)

    pub with_answer :
        (gc : GraphClient Number) (ids : List String) (hops : Option (Map ℤ))
        → r.graph_client ≡ some gc
        → graph_answer gc.recall (graph_depth_or_default r) ≡ some (ids, hops)
        → recall_with_graph fl st hours_between now sort r project query results
          ≡ rank_with_graph_proximity fl st hours_between now r project query sort
              (merge fl st r gc query results ids).0
              (proximity_map fl hops)
    unfolding recall_with_graph
    with_answer gc ids hops e f = ground (arith, e, f)

    rank-Sound :
        Once id_of results → Sound (rank fl st hours_between now r project query sort results)
    unfolding rank
    rank-Sound h = ranked-Sound results (map id_of results) none (plain-Good h)

    -- RecallWithGraph returns no memory twice, keeps every vector result, and returns only memories
    -- of the vector search or of the store, if the store returns a memory under its own id,
    -- sort.Slice permutes and the vector results have each id once.
    pub recall_with_graph-Sound :
        Once id_of results
        → Sound (recall_with_graph fl st hours_between now sort r project query results)
    recall_with_graph-Sound h = elim (Option-cases (r.graph_client)) [
      | inl e ↦ subst Sound (sym (without_client e)) (rank-Sound h)
      | inr (gc, e) ↦ elim (Option-cases (graph_answer gc.recall (graph_depth_or_default r))) [
        | inl f ↦ subst Sound (sym (without_answer gc e f)) (rank-Sound h)
        | inr ((ids, hops), f) ↦ subst Sound (sym (with_answer gc ids hops e f)) (
            ranked-Sound (merge fl st r gc query results ids).0
              (merge fl st r gc query results ids).1 (proximity_map fl hops) (merge-Good gc ids h))
      ]
    ]
