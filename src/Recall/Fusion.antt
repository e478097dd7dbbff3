-- ===== src/Recall/Fusion.antt =====
-- internal/recall/recall.go `rrfBlend`: reciprocal rank fusion of the two lists of ids.
use openclaw_cortex.Base.{
  ℕ, suc, ◌+◌, String, false, Option, none, some, List, [], ◌∷◌, map, ◌≡◌, refl, ap, ◌∙◌, arith,
  subst, if◌then◌else◌, Bool-cases, inl, inr, str_eq, eq_iff, Map, lookup, insert, lookup-insert,
}
use openclaw_cortex.Base.Float.{Float}
use openclaw_cortex.Base.Once.{Once, Once-map, member}
use openclaw_cortex.Models.{SearchResult}
use openclaw_cortex.Recall.{Recaller, graph_vector_weight, graph_graph_weight}

abbrev pub id_of : {F : Type 0} → SearchResult F → String
id_of sr = sr.memory.id

module _ (fl : Float) where
  open fl use {Number, lit, of_nat, plus, times, divide}

  -- scores[id], which is 0 on a missing id
  abbrev pub score_of : Map Number → String → Number
  score_of scores id = elim (lookup id scores) [ none ↦ lit 0 0 | some x ↦ x ]

  abbrev pub rrf_score : ℕ → Number
  rrf_score rank = divide (lit 1 0) (of_nat (rank + 1 + 60))

  -- One of the two loops, from a rank on.
  unfoldable contribute : Number → ℕ → List String → Map Number → Map Number
  contribute weight rank [] scores = scores
  contribute weight rank (id ∷ ids) scores =
      contribute weight (suc rank) ids
        (insert id (plus (score_of scores id) (times (rrf_score rank) weight)) scores)

  unfoldable pub rrf_blend : Recaller Number → List (SearchResult Number) → List String → Map Number
  unfolding contribute
  rrf_blend r vector_results graph_ids =
      contribute (graph_graph_weight fl r) 0 graph_ids
        (contribute (graph_vector_weight fl r) 0 (map id_of vector_results) [])

  -- The rank of an id, counted from the first one's.
  abbrev pub position : ℕ → String → List String → Option ℕ
  position rank id [] = none
  position rank id (j ∷ js) = if str_eq j id then some rank else position (suc rank) id js

  abbrev add_share : Number → Option ℕ → Number → Number
  add_share weight none x = x
  add_share weight (some rank) x = plus x (times (rrf_score rank) weight)

  position_absent :
      (rank : ℕ) (id : String) (ids : List String)
      → member id ids ≡ false
      → position rank id ids ≡ none
  position_absent rank id [] h = refl
  position_absent rank id (j ∷ js) h = elim (Bool-cases (str_eq j id)) [
    | inl e ↦ ground (arith, e, h)
    | inr e ↦ rw e (position_absent (suc rank) id js (ground (arith, e, h)))
  ]

  score_of-insert :
      (key id : String) (x : Number) (scores : Map Number)
      → score_of (insert key x scores) id ≡ (if str_eq key id then x else score_of scores id)
  score_of-insert key id x scores = ground (arith, lookup-insert key id x scores)

  score_of-contribute :
      (weight : Number) (rank : ℕ) (ids : List String) (scores : Map Number) (id : String)
      → Once (λ i. i) ids
      → score_of (contribute weight rank ids scores) id
        ≡ add_share weight (position rank id ids) (score_of scores id)
  unfolding contribute
  score_of-contribute weight rank [] scores id h = refl
  score_of-contribute weight rank (j ∷ js) scores id h =
      let x = plus (score_of scores j) (times (rrf_score rank) weight) in
      score_of-contribute weight (suc rank) js (insert j x scores) id h.1
      ∙ ap (add_share weight (position (suc rank) id js)) (score_of-insert j id x scores)
      ∙ (elim (Bool-cases (str_eq j id)) [
        | inl e ↦
            (let first : position (suc rank) id js ≡ none =
                position_absent (suc rank) id js
                  (subst (λ k. member k js ≡ false) ((eq_iff j id).0 e) h.0) in
              let here = ap (score_of scores) ((eq_iff j id).0 e) in
              rw (e, first) (ap (λ y. plus y (times (rrf_score rank) weight)) here))
        | inr e ↦ rw e refl
      ])

  -- The blended score of an id is the sum of 1 / (60 + rank) times the weight over the lists that
  -- have it, with ranks from 1, where no list has an id twice.
  rrf_blend-score :
      (r : Recaller Number) (results : List (SearchResult Number)) (graph_ids : List String)
      (id : String)
      → Once id_of results
      → Once (λ i. i) graph_ids
      → score_of (rrf_blend r results graph_ids) id
        ≡ add_share
            (graph_graph_weight fl r)
            (position 0 id graph_ids)
            (add_share (graph_vector_weight fl r) (position 0 id (map id_of results)) (lit 0 0))
  unfolding rrf_blend lookup
  rrf_blend-score r results graph_ids id h k =
      let vw = graph_vector_weight fl r in
      let vector_ids = map id_of results in
      score_of-contribute (graph_graph_weight fl r) 0 graph_ids (contribute vw 0 vector_ids []) id k
      ∙ ap (add_share (graph_graph_weight fl r) (position 0 id graph_ids)) (
          score_of-contribute vw 0 vector_ids [] id
            (Once-map id_of (λ k. k) id_of (λ x. refl) results h))
