-- ===== src/Capture/Contradiction/Candidates.antt =====
-- internal/capture/contradiction.go: where the reported memories come from, through all stages.
use mathlib.Core.List.{Memᴰ}
use openclaw_cortex.Base.{
  String, true, some, List, [], ◌∷◌, ◌≡◌, ◌⊎◌, refl, sym, ap, subst, ◌∙◌, arith, Bool-cases,
  Option-cases, inl, inr, Distinct, Distinct-insert, lookup, lookup-insert, str_eq, eq_iff,
}
use openclaw_cortex.Base.Float.{Float}
use openclaw_cortex.Base.Strings.{Strings}
use openclaw_cortex.Models.{Memory, SearchResult, Fact}
use openclaw_cortex.Graph.MockClient.{with_id}
use openclaw_cortex.Capture.Contradiction.{
  Detector, FactSource, Pool, at_least, put, add_similar, with_ends, entity_ids, add_source,
  add_sources, add_fact_sources, add_linked,
}
use openclaw_cortex.Capture.Contradiction.Filter.{Words}
use openclaw_cortex.Capture.Contradiction.Members.{Each, Each-tail, Each-with_id}

module _ (fl : Float) (st : Strings) (words : Words) (d : Detector (fl.Number)) where
  open fl use {Number, lit, lt, eq}

  -- The score reaches the threshold of the first stage.
  abbrev pub Near : Number → Type 0
  Near x = (lt d.cfg.similarity_threshold x ≡ true) ⊎ (eq x d.cfg.similarity_threshold ≡ true)

  -- The memory of a result of the search that is near, with its score.
  abbrev pub Similar : List (SearchResult Number) → Memory Number → Number → Type 0
  Similar results m x =
      (r : SearchResult Number) × Memᴰ r results × (r.memory ≡ m) × (r.score ≡ x) × Near x

  -- The entity is an end of a fact of a similar memory.
  abbrev pub Touched : List (SearchResult Number) → FactSource Number → String → Type 0
  Touched results g e =
      (m : Memory Number) × (x : Number) × (facts : List (Fact Number)) × (f : Fact Number)
      × Similar results m x
      × (g.get_memory_facts m.id ≡ some facts)
      × Memᴰ f facts
      × ((f.source_entity_id ≡ e) ⊎ (f.target_entity_id ≡ e))

  -- The stored memory of a source of a fact of such an entity.
  abbrev pub Linked : List (SearchResult Number) → FactSource Number → Memory Number → Type 0
  Linked results g m =
      (e : String) × (facts : List (Fact Number)) × (f : Fact Number) × (id : String) × Touched
        results g e
      × (g.get_facts_for_entity e ≡ some facts)
      × Memᴰ f facts
      × Memᴰ id f.source_memory_ids
      × (d.get id ≡ some m)

  -- A candidate and its score: similar, or linked with the score 0.75.
  abbrev pub Origin : List (SearchResult Number) → Memory Number → Number → Type 0
  Origin results m x =
      Similar results m x
      ⊎ ((g : FactSource Number) × (d.graph_client ≡ some g) × Linked results g m × (x ≡ lit 75 2))

  near : (x : Number) → at_least fl st words d x d.cfg.similarity_threshold ≡ true → Near x
  near x h = elim (Bool-cases (lt d.cfg.similarity_threshold x)) [
    | inl above ↦ inl above
    | inr below ↦ inr (ground (arith, h, below))
  ]

  -- The pool holds each memory under its id, with a score that has a property.
  abbrev pub Good : (Memory Number → Number → Type 0) → Pool fl st words d → Type 0
  Good P pool =
      Distinct pool.0
      × ((id : String) (m : Memory Number)
          → lookup id pool.0 ≡ some m
          → (x : Number) × (m.id ≡ id) × (lookup id pool.1 ≡ some x) × P m x)

  put-Good :
      (P : Memory Number → Number → Type 0) (id : String) (m : Memory Number) (x : Number)
      (pool : Pool fl st words d)
      → Good P pool
      → m.id ≡ id
      → P m x
      → Good P (put fl st words d id m x pool)
  put-Good P id m x pool (dist, h) named p = (
    Distinct-insert id m pool.0 dist,
    λ j n at. elim (Bool-cases (str_eq id j)) [
      | inl y ↦
          let same : m ≡ n = ground (arith, at, lookup-insert id j m pool.0, y) in
          (
            x,
            sym (ap (λ k. k.id) same) ∙ named ∙ (eq_iff id j).0 y,
            ground (arith, lookup-insert id j x pool.1, y),
            subst (λ k. P k x) same p,
          )
      | inr n' ↦
          let (z, is, score, q) = h j n (ground (arith, at, lookup-insert id j m pool.0, n')) in
          (z, is, ground (arith, lookup-insert id j x pool.1, n', score), q)
    ],
  )

  pub add_similar-Good :
      (results rs : List (SearchResult Number)) (pool : Pool fl st words d)
      → Each (λ r. Memᴰ r results) rs
      → Good (Similar results) pool
      → Good (Similar results) (add_similar fl st words d rs pool)
  unfolding add_similar
  add_similar-Good results [] pool from h = h
  add_similar-Good results (r ∷ rs) pool from h =
      let rest = Each-tail (λ r. Memᴰ r results) r rs from in
      elim (Bool-cases (at_least fl st words d r.score d.cfg.similarity_threshold)) [
        | inl y ↦
            rw (y, add_similar)
              (add_similar-Good results rs _ rest (
                put-Good (Similar results) r.memory.id r.memory r.score pool h refl
                  (r, from r (Memᴰ.head refl), refl, refl, near r.score y)))
        | inr n ↦ rw (n, add_similar) (add_similar-Good results rs pool rest h)
      ]

  with_ends-Each :
      (P : String → Type 0) (facts : List (Fact Number)) (ids : List String)
      → Each P ids
      → Each (λ f. P f.source_entity_id × P f.target_entity_id) facts
      → Each P (with_ends fl st words d ids facts)
  with_ends-Each P [] ids h e = h
  with_ends-Each P (f ∷ fs) ids h e =
      let (source, target) = e f (Memᴰ.head refl) in
      with_ends-Each P fs _
        (Each-with_id P (with_id f.source_entity_id ids) f.target_entity_id
          (Each-with_id P ids f.source_entity_id h source) target)
        (Each-tail _ f fs e)

  pub entity_ids-Touched :
      (results : List (SearchResult Number)) (g : FactSource Number) (ms : List (Memory Number))
      (ids : List String)
      → Each (λ m. (x : Number) × Similar results m x) ms
      → Each (Touched results g) ids
      → Each (Touched results g) (entity_ids fl st words d g ms ids)
  unfolding entity_ids
  entity_ids-Touched results g [] ids s h = h
  entity_ids-Touched results g (m ∷ ms) ids s h =
      let rest = Each-tail _ m ms s in
      let (x, similar) = s m (Memᴰ.head refl) in
      elim (Option-cases (g.get_memory_facts m.id)) [
        | inl n ↦ rw (n, entity_ids) (entity_ids-Touched results g ms ids rest h)
        | inr (facts, n) ↦
            rw (n, entity_ids)
              (entity_ids-Touched results g ms _ rest (
                with_ends-Each (Touched results g) facts ids h (λ f at. (
                  (m, x, facts, f, similar, n, at, inl refl),
                  (m, x, facts, f, similar, n, at, inr refl),
                ))))
      ]

  -- A memory of the pool that the graph extends, with its score.
  abbrev pub From : List (SearchResult Number) → FactSource Number → Memory Number → Number → Type 0
  From results g m x = Similar results m x ⊎ (Linked results g m × (x ≡ lit 75 2))

  module _ (P : Memory Number → Number → Type 0)
      (keyed : (id : String) (m : Memory Number) → d.get id ≡ some m → m.id ≡ id) where
    add_source-Good :
        (id : String) (pool : Pool fl st words d)
        → ((m : Memory Number) → d.get id ≡ some m → P m (lit 75 2))
        → Good P pool
        → Good P (add_source fl st words d id pool)
    unfolding add_source
    add_source-Good id pool p h = elim (Option-cases (lookup id pool.0)) [
      | inr (m, n) ↦ rw (n, add_source) h
      | inl n ↦ elim (Option-cases (d.get id)) [
        | inl k ↦ rw (n, add_source) (rw k h)
        | inr (m, k) ↦
            rw (n, add_source) (rw k (put-Good P id m (lit 75 2) pool h (keyed id m k) (p m k)))
      ]
    ]

    add_sources-Good :
        (ids : List String) (pool : Pool fl st words d)
        → Each (λ id. (m : Memory Number) → d.get id ≡ some m → P m (lit 75 2)) ids
        → Good P pool
        → Good P (add_sources fl st words d ids pool)
    unfolding add_sources
    add_sources-Good [] pool p h = h
    add_sources-Good (id ∷ ids) pool p h =
        add_sources-Good ids _ (Each-tail _ id ids p)
          (add_source-Good id pool (p id (Memᴰ.head refl)) h)

    add_fact_sources-Good :
        (fs : List (Fact Number)) (pool : Pool fl st words d)
        → Each
            (λ f.
              Each
                (λ id. (m : Memory Number) → d.get id ≡ some m → P m (lit 75 2))
                f.source_memory_ids)
            fs
        → Good P pool
        → Good P (add_fact_sources fl st words d fs pool)
    unfolding add_fact_sources
    add_fact_sources-Good [] pool p h = h
    add_fact_sources-Good (f ∷ fs) pool p h =
        add_fact_sources-Good fs _ (Each-tail _ f fs p)
          (add_sources-Good f.source_memory_ids pool (p f (Memᴰ.head refl)) h)

  module _ (results : List (SearchResult Number)) (g : FactSource Number)
      (keyed : (id : String) (m : Memory Number) → d.get id ≡ some m → m.id ≡ id) where
    pub add_linked-Good :
        (es : List String) (pool : Pool fl st words d)
        → Each (Touched results g) es
        → Good (From results g) pool
        → Good (From results g) (add_linked fl st words d g es pool)
    unfolding add_linked
    add_linked-Good [] pool t h = h
    add_linked-Good (e ∷ es) pool t h =
        let rest = Each-tail _ e es t in
        elim (Option-cases (g.get_facts_for_entity e)) [
          | inl n ↦ rw (n, add_linked) (add_linked-Good es pool rest h)
          | inr (fs, n) ↦
              rw (n, add_linked)
                (add_linked-Good es _ rest (
                  add_fact_sources-Good (From results g) keyed fs pool
                    (λ f at id source m got.
                      inr ((e, fs, f, id, t e (Memᴰ.head refl), n, at, source, got), refl))
                    h))
        ]
