-- ===== src/Capture/Contradiction/Kept.antt =====
-- internal/capture/contradiction.go: the first stage keeps each near result of the search.
use mathlib.Core.List.{Memᴰ}
use openclaw_cortex.Base.{
  String, true, false, some, List, [], ◌∷◌, ◌≡◌, ◌⊎◌, refl, sym, ap, ◌∙◌, arith, Bool-cases,
  Option-cases, inl, inr, lookup, lookup-insert, str_eq, eq_iff,
}
use openclaw_cortex.Base.Float.{Float}
use openclaw_cortex.Base.Strings.{Strings}
use openclaw_cortex.Models.{Memory, SearchResult, Fact}
use openclaw_cortex.Capture.Contradiction.{
  Detector, FactSource, Pool, at_least, put, add_similar, add_source, add_sources, add_fact_sources,
  add_linked,
}
use openclaw_cortex.Capture.Contradiction.Filter.{Words}
use openclaw_cortex.Capture.Contradiction.Members.{Each, Each-tail}
use openclaw_cortex.Capture.Contradiction.Candidates.{Near}

module _ (fl : Float) (st : Strings) (words : Words) (d : Detector (fl.Number)) where
  open fl use {Number, lit, lt, eq}

  -- The pool has the memory and the score of a result.
  abbrev pub Holds : SearchResult Number → Pool fl st words d → Type 0
  Holds r pool =
      (lookup r.memory.id pool.0 ≡ some r.memory) × (lookup r.memory.id pool.1 ≡ some r.score)

  put-Holds :
      (r : SearchResult Number) (id : String) (m : Memory Number) (x : Number)
      (pool : Pool fl st words d)
      → str_eq id r.memory.id ≡ false
      → Holds r pool
      → Holds r (put fl st words d id m x pool)
  put-Holds r id m x pool other (here, score) = (
    ground (arith, lookup-insert id r.memory.id m pool.0, other, here),
    ground (arith, lookup-insert id r.memory.id x pool.1, other, score),
  )

  add_source-Holds :
      (r : SearchResult Number) (id : String) (pool : Pool fl st words d)
      → Holds r pool
      → Holds r (add_source fl st words d id pool)
  unfolding add_source
  add_source-Holds r id pool h = elim (Option-cases (lookup id pool.0)) [
    | inr (m, n) ↦ rw (n, add_source) h
    | inl n ↦ elim (Option-cases (d.get id)) [
      | inl k ↦ rw (n, add_source) (rw k h)
      | inr (m, k) ↦
          let other : str_eq id r.memory.id ≡ false =
            ground (arith, n, h.0, eq_iff id r.memory.id) in
          rw (n, add_source) (rw k (put-Holds r id m (lit 75 2) pool other h))
    ]
  ]

  add_sources-Holds :
      (r : SearchResult Number) (ids : List String) (pool : Pool fl st words d)
      → Holds r pool
      → Holds r (add_sources fl st words d ids pool)
  unfolding add_sources
  add_sources-Holds r [] pool h = h
  add_sources-Holds r (id ∷ ids) pool h = add_sources-Holds r ids _ (add_source-Holds r id pool h)

  add_fact_sources-Holds :
      (r : SearchResult Number) (fs : List (Fact Number)) (pool : Pool fl st words d)
      → Holds r pool
      → Holds r (add_fact_sources fl st words d fs pool)
  unfolding add_fact_sources
  add_fact_sources-Holds r [] pool h = h
  add_fact_sources-Holds r (f ∷ fs) pool h =
      add_fact_sources-Holds r fs _ (add_sources-Holds r f.source_memory_ids pool h)

  pub add_linked-Holds :
      (r : SearchResult Number) (g : FactSource Number) (es : List String)
      (pool : Pool fl st words d)
      → Holds r pool
      → Holds r (add_linked fl st words d g es pool)
  unfolding add_linked
  add_linked-Holds r g [] pool h = h
  add_linked-Holds r g (e ∷ es) pool h = elim (Option-cases (g.get_facts_for_entity e)) [
    | inl n ↦ rw (n, add_linked) (add_linked-Holds r g es pool h)
    | inr (fs, n) ↦
        rw (n, add_linked) (add_linked-Holds r g es _ (add_fact_sources-Holds r fs pool h))
  ]

  near_enough :
      (x : Number)
      → Near fl st words d x
      → at_least fl st words d x d.cfg.similarity_threshold ≡ true
  near_enough x (inl above) = rw above refl
  near_enough x (inr same) = ground (arith, same)

  later :
      (r q : SearchResult Number) (rs : List (SearchResult Number)) (pool : Pool fl st words d)
      → str_eq q.memory.id r.memory.id ≡ false
      → Holds r pool ⊎ Memᴰ r (q ∷ rs)
      → Holds r pool ⊎ Memᴰ r rs
  later r q rs pool other (inl h) = inl h
  later r q rs pool other (inr (Memᴰ.head e)) =
      absurd (cc (sym other ∙ (eq_iff q.memory.id r.memory.id).1 (sym (ap (λ k. k.memory.id) e))))
  later r q rs pool other (inr (Memᴰ.tail m)) = inr m

  elsewhere :
      (r q : SearchResult Number) (rs : List (SearchResult Number)) (pool : Pool fl st words d)
      → str_eq q.memory.id r.memory.id ≡ false
      → Holds r pool ⊎ Memᴰ r (q ∷ rs)
      → Holds r (put fl st words d q.memory.id q.memory q.score pool) ⊎ Memᴰ r rs
  elsewhere r q rs pool other h = elim (later r q rs pool other h) [
    | inl held ↦ inl (put-Holds r q.memory.id q.memory q.score pool other held)
    | inr m ↦ inr m
  ]

  pub add_similar-Holds :
      (r : SearchResult Number) (rs : List (SearchResult Number)) (pool : Pool fl st words d)
      → Near fl st words d r.score
      → Each (λ q. q.memory.id ≡ r.memory.id → q ≡ r) rs
      → Holds r pool ⊎ Memᴰ r rs
      → Holds r (add_similar fl st words d rs pool)
  unfolding add_similar
  add_similar-Holds r [] pool n one (inl h) = h
  add_similar-Holds r [] pool n one (inr m) = elim m [ ]
  add_similar-Holds r (q ∷ rs) pool n one h =
      let rest = Each-tail (λ q. q.memory.id ≡ r.memory.id → q ≡ r) q rs one in
      elim (Bool-cases (str_eq q.memory.id r.memory.id)) [
        | inl y ↦
            let same : q ≡ r = one q (Memᴰ.head refl) ((eq_iff q.memory.id r.memory.id).0 y) in
            let enough : at_least fl st words d q.score d.cfg.similarity_threshold ≡ true =
              ap (λ k. at_least fl st words d k.score d.cfg.similarity_threshold) same
              ∙ near_enough r.score n in
            rw (enough, add_similar)
              (add_similar-Holds r rs _ n rest (
                inl (
                  ground (
                    arith,
                    lookup-insert q.memory.id r.memory.id q.memory pool.0,
                    y,
                    ap (λ k. k.memory) same,
                  ),
                  ground (
                    arith,
                    lookup-insert q.memory.id r.memory.id q.score pool.1,
                    y,
                    ap (λ k. k.score) same,
                  ),
                )))
        | inr other ↦
            elim (Bool-cases (at_least fl st words d q.score d.cfg.similarity_threshold)) [
              | inl y ↦
                  rw (y, add_similar)
                    (add_similar-Holds r rs _ n rest (elsewhere r q rs pool other h))
              | inr below ↦
                  rw (below, add_similar)
                    (add_similar-Holds r rs pool n rest (later r q rs pool other h))
            ]
      ]
