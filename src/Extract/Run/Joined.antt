-- ===== src/Extract/Run/Joined.antt =====
-- internal/extract/post_store.go: the two loops of Run over the store and the graph in memory.
use openclaw_cortex.Base.{
  ℕ, suc, String, none, some, List, [], ◌∷◌, ◌≡◌, ap, subst, arith, ◌==◌, length, Bool-cases,
  Option-cases, inl, inr, Map, lookup, insert, lookup-insert, str_eq,
}
use openclaw_cortex.Models.{Entity, Fact}
use openclaw_cortex.Store.Mock.{MockStore, upsert_entity, link_memory_to_entity}
use openclaw_cortex.Graph.MockClient.{upsert_fact, append_memory_to_fact}
use openclaw_cortex.Lifecycle.Pages.InMemory.{is_ok}
use openclaw_cortex.Extract.Run.{
  StoredMemory, Gathered, Written, add_entity, add_entities, entities_of, gather, write_fact,
  add_fact, add_facts, facts_of, write, first_loop, run_deps, run,
}
use openclaw_cortex.Extract.Run.Grounded.{
  Answers, Both, in_memory_deps, Has, Grounded, Grows, upsert_entity-Grows, upsert_entity-Has,
  link-Grows, Grounded-Grows, upsert_fact-Grounded, append-Grounded,
}

module _ {F : Type 0} where
  -- Every id that a name stands for is that of an entity in the store.
  abbrev Named : Map String → MockStore F → Type 0
  Named ids s = (name id : String) → lookup name ids ≡ some id → Has id s

  Named-insert :
      (name id : String) (ids : Map String) (s : MockStore F)
      → Has id s
      → Named ids s
      → Named (insert name id ids) s
  Named-insert name id ids s h k n j e = elim (Bool-cases (str_eq name n)) [
    | inl l ↦
        (let found : some id ≡ some j = ground (arith, l, e, lookup-insert name n id ids) in
          subst (λ i. Has i s) (ap (λ o. elim o [ none ↦ id | some i ↦ i ]) found) h)
    | inr l ↦ k n j (ground (arith, l, e, lookup-insert name n id ids))
  ]

  Named-none : (s : MockStore F) → Named [] s
  unfolding lookup
  Named-none s name id e = cc

  abbrev Sofar : Gathered (Both F) → Type 0
  Sofar g = Grounded g.state × Named g.ids g.state.0

  module _ (a : Answers F) where
    add_entity-Sofar :
        (memory_id : String) (e : Entity F) (g : Gathered (Both F))
        → Sofar g
        → Sofar (add_entity (in_memory_deps a) memory_id e g)
    unfolding add_entity
    add_entity-Sofar memory_id e g (k, n) =
        let s = g.state.0 in
        let t = upsert_entity e s in
        let u = (link_memory_to_entity e.id memory_id t).0 in
        let grows : Grows s u =
          λ id h. link-Grows e.id memory_id t id (upsert_entity-Grows e s id h) in
        (
          Grounded-Grows s u g.state.1 grows k,
          Named-insert (a.to_lower e.name) e.id g.ids u
              (link-Grows e.id memory_id t e.id (upsert_entity-Has e s))
              (λ name id l. grows id (n name id l)),
        )

    add_entities-Sofar :
        (memory_id : String) (es : List (Entity F)) (g : Gathered (Both F))
        → Sofar g
        → Sofar (add_entities (in_memory_deps a) memory_id es g)
    unfolding add_entities
    add_entities-Sofar memory_id [] g k = k
    add_entities-Sofar memory_id (e ∷ es) g k =
        add_entities-Sofar memory_id es (add_entity (in_memory_deps a) memory_id e g)
          (add_entity-Sofar memory_id e g k)

    entities_of-Sofar :
        (i : ℕ) (m : StoredMemory) (g : Gathered (Both F))
        → Sofar g
        → Sofar (entities_of (in_memory_deps a) i m g)
    unfolding entities_of
    entities_of-Sofar i m g k = elim (Option-cases (a.extract_entities i m.content)) [
      | inl e ↦ rw (e, entities_of) k
      | inr (es, e) ↦ rw (e, entities_of) (add_entities-Sofar m.id es g k)
    ]

    gather-Sofar :
        (i : ℕ) (ms : List StoredMemory) (g : Gathered (Both F))
        → Sofar g
        → Sofar (gather (in_memory_deps a) i ms g)
    unfolding gather
    gather-Sofar i [] g k = k
    gather-Sofar i (m ∷ ms) g k = elim (Bool-cases (a.ended_first i)) [
      | inl e ↦ rw e k
      | inr e ↦ rw e (gather-Sofar (suc i) ms _ (entities_of-Sofar i m g k))
    ]

    abbrev Joining : Map String → Written (Both F) → Type 0
    Joining ids w = Grounded w.state × Named ids w.state.0

    write_fact-Joining :
        (ids : Map String) (memory_id : String) (f : Fact F) (w : Written (Both F))
        → Has f.source_entity_id w.state.0 × Has f.target_entity_id w.state.0
        → Joining ids w
        → Joining ids (write_fact (in_memory_deps a) memory_id f w)
    unfolding write_fact
    write_fact-Joining ids memory_id f w ends (k, n) =
        let (s, g) = w.state in
        let h =
          append-Grounded f.id memory_id s (upsert_fact f g) (upsert_fact-Grounded f s g ends k) in
        elim (Bool-cases (is_ok (append_memory_to_fact f.id memory_id (upsert_fact f g)).1)) [
          | inl e ↦ rw e (h, n)
          | inr e ↦ rw e (h, n)
        ]

    add_fact-Joining :
        (ids : Map String) (memory_id : String) (f : Fact F) (w : Written (Both F))
        → Joining ids w
        → Joining ids (add_fact (in_memory_deps a) ids memory_id f w)
    unfolding add_fact
    add_fact-Joining ids memory_id f w k =
        elim (Option-cases (lookup (a.to_lower f.source_entity_id) ids)) [
          | inl e ↦ rw (e, add_fact) k
          | inr (source, e) ↦ elim (Option-cases (lookup (a.to_lower f.target_entity_id) ids)) [
            | inl h ↦ rw (e, add_fact) (rw h k)
            | inr (target, h) ↦
                rw (e, add_fact)
                  (rw h (
                    write_fact-Joining ids memory_id
                      (record f { source_entity_id = source; target_entity_id = target }) w
                      (k.1 _ source e, k.1 _ target h) k))
          ]
        ]

    add_facts-Joining :
        (ids : Map String) (memory_id : String) (fs : List (Fact F)) (w : Written (Both F))
        → Joining ids w
        → Joining ids (add_facts (in_memory_deps a) ids memory_id fs w)
    unfolding add_facts
    add_facts-Joining ids memory_id [] w k = k
    add_facts-Joining ids memory_id (f ∷ fs) w k =
        add_facts-Joining ids memory_id fs (add_fact (in_memory_deps a) ids memory_id f w)
          (add_fact-Joining ids memory_id f w k)

    facts_of-Joining :
        (ids : Map String) (names : List String) (i : ℕ) (m : StoredMemory) (w : Written (Both F))
        → Joining ids w
        → Joining ids (facts_of (in_memory_deps a) ids names i m w)
    unfolding facts_of
    facts_of-Joining ids names i m w k = elim (Option-cases (a.extract_facts i m.content names)) [
      | inl e ↦ rw (e, facts_of) k
      | inr (fs, e) ↦ rw (e, facts_of) (add_facts-Joining ids m.id fs w k)
    ]

    write-Joining :
        (ids : Map String) (names : List String) (i : ℕ) (ms : List StoredMemory)
        (w : Written (Both F))
        → Joining ids w
        → Joining ids (write (in_memory_deps a) ids names i ms w)
    unfolding write
    write-Joining ids names i [] w k = k
    write-Joining ids names i (m ∷ ms) w k = elim (Bool-cases (a.ended_second i)) [
      | inl e ↦ rw e k
      | inr e ↦ rw e (write-Joining ids names (suc i) ms _ (facts_of-Joining ids names i m w k))
    ]

    -- Whatever the extractors answer, Run over the stores in memory leaves every fact between
    -- entities that the store has, if this held before.
    pub run-Grounded :
        (memories : List StoredMemory) (b : Both F)
        → Grounded b
        → Grounded (run (some (in_memory_deps a)) memories b).0
    unfolding run run_deps
    run-Grounded memories b k =
        let first = gather-Sofar 0 memories _ (k, Named-none b.0) in
        let g = first_loop (in_memory_deps a) memories b in
        elim (Bool-cases (length g.names == 0)) [
          | inl e ↦ rw e first.0
          | inr e ↦ rw e (write-Joining g.ids g.names 0 memories _ first).0
        ]
