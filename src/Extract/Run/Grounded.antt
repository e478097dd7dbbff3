-- ===== src/Extract/Run/Grounded.antt =====
-- internal/extract/post_store.go over the store of mock_store.go and the graph client of
-- mock_client.go: which entities the facts join.
use openclaw_cortex.Base.{
  ℕ, String, Bool, true, false, Option, none, some, List, [], ◌∷◌, ◌++◌, ◌≡◌, sym, ap, subst, ◌∙◌,
  arith, ◌⊎◌, any, ◌==◌, length, Bool-cases, Option-cases, inl, inr, Map, lookup, insert,
  lookup-insert, str_eq, eq_iff,
}
use openclaw_cortex.Models.{Entity, Fact}
use openclaw_cortex.Store.Filters.{is_none}
use openclaw_cortex.Store.Mock.{MockStore, upsert_entity, link_memory_to_entity}
use openclaw_cortex.Graph.MockClient.{MockClient, embedded, upsert_fact, append_memory_to_fact}
use openclaw_cortex.Graph.MockClient.Laws.{modify_fact_here, modify_fact_gone}
use openclaw_cortex.Lifecycle.Pages.InMemory.{is_ok}
use openclaw_cortex.Extract.Run.{Deps}

-- What the extractors, the context and strings.ToLower answer.
pub record Answers (F : Type 0) : Type 0 where
  pub extract_entities : ℕ → String → Option (List (Entity F))
  pub extract_facts : ℕ → String → List String → Option (List (Fact F))
  pub ended_first : ℕ → Bool
  pub ended_second : ℕ → Bool
  pub to_lower : String → String

abbrev pub Both : Type 0 → Type 0
Both F = MockStore F × MockClient F

module _ {F : Type 0} where
  abbrev pub in_memory_deps : Answers F → Deps F (Both F)
  in_memory_deps a = record {
    extract_entities = a.extract_entities;
    extract_facts = a.extract_facts;
    upsert_entity = λ e (s, g). ((upsert_entity e s, g), true);
    link_memory_to_entity = λ id memory_id (s, g).
        let (t, r) = link_memory_to_entity id memory_id s in ((t, g), is_ok r);
    upsert_fact = λ f (s, g). ((s, upsert_fact f g), true);
    append_memory_to_fact = λ id memory_id (s, g).
        let (h, r) = append_memory_to_fact id memory_id g in ((s, h), is_ok r);
    ended_first = a.ended_first;
    ended_second = a.ended_second;
    to_lower = a.to_lower;
  }

  -- The store has an entity under the id.
  abbrev pub Has : String → MockStore F → Type 0
  Has id s = is_none (lookup id s.entities) ≡ false

  -- Every fact joins two entities of the store.
  pub record Grounded (b : Both F) : Type 0 where
    pub joins :
        (id : String) (f : Fact F)
        → lookup id b.1.facts ≡ some f
        → Has f.source_entity_id b.0 × Has f.target_entity_id b.0

  Has-insert :
      (id key : String) (e : Entity F) (m : Map (Entity F))
      → is_none (lookup id m) ≡ false
      → is_none (lookup id (insert key e m)) ≡ false
  Has-insert id key e m h = ground (arith, h, lookup-insert key id e m)

  -- The second store has the entities of the first.
  abbrev pub Grows : MockStore F → MockStore F → Type 0
  Grows s t = (id : String) → Has id s → Has id t

  pub upsert_entity-Grows : (e : Entity F) (s : MockStore F) → Grows s (upsert_entity e s)
  unfolding upsert_entity
  upsert_entity-Grows e s id h = Has-insert id e.id e s.entities h

  pub upsert_entity-Has : (e : Entity F) (s : MockStore F) → Has e.id (upsert_entity e s)
  unfolding upsert_entity
  upsert_entity-Has e s = ground (arith, lookup-insert e.id e.id e s.entities, eq_iff e.id e.id)

  link_written :
      (entity_id memory_id : String) (s : MockStore F)
      → let after = (link_memory_to_entity entity_id memory_id s).0.entities in
        (after ≡ s.entities) ⊎ ((e : Entity F) × (after ≡ insert entity_id e s.entities))
  unfolding link_memory_to_entity
  link_written entity_id memory_id s = elim (Option-cases (lookup entity_id s.entities)) [
    | inl n ↦ inl (ground (arith, n))
    | inr (e, h) ↦ elim (Bool-cases (any (λ id. str_eq id memory_id) e.memory_ids)) [
      | inl k ↦ inl (ground (arith, h, k))
      | inr k ↦ inr (record e { memory_ids = e.memory_ids ++ memory_id ∷ [] }, ground (arith, h, k))
    ]
  ]

  pub link-Grows :
      (entity_id memory_id : String) (s : MockStore F)
      → Grows s (link_memory_to_entity entity_id memory_id s).0
  link-Grows entity_id memory_id s id h = elim (link_written entity_id memory_id s) [
    | inl same ↦ ap (λ m. is_none (lookup id m)) same ∙ h
    | inr (e, same) ↦ ap (λ m. is_none (lookup id m)) same ∙ Has-insert id entity_id e s.entities h
  ]

  pub Grounded-Grows :
      (s t : MockStore F) (g : MockClient F) → Grows s t → Grounded (s, g) → Grounded (t, g)
  Grounded-Grows s t g grows k = record {
    joins = λ id f e.
        let (a, b) = k.joins id f e in (grows f.source_entity_id a, grows f.target_entity_id b);
  }

  abbrev or_else : Fact F → Option (Fact F) → Fact F
  or_else f none = f
  or_else f (some k) = k

  insert-Grounded :
      (id : String) (f : Fact F) (s : MockStore F) (g : MockClient F)
      → Has f.source_entity_id s × Has f.target_entity_id s
      → Grounded (s, g)
      → Grounded (s, record g { facts = insert id f g.facts })
  insert-Grounded id f s g ends k = record {
    joins = λ j new e. elim (Bool-cases (str_eq id j)) [
      | inl h ↦
          (let stored : some f ≡ some new = ground (arith, h, e, lookup-insert id j f g.facts) in
            subst (λ x. Has x.source_entity_id s × Has x.target_entity_id s) (ap (or_else f) stored)
              ends)
      | inr h ↦ k.joins j new (ground (arith, h, e, lookup-insert id j f g.facts))
    ];
  }

  embedded_ends :
      (embed : Option (String → Option (List F))) (f : Fact F) (s : MockStore F)
      → Has f.source_entity_id s × Has f.target_entity_id s
      → Has (embedded embed f).source_entity_id s × Has (embedded embed f).target_entity_id s
  unfolding embedded
  embedded_ends none f s h = h
  embedded_ends (some embed) f s h = elim (Bool-cases (length f.fact_embedding == 0)) [
    | inr e ↦ rw e h
    | inl e ↦ elim (Option-cases (embed f.fact_text)) [
      | inl n ↦ rw (e, embedded) (rw n h)
      | inr (vec, n) ↦ rw (e, embedded) (rw n h)
    ]
  ]

  pub upsert_fact-Grounded :
      (f : Fact F) (s : MockStore F) (g : MockClient F)
      → Has f.source_entity_id s × Has f.target_entity_id s
      → Grounded (s, g)
      → Grounded (s, upsert_fact f g)
  unfolding upsert_fact
  upsert_fact-Grounded f s g ends =
      insert-Grounded f.id (embedded g.embedder f) s g (embedded_ends g.embedder f s ends)

  pub append-Grounded :
      (id memory_id : String) (s : MockStore F) (g : MockClient F)
      → Grounded (s, g)
      → Grounded (s, (append_memory_to_fact id memory_id g).0)
  unfolding append_memory_to_fact
  append-Grounded id memory_id s g k = elim (Option-cases (lookup id g.facts)) [
    | inl n ↦ subst (λ r. Grounded (s, r.0)) (sym (modify_fact_gone id _ g n)) k
    | inr (f, h) ↦
        subst (λ r. Grounded (s, r.0)) (sym (modify_fact_here id _ g f h))
          (insert-Grounded id _ s g (k.joins id f h) k)
  ]
