-- ===== src/Extract/Run.antt =====
-- internal/extract/post_store.go `Run`: the entities of all memories, then the facts between them.
pub mod Grounded
pub mod Joined
use openclaw_cortex.Base.{
  ℕ, zero, suc, ◌+◌, String, Bool, true, false, Option, none, some, List, [], ◌∷◌, ◌++◌,
  if◌then◌else◌, ◌==◌, length, Map, lookup, insert,
}
use openclaw_cortex.Models.{Entity, Fact}

pub record StoredMemory : Type 0 where
  pub id : String
  pub content : String

pub record Result : Type 0 where
  pub entities_extracted : ℕ
  pub facts_extracted : ℕ
  pub errors : ℕ

-- The calls that Run makes; `none` and `false` are errors. The extractors take the number of the
-- memory besides, as their answers need not be the same at another time; so does the context, which
-- is looked at before each memory, in the first and in the second loop.
pub record Deps (F S : Type 0) : Type 0 where
  pub extract_entities : ℕ → String → Option (List (Entity F))
  pub extract_facts : ℕ → String → List String → Option (List (Fact F))
  pub upsert_entity : Entity F → S → S × Bool
  pub link_memory_to_entity : String → String → S → S × Bool
  pub upsert_fact : Fact F → S → S × Bool
  pub append_memory_to_fact : String → String → S → S × Bool
  pub ended_first : ℕ → Bool
  pub ended_second : ℕ → Bool
  pub to_lower : String → String

-- What the first loop has gathered: entityNameToID, allEntityNames and the counters.
pub record Gathered (S : Type 0) : Type 0 where
  pub state : S
  pub ids : Map String
  pub names : List String
  pub entities_extracted : ℕ
  pub errors : ℕ

pub record Written (S : Type 0) : Type 0 where
  pub state : S
  pub facts_extracted : ℕ
  pub errors : ℕ

module _ {F S : Type 0} (d : Deps F S) where
  unfoldable pub add_entity : String → Entity F → Gathered S → Gathered S
  add_entity memory_id e g =
      let (s, ok) = d.upsert_entity e g.state in
      if ok
      then record {
        state = (d.link_memory_to_entity e.id memory_id s).0;
        ids = insert (d.to_lower e.name) e.id g.ids;
        names = g.names ++ e.name ∷ [];
        entities_extracted = g.entities_extracted + 1;
        errors = g.errors;
      }
      else record g { state = s }

  unfoldable pub add_entities : String → List (Entity F) → Gathered S → Gathered S
  unfolding add_entity
  add_entities memory_id [] g = g
  add_entities memory_id (e ∷ es) g = add_entities memory_id es (add_entity memory_id e g)

  unfoldable pub entities_of : ℕ → StoredMemory → Gathered S → Gathered S
  unfolding add_entities
  entities_of i m g = elim (d.extract_entities i m.content) [
    | none ↦ record g { errors = g.errors + 1 }
    | some es ↦ add_entities m.id es g
  ]

  unfoldable pub gather : ℕ → List StoredMemory → Gathered S → Gathered S
  unfolding entities_of
  gather i [] g = g
  gather i (m ∷ ms) g =
      let rest = gather (suc i) ms (entities_of i m g) in if d.ended_first i then g else rest

  abbrev pub counted : Bool → Written S → Written S
  counted linked w = if linked then record w { facts_extracted = w.facts_extracted + 1 } else w

  unfoldable pub write_fact : String → Fact F → Written S → Written S
  write_fact memory_id f w =
      let (s, ok) = d.upsert_fact f w.state in
      let (t, linked) = d.append_memory_to_fact f.id memory_id s in
      if ok then counted linked (record w { state = t }) else record w { state = s }

  -- The names of the endpoints give way to ids; a fact with an unknown name is left out.
  unfoldable pub add_fact : Map String → String → Fact F → Written S → Written S
  unfolding write_fact
  add_fact ids memory_id f w = elim (lookup (d.to_lower f.source_entity_id) ids) [
    | none ↦ w
    | some source ↦ elim (lookup (d.to_lower f.target_entity_id) ids) [
      | none ↦ w
      | some target ↦
          write_fact memory_id (record f { source_entity_id = source; target_entity_id = target }) w
    ]
  ]

  unfoldable pub add_facts : Map String → String → List (Fact F) → Written S → Written S
  unfolding add_fact
  add_facts ids memory_id [] w = w
  add_facts ids memory_id (f ∷ fs) w = add_facts ids memory_id fs (add_fact ids memory_id f w)

  unfoldable pub facts_of : Map String → List String → ℕ → StoredMemory → Written S → Written S
  unfolding add_facts
  facts_of ids names i m w = elim (d.extract_facts i m.content names) [
    | none ↦ record w { errors = w.errors + 1 }
    | some fs ↦ add_facts ids m.id fs w
  ]

  unfoldable pub write : Map String → List String → ℕ → List StoredMemory → Written S → Written S
  unfolding facts_of
  write ids names i [] w = w
  write ids names i (m ∷ ms) w =
      let rest = write ids names (suc i) ms (facts_of ids names i m w) in
      if d.ended_second i then w else rest

  abbrev pub first_loop : List StoredMemory → S → Gathered S
  first_loop memories s =
      gather 0 memories
        (record { state = s; ids = []; names = []; entities_extracted = 0; errors = 0 })

  abbrev second_loop : List StoredMemory → Gathered S → Written S
  second_loop memories g =
      write g.ids g.names 0 memories
        (record { state = g.state; facts_extracted = 0; errors = g.errors })

  unfoldable pub run_deps : List StoredMemory → S → S × Result
  unfolding gather write
  run_deps memories s =
      let g = first_loop memories s in
      let w = second_loop memories g in
      if length g.names == 0
      then (
        g.state,
        record {
          entities_extracted = g.entities_extracted;
          facts_extracted = 0;
          errors = g.errors;
        },
      )
      else (
        w.state,
        record {
          entities_extracted = g.entities_extracted;
          facts_extracted = w.facts_extracted;
          errors = w.errors;
        },
      )

-- `none`: the client of the language model, the store or the graph client is nil.
unfoldable pub run : {F S : Type 0} → Option (Deps F S) → List StoredMemory → S → S × Result
unfolding run_deps
run none memories s = (s, record { entities_extracted = 0; facts_extracted = 0; errors = 0 })
run (some d) memories s = run_deps d memories s
