-- ===== src/Graph/MockClient.antt =====
-- internal/graph/mock_client.go: the graph client in memory. Methods that cannot fail return the new
-- client; a fact or entity that is not found is the only error of the writing ones.
pub mod Laws
use openclaw_cortex.Base.{
  ℕ, zero, suc, String, Bool, true, false, not, ◌&&◌, ◌||◌, Option, none, some, List, [], ◌∷◌, ◌++◌,
  map, ltb, ◌==◌, if◌then◌else◌, length, take, keep, any, Map, lookup, insert, values, str_eq,
}
use openclaw_cortex.Base.Float.{Float}
use openclaw_cortex.Base.Strings.{Strings}
use openclaw_cortex.Base.Once.{member}
use openclaw_cortex.Models.{Entity, Fact, Episode}
use openclaw_cortex.Store.Filters.{is_none}
use openclaw_cortex.Store.Mock.{Reply, ok, not_found, cosine_similarity}
use openclaw_cortex.Graph.EntityResolver.{EntityResult}

pub record FactResult (F : Type 0) : Type 0 where
  pub id : String
  pub fact : String
  pub source_entity_id : String
  pub target_entity_id : String
  pub source_memory_ids : List String
  pub score : F

-- The embedder is optional; its `none` is an error.
pub record MockClient (F : Type 0) : Type 0 where
  pub entities : Map (Entity F)
  pub facts : Map (Fact F)
  pub episodes : Map Episode
  pub embedder : Option (String → Option (List F))

abbrev pub new_mock_client : {F : Type 0} → MockClient F
new_mock_client = record { entities = []; facts = []; episodes = []; embedder = none }

abbrev pub with_id : String → List String → List String
with_id id ids = if member id ids then ids else ids ++ id ∷ []

-- Appends each id that is not seen yet.
unfoldable pub add_unseen : List String → List String → List String
add_unseen seen [] = seen
add_unseen seen (id ∷ ids) = add_unseen (with_id id seen) ids

module _ {F : Type 0} where
  unfoldable pub upsert_entity : Entity F → MockClient F → MockClient F
  upsert_entity e g = record g { entities = insert e.id e g.entities }

  unfoldable pub get_entity : String → MockClient F → Reply (Entity F)
  get_entity id g = elim (lookup id g.entities) [ none ↦ not_found | some e ↦ ok e ]

  -- A fact without an embedding gets that of its text, if there is an embedder and it succeeds.
  unfoldable pub embedded : Option (String → Option (List F)) → Fact F → Fact F
  embedded none f = f
  embedded (some embed) f =
      if length f.fact_embedding == 0
      then (elim (embed f.fact_text) [ none ↦ f | some vec ↦ record f { fact_embedding = vec } ])
      else f

  unfoldable pub upsert_fact : Fact F → MockClient F → MockClient F
  unfolding embedded
  upsert_fact f g = record g { facts = insert f.id (embedded g.embedder f) g.facts }

  -- `f, ok := m.facts[id]`, a change of f, and `m.facts[id] = f`.
  unfoldable pub modify_fact :
      String → (Fact F → Fact F) → MockClient F → MockClient F × Reply (Unit {0})
  modify_fact id change g = elim (lookup id g.facts) [
    | none ↦ (g, not_found)
    | some f ↦ (record g { facts = insert id (change f) g.facts }, ok tt)
  ]

  abbrev pub expired : ℕ → ℕ → Fact F → Fact F
  expired expired_at invalid_at f = record f {
    expired_at = some expired_at;
    invalid_at = some invalid_at;
  }

  unfoldable pub invalidate_fact : String → ℕ → ℕ → MockClient F → MockClient F × Reply (Unit {0})
  unfolding modify_fact
  invalidate_fact id expired_at invalid_at = modify_fact id (expired expired_at invalid_at)

  unfoldable append_episode : String → String → MockClient F → MockClient F × Reply (Unit {0})
  unfolding modify_fact
  append_episode fact_id episode_id =
      modify_fact fact_id (λ f. record f { episodes = with_id episode_id f.episodes })

  unfoldable pub append_memory_to_fact :
      String → String → MockClient F → MockClient F × Reply (Unit {0})
  unfolding modify_fact
  append_memory_to_fact fact_id memory_id =
      modify_fact fact_id
        (λ f. record f { source_memory_ids = with_id memory_id f.source_memory_ids })

  -- The loop over the facts that skips the expired ones.
  abbrev pub in_force : (Fact F → Bool) → MockClient F → List (Fact F)
  in_force test g = keep (λ f. is_none f.expired_at && test f) (values g.facts)

  unfoldable pub get_facts_between : String → String → MockClient F → List (Fact F)
  get_facts_between source target = in_force (λ f.
      str_eq f.source_entity_id source && str_eq f.target_entity_id target
      || str_eq f.source_entity_id target && str_eq f.target_entity_id source)

  unfoldable pub get_facts_for_entity : String → MockClient F → List (Fact F)
  get_facts_for_entity id =
      in_force (λ f. str_eq f.source_entity_id id || str_eq f.target_entity_id id)

  unfoldable pub get_memory_facts : String → MockClient F → List (Fact F)
  get_memory_facts memory_id g = keep (λ f. member memory_id f.source_memory_ids) (values g.facts)

  unfoldable pub add_sources : List String → List (Fact F) → List String
  unfolding add_unseen
  add_sources seen [] = seen
  add_sources seen (f ∷ fs) = add_sources (add_unseen seen f.source_memory_ids) fs

  unfoldable pub recall_by_graph : MockClient F → List String
  unfolding add_sources
  recall_by_graph g = add_sources [] (in_force (λ f. true) g)

  unfoldable create_episode : Episode → MockClient F → MockClient F
  create_episode ep g = record g { episodes = insert ep.uuid ep g.episodes }

  unfoldable get_episodes_for_memory : String → MockClient F → List Episode
  get_episodes_for_memory memory_id g =
      keep (λ ep. member memory_id ep.memory_ids) (values g.episodes)

module _ (fl : Float) where
  open fl use {Number, lit, lt}

  abbrev fact_score : List Number → Fact Number → Number
  fact_score embedding f =
      if ltb 0 (length embedding) && ltb 0 (length f.fact_embedding)
      then cosine_similarity fl embedding f.fact_embedding
      else if length embedding == 0
      then lit 10 1
      else lit 0 0

  abbrev pub fact_result : List Number → Fact Number → FactResult Number
  fact_result embedding f = record {
    id = f.id;
    fact = f.fact_text;
    source_entity_id = f.source_entity_id;
    target_entity_id = f.target_entity_id;
    source_memory_ids = f.source_memory_ids;
    score = fact_score embedding f;
  }

  abbrev pub closer : FactResult Number → FactResult Number → Bool
  closer a b = lt b.score a.score

-- The searches, with scores.
module _ (fl : Float) (st : Strings) where
  open fl use {Number, lit}
  open st use {to_lower, contains}

  -- A limit of 0 is none; the loop stops after the entity that reaches the limit.
  unfoldable pub search_entities : String → ℕ → MockClient Number → List (EntityResult Number)
  search_entities query limit g =
      let found =
        map (λ (id, e). record { id = id; name = e.name; type = e.type; score = lit 10 1 })
          (keep (λ (id, e). str_eq query "" || contains (to_lower e.name) (to_lower query))
            g.entities) in
      if ltb 0 limit then take limit found else found

  abbrev pub mentions : String → List Number → Fact Number → Bool
  mentions query embedding f =
      str_eq query ""
      || not (length embedding == 0)
      || contains (to_lower f.fact_text) (to_lower query)
      || contains (to_lower f.relation_type) (to_lower query)

  -- `none` is the error for a limit that is not positive; `sort` is sort.Slice.
  unfoldable pub search_facts :
      ((FactResult Number → FactResult Number → Bool)
        → List (FactResult Number)
        → List (FactResult Number))
      → String
      → List Number
      → ℕ
      → MockClient Number
      → Option (List (FactResult Number))
  search_facts sort query embedding limit g =
      if limit == 0
      then none
      else some (
          take limit (
            sort (closer fl)
              (map (fact_result fl embedding) (in_force (mentions query embedding) g))))
