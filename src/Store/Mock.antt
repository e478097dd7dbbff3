-- ===== src/Store/Mock.antt =====
-- internal/store/mock_store.go: the memories and entities in two maps. Methods that cannot fail
-- return the new store; ErrNotFound is the only error.
pub mod Chain
pub mod Laws
pub mod Stats
use openclaw_cortex.Base.{
  ℕ, zero, suc, ◌+◌, ◌*◌, String, Bool, true, false, not, ◌&&◌, ◌||◌, Option, none, some, List, [],
  ◌∷◌, ◌++◌, map, ltb, leb, ◌==◌, if◌then◌else◌, length, take, keep, any, Map, lookup, insert,
  erase, values, str_eq,
}
use openclaw_cortex.Base.Float.{Float}
use openclaw_cortex.Base.Sort.{exchange_sort}
use openclaw_cortex.Models.{Memory, SearchResult, Entity}
use openclaw_cortex.Store.Filters.{SearchFilters, matches_filters, is_none}

pub record Stored (F : Type 0) : Type 0 where
  pub memory : Memory F
  pub vector : List F

pub record MockStore (F : Type 0) : Type 0 where
  pub memories : Map (Stored F)
  pub entities : Map (Entity F)

-- What the methods return beside the store.
pub data Reply (A : Type 0) : Type 0 where
  ok : A → Reply A
  not_found : Reply A

abbrev pub new_mock_store : {F : Type 0} → MockStore F
new_mock_store = record { memories = []; entities = [] }

module _ {F : Type 0} where
  -- `sm.memory.… = …` through the pointer in the map.
  unfoldable pub modify :
      String → (Memory F → Memory F) → MockStore F → MockStore F × Reply (Unit {0})
  modify id f s = elim (lookup id s.memories) [
    | none ↦ (s, not_found)
    | some sm ↦
        (record s { memories = insert id (record sm { memory = f sm.memory }) s.memories }, ok tt)
  ]

  abbrev pub invalidated : ℕ → Memory F → Memory F
  invalidated now m = record m { valid_to = some now; is_current_version = false }

  unfoldable pub supersede : ℕ → String → MockStore F → MockStore F
  unfolding modify
  supersede now id s = if str_eq id "" then s else (modify id (invalidated now) s).0

  -- Sets valid_from if it is zero, and derives the current-version flag.
  unfoldable pub stamped : ℕ → Memory F → Memory F
  stamped now m = record m {
    valid_from =
        if m.valid_from == 0
        then (if m.created_at == 0 then now else m.created_at)
        else m.valid_from;
    is_current_version = is_none m.valid_to;
  }

  unfoldable pub upsert : ℕ → Memory F → List F → MockStore F → MockStore F
  unfolding supersede stamped
  upsert now m vector s =
      let s' = supersede now m.supersedes_id s in
      record s' {
        memories = insert m.id (record { memory = stamped now m; vector = vector }) s'.memories;
      }

  unfoldable pub get : String → MockStore F → Reply (Memory F)
  get id s = elim (lookup id s.memories) [
    | none ↦ not_found
    | some sm ↦ ok (record (sm.memory) { is_current_version = is_none sm.memory.valid_to })
  ]

  unfoldable pub delete : String → MockStore F → MockStore F × Reply (Unit {0})
  delete id s = elim (lookup id s.memories) [
    | none ↦ (s, not_found)
    | some sm ↦ (record s { memories = erase id s.memories }, ok tt)
  ]

  unfoldable pub update_access_metadata : ℕ → String → MockStore F → MockStore F × Reply (Unit {0})
  unfolding modify
  update_access_metadata now id =
      modify id (λ m. record m { last_accessed = now; access_count = m.access_count + 1 })

  unfoldable pub update_conflict_fields :
      String → String → String → MockStore F → MockStore F × Reply (Unit {0})
  unfolding modify
  update_conflict_fields id group_id status =
      modify id (λ m. record m { conflict_group_id = group_id; conflict_status = status })

  unfoldable pub invalidate_memory : String → ℕ → MockStore F → MockStore F × Reply (Unit {0})
  unfolding modify
  invalidate_memory id valid_to = modify id (invalidated valid_to)

  unfoldable count_zero_embedding_memories : MockStore F → ℕ
  count_zero_embedding_memories s = length (keep (λ sm. length sm.vector == 0) (values s.memories))

  unfoldable delete_all_memories : MockStore F → MockStore F
  delete_all_memories s = new_mock_store

  unfoldable pub upsert_entity : Entity F → MockStore F → MockStore F
  upsert_entity e s = record s { entities = insert e.id e s.entities }

  unfoldable pub get_entity : String → MockStore F → Reply (Entity F)
  get_entity id s = elim (lookup id s.entities) [ none ↦ not_found | some e ↦ ok e ]

  unfoldable pub link_memory_to_entity :
      String → String → MockStore F → MockStore F × Reply (Unit {0})
  link_memory_to_entity entity_id memory_id s = elim (lookup entity_id s.entities) [
    | none ↦ (s, not_found)
    | some e ↦ if any (λ id. str_eq id memory_id) e.memory_ids then (s, ok tt) else (
      record s {
        entities =
            insert entity_id (record e { memory_ids = e.memory_ids ++ memory_id ∷ [] }) s.entities;
      },
      ok tt,
    )
  ]

  -- strings.ToLower and strings.Contains are the arguments `lower` and `contains`.
  unfoldable pub search_entities :
      (String → String)
      → (String → String → Bool)
      → String
      → String
      → ℕ
      → MockStore F
      → List (Entity F)
  search_entities lower contains name entity_type limit s =
      let matched =
        keep
          (λ (e : Entity F).
            (contains (lower e.name) (lower name)
              || any (λ a. contains (lower a) (lower name)) e.aliases)
            && (str_eq entity_type "" || str_eq e.type entity_type))
          (values s.entities) in
      if limit == 0 then matched else take limit matched

  -- `List`: an id that is the cursor ends the page before, so the next page begins behind it.
  unfoldable pub behind : String → List (Memory F) → Option (List (Memory F))
  behind cursor [] = none
  behind cursor (m ∷ ms) =
      let rest = behind cursor ms in if str_eq m.id cursor then some ms else rest

  unfoldable pub last_id : List (Memory F) → String
  last_id [] = ""
  last_id (m ∷ []) = m.id
  last_id (m ∷ n ∷ ms) = last_id (n ∷ ms)

  abbrev pub cut : ℕ → List (Memory F) → List (Memory F) × String
  cut limit ms =
      if ltb 0 limit && ltb limit (length ms)
      then (take limit ms, last_id (take limit ms))
      else (ms, "")

  unfoldable pub page : List (Memory F) → ℕ → String → List (Memory F) × String
  unfolding last_id behind
  page ms limit cursor =
      if str_eq cursor ""
      then cut limit ms
      else (elim (behind cursor ms) [ none ↦ ([], "") | some rest ↦ cut limit rest ])

  -- The order of ids is the argument `id_less`, Go's `<` on strings.
  unfoldable pub listed :
      (String → String → Bool) → Option SearchFilters → MockStore F → List (Memory F)
  listed id_less f s =
      exchange_sort (λ a b. id_less a.id b.id)
        (map (λ sm. record (sm.memory) { has_embedding = not (length sm.vector == 0) })
          (keep (λ sm. matches_filters sm.memory f) (values s.memories)))

  unfoldable pub list :
      (String → String → Bool)
      → Option SearchFilters
      → ℕ
      → String
      → MockStore F
      → List (Memory F) × String
  unfolding listed page
  list id_less f limit cursor s = page (listed id_less f s) limit cursor

-- The methods that compute with scores.
module _ (fl : Float) where
  open fl use {Number, lit, plus, times, divide, sqrt, lt, eq}

  -- The three sums of the loop of pkg/vecmath.
  unfoldable pub sums :
      Number → Number → Number → List Number → List Number → Number × Number × Number
  sums dot norm_a norm_b (a ∷ as') (b ∷ bs) =
      sums (plus dot (times a b)) (plus norm_a (times a a)) (plus norm_b (times b b)) as' bs
  sums dot norm_a norm_b _ _ = (dot, norm_a, norm_b)

  unfoldable pub cosine_similarity : List Number → List Number → Number
  unfolding sums
  cosine_similarity a b =
      if not (length a == length b) || (length a == 0)
      then lit 0 0
      else (let (dot, norm_a, norm_b) = sums (lit 0 0) (lit 0 0) (lit 0 0) a b in
          if eq norm_a (lit 0 0) || eq norm_b (lit 0 0)
          then lit 0 0
          else divide dot (times (sqrt norm_a) (sqrt norm_b)))

  abbrev pub scored : List Number → Stored Number → SearchResult Number
  scored vector sm = record {
    memory = sm.memory;
    score = cosine_similarity vector sm.vector;
    original_similarity = none;
  }

  unfoldable pub search :
      List Number → ℕ → Option SearchFilters → MockStore Number → List (SearchResult Number)
  search vector limit f s = take limit (
      exchange_sort (λ a b. lt b.score a.score)
        (map (scored vector) (keep (λ sm. matches_filters sm.memory f) (values s.memories))))

  -- `score >= threshold`; a NaN fails every comparison, and `eq` stands for the equality in `>=`.
  unfoldable pub find_duplicates :
      List Number → Number → MockStore Number → List (SearchResult Number)
  find_duplicates vector threshold s =
      keep (λ r. lt threshold r.score || eq threshold r.score)
        (map (scored vector) (values s.memories))

  unfoldable pub update_reinforcement :
      ℕ → String → Number → MockStore Number → MockStore Number × Reply (Unit {0})
  unfolding modify
  update_reinforcement now id boost = modify id (λ m.
      let boosted = plus m.confidence boost in
      record m {
        confidence = if lt (lit 1 0) boosted then lit 1 0 else boosted;
        reinforced_count = m.reinforced_count + 1;
        reinforced_at = now;
      })
