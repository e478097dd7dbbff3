-- ===== src/Serving.antt =====
-- What the servers of internal/api and internal/mcp call: the store, the embedder and the recaller.
pub mod InMemory
use openclaw_cortex.Base.{ℕ, String, Bool, Option, List, [], ◌∷◌, map, length, take}
use openclaw_cortex.Base.Float.{Float}
use openclaw_cortex.Base.Strings.{Strings}
use openclaw_cortex.Models.{Memory, SearchResult, Entity, CollectionStats}
use openclaw_cortex.Store.Filters.{SearchFilters}
use openclaw_cortex.Recall.{RecallResult, Recaller}
use openclaw_cortex.Recall.Scores.{Sorting}
use openclaw_cortex.Recall.Merge.{recall_with_graph}
use openclaw_cortex.Tokenizer.{format_memories_with_budget}

-- A value, ErrNotFound, or any other error.
pub data Found (A : Type 0) : Type 0 where
  found : A → Found A
  missing : Found A
  broken : Found A

-- `none` and `false` are errors; `[]` is the nil vector. A failing UpdateAccessMetadata is logged and
-- no more. The recaller asks the store in its present state.
pub record Backend (F S : Type 0) : Type 0 where
  pub embed : String → Option (List F)
  pub upsert : ℕ → Memory F → List F → S → S × Bool
  pub get : String → S → Found (Memory F)
  pub delete : String → S → S × Found (Unit {0})
  pub list : Option SearchFilters → ℕ → String → S → Option (List (Memory F) × String)
  pub search : List F → ℕ → Option SearchFilters → S → Option (List (SearchResult F))
  pub update_access_metadata : String → S → S
  pub stats : S → Option CollectionStats
  pub get_entity : String → S → Found (Entity F)
  pub search_entities : String → String → ℕ → S → Option (List (Entity F))
  pub recaller : S → Recaller F

-- The clock, the order of sort.Slice, the length in bytes and the conversion of a float to an int.
pub record Machine (fl : Float) : Type 0 where
  pub now : ℕ
  pub fresh_id : String
  pub hours_between : ℕ → ℕ → fl.Number
  pub sort : Sorting fl
  pub len : String → ℕ
  pub truncated : fl.Number → ℕ

module _ (fl : Float) (st : Strings) (e : Machine fl) {S : Type 0} (b : Backend (fl.Number) S) where
  open fl use {Number}

  unfoldable touch_all : List (RecallResult Number) → S → S
  touch_all [] s = s
  touch_all (rr ∷ rrs) s = touch_all rrs (b.update_access_metadata rr.memory.id s)

  -- What both servers do with the results of a recall: the memories that the budget covers are
  -- formatted and touched.
  unfoldable pub recalled : String → String → ℕ → List (SearchResult Number) → S → S × List String
  unfolding touch_all
  recalled message project budget results s =
      let ranked =
        recall_with_graph fl st e.hours_between e.now e.sort (b.recaller s) project message
          results in
      let context =
        format_memories_with_budget fl e.len (st.fields) e.truncated
          (map (λ rr. rr.memory.content) ranked) budget in
      (touch_all (take (length context) ranked) s, context)
