-- ===== src/Hooks/PostTurn.antt =====
-- internal/hooks/pipeline.go: one captured memory on its way into the store. `check` is the part of
-- processSingleMemory up to the duplicate check, `commit` the rest; the goroutines of the pipeline
-- run these parts of several memories in any order.
pub mod Duplicates
pub mod Tagged
use openclaw_cortex.Base.{
  ℕ, zero, suc, ◌+◌, String, Bool, true, false, not, ◌&&◌, ◌||◌, Option, none, some, List, [], ◌∷◌,
  map, if◌then◌else◌, ltb, leb, str_eq,
}
use openclaw_cortex.Base.Int.{ℤ, pos, negsuc}
use openclaw_cortex.Base.Float.{Float}
use openclaw_cortex.Models.{zero_memory, Memory, SearchResult}

pub record CapturedMemory (F : Type 0) : Type 0 where
  pub content : String
  pub type : String
  pub confidence : F
  pub tags : List String

-- What Embed returns: a vector, an error of the context, or another error.
pub data Embedding (F : Type 0) : Type 0 where
  vector : List F → Embedding F
  context_error : Embedding F
  embed_error : Embedding F

-- The calls of the pipeline; `none` and `false` are errors. The detector answers with the id that is
-- contradicted, if there is one.
pub record PipelineDeps (F S : Type 0) : Type 0 where
  pub classify : String → String
  pub embed : String → Embedding F
  pub find_duplicates : List F → F → S → Option (List (SearchResult F))
  pub update_reinforcement : String → F → S → S × Bool
  pub search : List F → ℕ → S → Option (List (SearchResult F))
  pub update_conflict_fields : String → String → String → S → S × Bool
  pub upsert : Memory F → List F → S → S × Bool
  pub conflict_detector : Option (String → List (Memory F) → Option String)
  pub dedup_threshold : F
  pub reinforcement_threshold : F
  pub reinforcement_boost : F
  pub project : String

pub data Outcome : Type 0 where
  stored : Outcome
  skipped : Outcome
  cancelled : Outcome

-- After the first part: the memory goes on with its type and vector, or it is done.
pub data Checked (F : Type 0) : Type 0 where
  proceed : String → List F → Checked F
  done : Outcome → Checked F

-- What the clock and uuid.New give to one memory.
pub record Fresh : Type 0 where
  pub now : ℕ
  pub id : String
  pub group_id : String

abbrev pub conflict_candidate_limit : ℕ
conflict_candidate_limit = 5

-- The bounds on the number of goroutines.
unfoldable clamped : ℤ → ℕ
clamped (negsuc n) = 4
clamped (pos n) = if ltb 0 n then (if ltb 16 n then 16 else n) else 4

module _ (fl : Float) {S : Type 0} (d : PipelineDeps (fl.Number) S) where
  open fl use {Number, lit, lt}

  -- The boost of the first near duplicate, if it is not a duplicate; whether it was made.
  unfoldable pub reinforce : List Number → S → S × Bool
  reinforce vec s =
      if lt (lit 0 0) d.reinforcement_threshold
      then (elim (d.find_duplicates vec d.reinforcement_threshold s) [
        | some (top ∷ rest) ↦
            if lt top.score d.dedup_threshold
            then d.update_reinforcement top.memory.id d.reinforcement_boost s
            else (s, false)
        | _ ↦ (s, false)
      ])
      else (s, false)

  unfoldable pub has_duplicate : List Number → S → Bool
  has_duplicate vec s = elim (d.find_duplicates vec d.dedup_threshold s) [
    | some (dup ∷ rest) ↦ true
    | _ ↦ false
  ]

  unfoldable pub check_vector : String → List Number → S → S × Checked Number
  unfolding reinforce has_duplicate
  check_vector mem_type vec s =
      let (t, boosted) = reinforce vec s in
      (t, if boosted || has_duplicate vec t then done skipped else proceed mem_type vec)

  unfoldable pub check : CapturedMemory Number → S → S × Checked Number
  unfolding check_vector
  check cm s = elim (d.embed cm.content) [
    | context_error ↦ (s, done cancelled)
    | embed_error ↦ (s, done skipped)
    | vector vec ↦ check_vector (if str_eq cm.type "" then d.classify cm.content else cm.type) vec s
  ]

  -- The group id of a conflict, and "" without one.
  unfoldable pub tag_conflict : Fresh → CapturedMemory Number → List Number → S → S × String
  tag_conflict fresh cm vec s = elim d.conflict_detector [
    | none ↦ (s, "")
    | some detect ↦ elim (d.search vec conflict_candidate_limit s) [
      | none ↦ (s, "")
      | some candidates ↦ elim (detect cm.content (map (λ c. c.memory) candidates)) [
        | none ↦ (s, "")
        | some id ↦
            if str_eq id ""
            then (s, "")
            else ((d.update_conflict_fields id fresh.group_id "active" s).0, fresh.group_id)
      ]
    ]
  ]

  unfoldable pub new_memory : Fresh → CapturedMemory Number → String → String → Memory Number
  new_memory fresh cm mem_type group_id = record (zero_memory cm.confidence) {
    id = fresh.id;
    type = mem_type;
    scope = "session";
    visibility = "private";
    content = cm.content;
    source = "post-turn-hook";
    tags = cm.tags;
    project = d.project;
    created_at = fresh.now;
    updated_at = fresh.now;
    last_accessed = fresh.now;
    conflict_group_id = group_id;
    conflict_status = if str_eq group_id "" then "" else "active";
  }

  unfoldable pub commit : Fresh → CapturedMemory Number → Checked Number → S → S × Outcome
  unfolding tag_conflict new_memory
  commit fresh cm (done outcome) s = (s, outcome)
  commit fresh cm (proceed mem_type vec) s =
      let (t, group_id) = tag_conflict fresh cm vec s in
      let (u, ok) = d.upsert (new_memory fresh cm mem_type group_id) vec t in
      (u, if ok then stored else skipped)

  -- processSingleMemory, with no other memory between its parts.
  unfoldable pub process_single_memory : Fresh → CapturedMemory Number → S → S × Outcome
  unfolding check commit
  process_single_memory fresh cm s = let (t, checked) = check cm s in commit fresh cm checked t
