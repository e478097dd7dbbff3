-- ===== src/Models.antt =====
-- internal/models: the records that are stored. `F` is the type of a confidence or score. Times are
-- in nanoseconds with 0 for the zero time; a pointer to a time is an option.
use openclaw_cortex.Base.{
  ℕ, String, Bool, ◌||◌, Option, none, false, List, [], ◌∷◌, any, if◌then◌else◌, Map, str_eq,
}
use openclaw_cortex.Base.Int.{ℤ, pos}
use openclaw_cortex.Base.Strings.{Strings}

-- memory.go declares four string types; their values are the constants.
abbrev pub MemoryType : Type 0
MemoryType = String

abbrev pub MemoryScope : Type 0
MemoryScope = String

abbrev pub ConflictStatus : Type 0
ConflictStatus = String

abbrev pub MemoryVisibility : Type 0
MemoryVisibility = String

abbrev valid_memory_types : List MemoryType
valid_memory_types = "rule" ∷ "fact" ∷ "episode" ∷ "procedure" ∷ "preference" ∷ []

abbrev valid_memory_scopes : List MemoryScope
valid_memory_scopes = "permanent" ∷ "project" ∷ "session" ∷ "ttl" ∷ []

abbrev valid_conflict_statuses : List ConflictStatus
valid_conflict_statuses = "active" ∷ "resolved" ∷ []

abbrev valid_entity_types : List String
valid_entity_types = "person" ∷ "project" ∷ "system" ∷ "decision" ∷ "concept" ∷ []

unfoldable pub is_valid_memory_type : MemoryType → Bool
is_valid_memory_type mt = any (λ v. str_eq mt v) valid_memory_types

unfoldable pub is_valid_memory_scope : MemoryScope → Bool
is_valid_memory_scope ms = any (λ v. str_eq ms v) valid_memory_scopes

unfoldable is_valid_conflict_status : ConflictStatus → Bool
is_valid_conflict_status cs = str_eq cs "" || any (λ v. str_eq v cs) valid_conflict_statuses

unfoldable pub is_valid_entity_type : String → Bool
is_valid_entity_type et = any (λ v. str_eq et v) valid_entity_types

pub record Memory (F : Type 0) : Type 0 where
  pub id : String
  pub type : MemoryType
  pub scope : MemoryScope
  pub visibility : MemoryVisibility
  pub content : String
  pub confidence : F
  pub source : String
  pub tags : List String
  pub project : String
  pub user_id : String
  pub ttl_seconds : ℤ
  pub created_at : ℕ
  pub updated_at : ℕ
  pub last_accessed : ℕ
  pub access_count : ℕ
  pub reinforced_at : ℕ
  pub reinforced_count : ℕ
  pub metadata : Map String
  pub supersedes_id : String
  pub valid_until : ℕ
  pub valid_from : ℕ
  pub valid_to : Option ℕ
  pub is_current_version : Bool
  pub conflict_group_id : String
  pub conflict_status : ConflictStatus
  pub has_embedding : Bool

-- The zero value of a memory, but for the confidence.
abbrev pub zero_memory : {F : Type 0} → F → Memory F
zero_memory confidence = record {
  id = "";
  type = "";
  scope = "";
  visibility = "";
  content = "";
  confidence = confidence;
  source = "";
  tags = [];
  project = "";
  user_id = "";
  ttl_seconds = pos 0;
  created_at = 0;
  updated_at = 0;
  last_accessed = 0;
  access_count = 0;
  reinforced_at = 0;
  reinforced_count = 0;
  metadata = [];
  supersedes_id = "";
  valid_until = 0;
  valid_from = 0;
  valid_to = none;
  is_current_version = false;
  conflict_group_id = "";
  conflict_status = "";
  has_embedding = false;
}

pub record SearchResult (F : Type 0) : Type 0 where
  pub memory : Memory F
  pub score : F
  pub original_similarity : Option F

pub record Entity (F : Type 0) : Type 0 where
  pub id : String
  pub name : String
  pub type : String
  pub aliases : List String
  pub memory_ids : List String
  pub created_at : ℕ
  pub updated_at : ℕ
  pub metadata : Map String
  pub project : String
  pub summary : String
  pub name_embedding : List F
  pub community_id : String

pub record Fact (F : Type 0) : Type 0 where
  pub id : String
  pub source_entity_id : String
  pub target_entity_id : String
  pub relation_type : String
  pub fact_text : String
  pub fact_embedding : List F
  pub created_at : ℕ
  pub expired_at : Option ℕ
  pub valid_at : Option ℕ
  pub invalid_at : Option ℕ
  pub source_memory_ids : List String
  pub episodes : List String
  pub confidence : F

pub record Episode : Type 0 where
  pub uuid : String
  pub session_id : String
  pub user_msg : String
  pub assistant_msg : String
  pub captured_at : ℕ
  pub memory_ids : List String
  pub fact_ids : List String

pub record MemoryPreview : Type 0 where
  pub id : String
  pub content : String
  pub access_count : ℕ

pub record CollectionStats : Type 0 where
  pub total_memories : ℕ
  pub by_type : Map ℕ
  pub by_scope : Map ℕ
  pub oldest_memory : Option ℕ
  pub newest_memory : Option ℕ
  pub top_accessed : List MemoryPreview
  pub reinforcement_tiers : Map ℕ
  pub active_conflicts : ℕ
  pub pending_ttl_expiry : ℕ
  pub storage_estimate : ℕ

-- The canonical relation types of fact.go.
abbrev valid_relationship_types : List String
valid_relationship_types =
    "WORKS_AT" ∷ "HAS_ROLE" ∷ "LOCATED_IN" ∷ "MARRIED_TO" ∷ "REPORTS_TO" ∷ "EMPLOYED_BY"
    ∷ "LIVES_IN" ∷ "BASED_IN" ∷ "CEO_OF" ∷ "LEADS" ∷ "USES" ∷ "DEPENDS_ON" ∷ "DECIDED_TO" ∷ "KNOWS"
    ∷ "HAS_SKILL" ∷ "PART_OF" ∷ "COLLABORATES_WITH" ∷ "IMPLEMENTS" ∷ "MANAGES" ∷ "RELATES_TO" ∷ []

unfoldable normalize_rel_type : Strings → String → String
normalize_rel_type st s =
    let upper = st.to_upper (st.trim_space s) in
    if any (λ t. str_eq t upper) valid_relationship_types then upper else "RELATES_TO"
