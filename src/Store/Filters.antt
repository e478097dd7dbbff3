-- ===== src/Store/Filters.antt =====
-- internal/store/mock_store.go `matchesFilters` and store.go `SearchFilters`.
pub mod Privacy
use openclaw_cortex.Base.{
  ℕ, String, Bool, true, false, not, ◌&&◌, ◌||◌, Option, none, some, List, [], ◌∷◌, any, all, ltb,
  leb, ◌==◌, if◌then◌else◌, str_eq,
}
use openclaw_cortex.Models.{Memory, MemoryType, MemoryScope, MemoryVisibility, ConflictStatus}

pub record SearchFilters : Type 0 where
  pub type : Option MemoryType
  pub scope : Option MemoryScope
  pub visibility : Option MemoryVisibility
  pub project : Option String
  pub tags : List String
  pub source : Option String
  pub conflict_status : Option ConflictStatus
  pub user_id : String
  pub include_invalidated : Bool
  pub as_of : Option ℕ
  pub valid_before : Option ℕ
  pub valid_after : Option ℕ

abbrev pub no_filters : SearchFilters
no_filters = record {
  type = none;
  scope = none;
  visibility = none;
  project = none;
  tags = [];
  source = none;
  conflict_status = none;
  user_id = "";
  include_invalidated = false;
  as_of = none;
  valid_before = none;
  valid_after = none;
}

-- `f.X != nil && mem.X != *f.X` is false
abbrev pub agrees : Option String → String → Bool
agrees none x = true
agrees (some v) x = str_eq x v

abbrev pub is_none : {A : Type 0} → Option A → Bool
is_none none = true
is_none (some _) = false

module _ {F : Type 0} where
  -- Sensitive memories are returned only when asked for.
  unfoldable pub hidden : Memory F → Option SearchFilters → Bool
  hidden mem none = str_eq mem.visibility "sensitive"
  hidden mem (some f) =
      str_eq mem.visibility "sensitive"
      && (elim f.visibility [ none ↦ true | some v ↦ not (str_eq v "sensitive") ])

  unfoldable pub valid_now : Memory F → SearchFilters → Bool
  valid_now mem f = elim f.as_of [
    | some t ↦
        not (not (mem.valid_from == 0) && ltb t mem.valid_from)
        && (elim mem.valid_to [ none ↦ true | some u ↦ ltb t u ])
    | none ↦ f.include_invalidated || is_none mem.valid_to
  ]

  unfoldable pub in_window : Memory F → SearchFilters → Bool
  in_window mem f =
      (elim f.valid_before [
        | none ↦ true
        | some t ↦ not (not (mem.valid_from == 0) && ltb t mem.valid_from)
      ])
      && (elim f.valid_after [
        | none ↦ true
        | some t ↦ not (mem.valid_from == 0 || ltb mem.valid_from t)
      ])

  unfoldable pub matches_filters : Memory F → Option SearchFilters → Bool
  matches_filters mem none = not (hidden mem none) && is_none mem.valid_to
  matches_filters mem (some f) =
      not (hidden mem (some f))
      && agrees f.type mem.type
      && agrees f.scope mem.scope
      && agrees f.visibility mem.visibility
      && agrees f.project mem.project
      && (str_eq f.user_id "" || str_eq mem.user_id f.user_id)
      && agrees f.source mem.source
      && all (λ required. any (λ t. str_eq t required) mem.tags) f.tags
      && agrees f.conflict_status mem.conflict_status
      && valid_now mem f
      && in_window mem f
