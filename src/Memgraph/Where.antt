-- ===== src/Memgraph/Where.antt =====
-- internal/memgraph/store.go `buildWhereClause` and `memoryToParams`: the conditions of a query, and
-- what they mean for the node that Upsert writes.
pub mod Laws
use openclaw_cortex.Base.{
  ℕ, String, Bool, true, false, not, ◌&&◌, ◌||◌, Option, none, some, List, [], ◌∷◌, ◌++◌, map, any,
  all, ◌==◌, if◌then◌else◌, str_eq,
}
use openclaw_cortex.Models.{Memory}
use openclaw_cortex.Store.Filters.{SearchFilters, is_none}

-- The properties that the conditions name.
pub data Property : Type 0 where
  type_of : Property
  scope_of : Property
  visibility_of : Property
  project_of : Property
  source_of : Property
  user_id_of : Property
  conflict_status_of : Property
  valid_from_of : Property
  valid_to_of : Property

-- The conditions, by their Cypher text with `p` the property and `v` the parameter's value.
pub data Clause : Type 0 where
  -- p = v
  is : Property → String → Clause
  -- p <> v
  is_not : Property → String → Clause
  -- v IN tags
  has_tag : String → Clause
  -- (p IS NULL OR p <= v)
  null_or_at_most : Property → String → Clause
  -- (p IS NULL OR p > v)
  null_or_after : Property → String → Clause
  -- (p IS NULL OR p = "")
  null_or_empty : Property → Clause
  -- (p IS NULL OR p = "" OR p <= v)
  empty_or_at_most : Property → String → Clause
  -- (p IS NOT NULL AND p <> "" AND p >= v)
  set_and_at_least : Property → String → Clause

-- A node of the database; a property that is not set is null.
pub record Node : Type 0 where
  pub property : Property → Option String
  pub tags : List String

-- `seconds` and `nanos` are Format(time.RFC3339) and Format(time.RFC3339Nano) in UTC.
module _ (seconds nanos : ℕ → String) where
  abbrev pub equals : Property → Option String → List Clause
  equals p none = []
  equals p (some v) = is p v ∷ []

  abbrev pub requests_sensitive : SearchFilters → Bool
  requests_sensitive f = elim f.visibility [ none ↦ false | some v ↦ str_eq v "sensitive" ]

  unfoldable pub validity_clauses : SearchFilters → List Clause
  validity_clauses f = elim f.as_of [
    | some t ↦
        null_or_at_most valid_from_of (seconds t) ∷ null_or_after valid_to_of (seconds t) ∷ []
    | none ↦ if f.include_invalidated then [] else null_or_empty valid_to_of ∷ []
  ]

  unfoldable pub window_clauses : SearchFilters → List Clause
  window_clauses f =
      (elim f.valid_before [ none ↦ [] | some t ↦ empty_or_at_most valid_from_of (seconds t) ∷ [] ])
      ++ (elim f.valid_after [
        | none ↦ []
        | some t ↦ set_and_at_least valid_from_of (seconds t) ∷ []
      ])

  unfoldable pub property_clauses : SearchFilters → List Clause
  property_clauses f =
      (if requests_sensitive f then [] else is_not visibility_of "sensitive" ∷ [])
      ++ equals type_of f.type
      ++ equals scope_of f.scope
      ++ equals visibility_of f.visibility
      ++ equals project_of f.project
      ++ equals source_of f.source
      ++ (if str_eq f.user_id "" then [] else is user_id_of f.user_id ∷ [])
      ++ equals conflict_status_of f.conflict_status
      ++ map has_tag f.tags

  unfoldable pub build_where_clause : Option SearchFilters → List Clause
  unfolding property_clauses validity_clauses window_clauses
  build_where_clause none = is_not visibility_of "sensitive" ∷ []
  build_where_clause (some f) = property_clauses f ++ validity_clauses f ++ window_clauses f

  module _ {F : Type 0} where
    abbrev pub written : Memory F → Property → String
    written m type_of = m.type
    written m scope_of = m.scope
    written m visibility_of = m.visibility
    written m project_of = m.project
    written m source_of = m.source
    written m user_id_of = m.user_id
    written m conflict_status_of = m.conflict_status
    written m valid_from_of = if m.valid_from == 0 then nanos m.created_at else nanos m.valid_from
    written m valid_to_of = elim m.valid_to [ none ↦ "" | some t ↦ nanos t ]

    -- memoryToParams: the node that Upsert writes; no property is null.
    unfoldable pub memory_to_node : Memory F → Node
    memory_to_node m = record { property = λ p. some (written m p); tags = m.tags }

-- What a condition says of a node, with `before` the order of strings. A comparison with null is null,
-- and WHERE drops it.
module _ (before : String → String → Bool) where
  abbrev compared : (String → Bool) → Option String → Bool
  compared test none = false
  compared test (some x) = test x

  unfoldable pub holds : Node → Clause → Bool
  holds n (is p v) = compared (λ x. str_eq x v) (n.property p)
  holds n (is_not p v) = compared (λ x. not (str_eq x v)) (n.property p)
  holds n (has_tag v) = any (λ t. str_eq t v) n.tags
  holds n (null_or_at_most p v) =
      is_none (n.property p) || compared (λ x. not (before v x)) (n.property p)
  holds n (null_or_after p v) = is_none (n.property p) || compared (before v) (n.property p)
  holds n (null_or_empty p) = is_none (n.property p) || compared (λ x. str_eq x "") (n.property p)
  holds n (empty_or_at_most p v) =
      is_none (n.property p)
      || compared (λ x. str_eq x "") (n.property p)
      || compared (λ x. not (before v x)) (n.property p)
  holds n (set_and_at_least p v) =
      not (is_none (n.property p))
      && compared (λ x. not (str_eq x "")) (n.property p)
      && compared (λ x. not (before x v)) (n.property p)

  -- The conditions joined by AND.
  unfoldable pub selected : List Clause → Node → Bool
  unfolding holds
  selected clauses n = all (holds n) clauses
