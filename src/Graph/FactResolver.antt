-- ===== src/Graph/FactResolver.antt =====
-- internal/graph/fact_resolver.go: whether a new fact is inserted, skipped or invalidates others.
pub mod Laws
use openclaw_cortex.Base.{
  ℕ, zero, suc, String, Bool, true, false, not, ◌&&◌, ◌||◌, Option, none, some, List, [], ◌∷◌,
  if◌then◌else◌, ◌==◌, ltb, length, get_elem?, str_eq,
}
use openclaw_cortex.Base.Int.{ℤ, pos, negsuc}
use openclaw_cortex.Models.{Fact}

-- FactAction of internal/graph/types.go.
pub data FactAction : Type 0 where
  insert_fact : FactAction
  skip_fact : FactAction
  invalidate_fact : FactAction

pub record FactResolutionResponse : Type 0 where
  pub duplicate_indices : List ℤ
  pub contradicted_indices : List ℤ

-- The calls of the resolver: the graph's GetFactsBetween (`none` is an error), the client's
-- Complete on the candidates and the new fact, and the parsing of its answer.
pub record Resolver (F : Type 0) : Type 0 where
  pub get_facts_between : String → String → Option (List (Fact F))
  pub client : Option (List (Fact F) → Fact F → Option String)
  pub unmarshal : String → Option FactResolutionResponse

-- The action, the affected ids, and whether an error is returned beside them.
pub record Resolution : Type 0 where
  pub action : FactAction
  pub affected : List String
  pub is_error : Bool

abbrev pub inserted : Bool → Resolution
inserted is_error = record { action = insert_fact; affected = []; is_error = is_error }

module _ {F : Type 0} where
  -- `if idx < 1 || idx > len(candidates) { continue }`, then candidates[idx-1]
  unfoldable pub at_index : List (Fact F) → ℤ → Option (Fact F)
  at_index cs (negsuc n) = none
  at_index cs (pos zero) = none
  at_index cs (pos (suc n)) = get_elem? cs n

  unfoldable pub picked : List (Fact F) → List ℤ → List String
  unfolding at_index
  picked cs [] = []
  picked cs (i ∷ is') =
      let rest = picked cs is' in elim (at_index cs i) [ none ↦ rest | some f ↦ f.id ∷ rest ]

  unfoldable pub same_fact : Fact F → Fact F → Bool
  same_fact new c =
      str_eq c.fact_text new.fact_text
      && str_eq c.source_entity_id new.source_entity_id
      && str_eq c.target_entity_id new.target_entity_id

  unfoldable pub exact_match : Fact F → List (Fact F) → Option String
  unfolding same_fact
  exact_match new [] = none
  exact_match new (c ∷ cs) = if same_fact new c then some c.id else exact_match new cs

  -- Contradictions take priority over duplicates.
  unfoldable pub decide : List (Fact F) → FactResolutionResponse → Resolution
  unfolding picked
  decide cs result = elim (picked cs result.contradicted_indices) [
    | id ∷ ids ↦ record { action = invalidate_fact; affected = id ∷ ids; is_error = false }
    | [] ↦ elim (picked cs result.duplicate_indices) [
      | id ∷ ids ↦ record { action = skip_fact; affected = id ∷ ids; is_error = false }
      | [] ↦ inserted false
    ]
  ]

  unfoldable pub ask : Resolver F → Fact F → List (Fact F) → Resolution
  unfolding decide
  ask r new cs = elim r.client [
    | none ↦ inserted false
    | some complete ↦ elim (complete cs new) [
      | none ↦ inserted false
      | some text ↦
          if str_eq text ""
          then inserted false
          else (elim (r.unmarshal text) [ none ↦ inserted false | some result ↦ decide cs result ])
    ]
  ]

  unfoldable pub resolve : Resolver F → Fact F → Resolution
  unfolding exact_match ask
  resolve r new = elim (r.get_facts_between new.source_entity_id new.target_entity_id) [
    | none ↦ inserted true
    | some [] ↦ inserted false
    | some (c ∷ cs) ↦ elim (exact_match new (c ∷ cs)) [
      | some id ↦ record { action = skip_fact; affected = id ∷ []; is_error = false }
      | none ↦ ask r new (c ∷ cs)
    ]
  ]
