-- ===== src/Graph/EntityResolver.antt =====
-- internal/graph/entity_resolver.go: the three stages of entity resolution.
pub mod Laws
use openclaw_cortex.Base.{
  ℕ, zero, suc, String, Bool, true, false, not, ◌&&◌, ◌||◌, Option, none, some, List, [], ◌∷◌,
  if◌then◌else◌, ◌==◌, ltb, length, any, str_eq,
}
use openclaw_cortex.Base.Float.{Float}
use openclaw_cortex.Models.{Entity}
use openclaw_cortex.Store.Mock.{cosine_similarity}

-- A candidate of the graph's entity index (internal/graph/types.go).
pub record EntityResult (F : Type 0) : Type 0 where
  pub id : String
  pub name : String
  pub type : String
  pub score : F

-- The JSON that the language model answers with.
pub record ResolutionResponse : Type 0 where
  pub is_duplicate : Bool
  pub existing_id : String

-- Whether a stage matched, and what. `failed` is the third result of claudeFallback.
pub data Match : Type 0 where
  matched : String → Match
  unmatched : Match
  failed : Match

-- The calls of the resolver: the graph's methods (`none` is an error), strings.EqualFold, the
-- client's Complete and the parsing of its answer.
pub record Resolver (F : Type 0) : Type 0 where
  pub search_entities : String → List F → String → ℕ → Option (List (EntityResult F))
  pub get_entity : String → Option (Entity F)
  pub equal_fold : String → String → Bool
  pub client : Option (Entity F → List (EntityResult F) → String → Option String)
  pub unmarshal : String → Option ResolutionResponse
  pub threshold : F
  pub max_cands : ℕ

module _ (fl : Float) (r : Resolver (fl.Number)) where
  open fl use {Number, lt}

  abbrev named : Entity Number → EntityResult Number → Bool
  named extracted c = r.equal_fold c.name extracted.name

  -- The checks on a candidate's full entity, in the order of the source.
  unfoldable pub same_entity : Entity Number → List Number → Entity Number → Bool
  same_entity extracted embedding full =
      any (λ a. r.equal_fold a extracted.name) full.aliases
      || any (λ a. r.equal_fold a full.name) extracted.aliases
      || (ltb 0 (length embedding)
          && ltb 0 (length full.name_embedding)
          && lt r.threshold (cosine_similarity fl embedding full.name_embedding))

  unfoldable pub match_name : Entity Number → List (EntityResult Number) → Match
  match_name extracted [] = unmatched
  match_name extracted (c ∷ cs) =
      if named extracted c then matched c.id else match_name extracted cs

  -- A candidate that the graph fails to return is skipped.
  unfoldable pub match_full : Entity Number → List Number → List (EntityResult Number) → Match
  unfolding same_entity
  match_full extracted embedding [] = unmatched
  match_full extracted embedding (c ∷ cs) = elim (r.get_entity c.id) [
    | none ↦ match_full extracted embedding cs
    | some full ↦
        if same_entity extracted embedding full
        then matched c.id
        else match_full extracted embedding cs
  ]

  unfoldable pub deterministic_match :
      Entity Number → List Number → List (EntityResult Number) → Match
  unfolding match_name match_full
  deterministic_match extracted embedding cs = elim (match_name extracted cs) [
    | matched id ↦ matched id
    | _ ↦ match_full extracted embedding cs
  ]

  -- What the answer of the language model comes to.
  unfoldable pub read_response :
      Entity Number → List (EntityResult Number) → ResolutionResponse → Match
  read_response extracted cs result =
      if result.is_duplicate && not (str_eq result.existing_id "")
      then (if any (λ c. str_eq c.id result.existing_id) cs
          then matched result.existing_id
          else matched extracted.id)
      else unmatched

  unfoldable pub claude_fallback : Entity Number → List (EntityResult Number) → String → Match
  unfolding read_response
  claude_fallback extracted cs context = elim r.client [
    | none ↦ failed
    | some complete ↦ elim (complete extracted cs context) [
      | none ↦ failed
      | some text ↦ if str_eq text "" then failed else (elim (r.unmarshal text) [
        | none ↦ failed
        | some result ↦ read_response extracted cs result
      ])
    ]
  ]

  -- (resolvedID, isNew), or `none` where the search fails.
  unfoldable pub resolve : Entity Number → List Number → String → Option (String × Bool)
  unfolding deterministic_match claude_fallback
  resolve extracted embedding context =
      elim (r.search_entities extracted.name embedding extracted.project r.max_cands) [
        | none ↦ none
        | some [] ↦ some (extracted.id, true)
        | some cs ↦ elim (deterministic_match extracted embedding cs) [
          | matched id ↦ some (id, false)
          | _ ↦ elim (claude_fallback extracted cs context) [
            | matched id ↦ some (id, false)
            | _ ↦ some (extracted.id, true)
          ]
        ]
      ]
