-- ===== src/Extract/Entities.antt =====
-- internal/capture/entity_extractor.go. `complete` is the language model's answer to the prompt about
-- a content, `unmarshal` the JSON parser behind the cutting of code fences, and `new_id` the uuid of
-- each entity.
use openclaw_cortex.Base.{ℕ, suc, String, Option, none, some, List, [], ◌∷◌, if◌then◌else◌, str_eq}
use openclaw_cortex.Models.{Entity, is_valid_entity_type}

pub record CapturedEntity : Type 0 where
  pub name : String
  pub type : String
  pub aliases : List String
  pub description : String

module _ {F : Type 0} (now : ℕ) (new_id : ℕ → String) where
  -- An unknown type becomes "concept".
  unfoldable entity_from : ℕ → CapturedEntity → Entity F
  entity_from i raw = record {
    id = new_id i;
    name = raw.name;
    type = if is_valid_entity_type raw.type then raw.type else "concept";
    aliases = raw.aliases;
    memory_ids = [];
    created_at = now;
    updated_at = now;
    metadata = [];
    project = "";
    summary = raw.description;
    name_embedding = [];
    community_id = "";
  }

  unfoldable entities_from : ℕ → List CapturedEntity → List (Entity F)
  unfolding entity_from
  entities_from i [] = []
  entities_from i (raw ∷ raws) = entity_from i raw ∷ entities_from (suc i) raws

  -- `none` is an error: a failed call and an empty answer are not.
  unfoldable pub extract :
      (String → Option String)
      → (String → Option (List CapturedEntity))
      → String
      → Option (List (Entity F))
  unfolding entities_from
  extract complete unmarshal content = elim (complete content) [
    | none ↦ some []
    | some text ↦
        if str_eq text ""
        then some []
        else (elim (unmarshal text) [ none ↦ none | some raws ↦ some (entities_from 0 raws) ])
  ]
