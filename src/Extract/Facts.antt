-- ===== src/Extract/Facts.antt =====
-- internal/graph/fact_extractor.go. `complete` is the language model's answer to the prompt about the
-- entity names and a content (without a client there is none), `unmarshal` the JSON parser behind
-- the cutting of code fences, `parse_time` time.Parse, and `new_id` the uuid of each fact.
use openclaw_cortex.Base.{
  ℕ, suc, String, Bool, true, not, ◌&&◌, Option, none, some, List, [], ◌∷◌, all, if◌then◌else◌,
  str_eq, ◌≡◌, refl, arith, Bool-cases, inl, inr,
}
use openclaw_cortex.Base.Float.{Float}
use openclaw_cortex.Base.Once.{member}
use openclaw_cortex.Models.{Fact}

pub record RawFact : Type 0 where
  pub source_entity_name : String
  pub target_entity_name : String
  pub relation_type : String
  pub fact : String
  pub valid_at : Option String
  pub invalid_at : Option String

-- Between two distinct, known entities.
abbrev acceptable : List String → RawFact → Bool
acceptable names raw =
    member raw.source_entity_name names
    && member raw.target_entity_name names
    && not (str_eq raw.source_entity_name raw.target_entity_name)

module _ (fl : Float) (parse_time : String → Option ℕ) (now : ℕ) (new_id : ℕ → String) where
  open fl use {Number, lit}

  abbrev pub parsed : Option String → Option ℕ
  parsed none = none
  parsed (some text) = parse_time text

  -- The endpoints are names, which the caller resolves.
  unfoldable fact_from : ℕ → RawFact → Fact Number
  fact_from i raw = record {
    id = new_id i;
    source_entity_id = raw.source_entity_name;
    target_entity_id = raw.target_entity_name;
    relation_type = raw.relation_type;
    fact_text = raw.fact;
    fact_embedding = [];
    created_at = now;
    expired_at = none;
    valid_at = parsed raw.valid_at;
    invalid_at = parsed raw.invalid_at;
    source_memory_ids = [];
    episodes = [];
    confidence = lit 8 1;
  }

  unfoldable facts_from : List String → ℕ → List RawFact → List (Fact Number)
  unfolding fact_from
  facts_from names i [] = []
  facts_from names i (raw ∷ raws) =
      let rest = facts_from names (suc i) raws in
      if acceptable names raw then fact_from i raw ∷ rest else rest

  -- `none` is an error: no names, no client, a failed call and an empty answer are not.
  unfoldable pub extract_facts :
      Option (List String → String → Option String)
      → (String → Option (List RawFact))
      → String
      → List String
      → Option (List (Fact Number))
  unfolding facts_from
  extract_facts client unmarshal content [] = some []
  extract_facts none unmarshal content (n ∷ ns) = some []
  extract_facts (some complete) unmarshal content (n ∷ ns) = elim (complete (n ∷ ns) content) [
    | none ↦ some []
    | some text ↦
        if str_eq text ""
        then some []
        else elim (unmarshal text) [ none ↦ none | some raws ↦ some (facts_from (n ∷ ns) 0 raws) ]
  ]

  -- The ends are two distinct names of the list.
  abbrev between_names : List String → Fact Number → Bool
  between_names names f =
      member f.source_entity_id names
      && member f.target_entity_id names
      && not (str_eq f.source_entity_id f.target_entity_id)

  facts_from-between :
      (names : List String) (i : ℕ) (raws : List RawFact)
      → all (between_names names) (facts_from names i raws) ≡ true
  unfolding facts_from fact_from
  facts_from-between names i [] = refl
  facts_from-between names i (raw ∷ raws) = elim (Bool-cases (acceptable names raw)) [
    | inl e ↦ rw e (rw (facts_from-between names (suc i) raws) (ground (arith, e)))
    | inr e ↦ rw e (facts_from-between names (suc i) raws)
  ]
