-- ===== src/Capture/Contradiction/Expired.antt =====
-- internal/capture/contradiction.go with internal/graph/mock_client.go: facts that were invalidated.
use openclaw_cortex.Base.{
  ℕ, String, Bool, none, some, [], ◌∷◌, keep, any, if◌then◌else◌, ◌≡◌, refl, sym, ap, ◌∙◌, arith,
  Bool-cases, inl, inr, Map, lookup, insert, values, str_eq,
}
use openclaw_cortex.Base.Float.{Float}
use openclaw_cortex.Base.Strings.{Strings}
use openclaw_cortex.Base.Once.{member}
use openclaw_cortex.Models.{Memory, Fact}
use openclaw_cortex.Graph.MockClient.{
  MockClient, expired, invalidate_fact, get_memory_facts, get_facts_for_entity,
}
use openclaw_cortex.Graph.MockClient.Laws.{modify_fact_here}
use openclaw_cortex.Capture.Contradiction.{Detector, FactSource, suspicious}
use openclaw_cortex.Capture.Contradiction.Filter.{
  Words, exclusive_conflict, fact_conflicts, content_suggests_conflict,
}

module _ {F : Type 0} where
  some_injective : (a b : Fact F) → some a ≡ some b → a ≡ b
  some_injective a b e = ap (λ o. elim o [ none ↦ a | some x ↦ x ]) e

  any-insert :
      (test : Fact F → Bool) (p : Fact F → Bool) (id : String) (old new : Fact F) (m : Map (Fact F))
      → lookup id m ≡ some old
      → test new ≡ test old
      → p new ≡ p old
      → any test (keep p (values (insert id new m))) ≡ any test (keep p (values m))
  unfolding lookup insert values
  any-insert test p id old new [] h t k = cc
  any-insert test p id old new ((key, v) ∷ m) h t k = elim (Bool-cases (str_eq key id)) [
    | inl e ↦
        (let same : v ≡ old =
            some_injective v old (sym (ap (λ b. if b then some v else lookup id m) e) ∙ h) in
          rw e (ground (arith, same, t, k)))
    | inr e ↦ rw e (ground (arith, any-insert test p id old new m (ground (arith, e, h)) t k))
  ]

-- The graph in memory, as the detector reads it.
abbrev in_memory_facts : {F : Type 0} → MockClient F → FactSource F
in_memory_facts g = record {
  get_memory_facts = λ id. some (get_memory_facts id g);
  get_facts_for_entity = λ id. some (get_facts_for_entity id g);
}

module _ (fl : Float) (st : Strings) (words : Words) (d : Detector (fl.Number)) where
  open fl use {Number}

  abbrev pub over : MockClient Number → Detector Number
  over g = record d { graph_client = some (in_memory_facts g) }

  -- Whether the second stage finds a candidate suspicious over the graph in memory does not change
  -- when a stored fact is invalidated.
  suspicious-invalidate_fact :
      (new_content : String) (m : Memory Number) (id : String) (expired_at invalid_at : ℕ)
      (g : MockClient Number) (f : Fact Number)
      → lookup id g.facts ≡ some f
      → suspicious fl st words (over (invalidate_fact id expired_at invalid_at g).0) new_content m
        ≡ suspicious fl st words (over g) new_content m
  unfolding suspicious exclusive_conflict get_memory_facts fact_conflicts content_suggests_conflict
      invalidate_fact
  suspicious-invalidate_fact new_content m id expired_at invalid_at g f here =
      rw (modify_fact_here id (expired expired_at invalid_at) g f here) (
        any-insert (fact_conflicts st words (st.to_lower new_content))
          (λ k. member m.id k.source_memory_ids) id f (expired expired_at invalid_at f) g.facts here
          refl refl)
