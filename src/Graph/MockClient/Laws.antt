-- ===== src/Graph/MockClient/Laws.antt =====
-- internal/graph/mock_client.go: what the writing methods leave for the reading ones.
use openclaw_cortex.Base.{
  ℕ, String, Bool, false, ◌&&◌, none, some, List, [], ◌∷◌, map, ◌≡◌, refl, sym, ap, ◌∙◌, arith,
  if◌then◌else◌, Bool-cases, inl, inr, keep, take, ◌==◌, Map, lookup, insert, erase, values,
  Distinct, str_eq, eq_iff,
}
use openclaw_cortex.Base.Float.{Float}
use openclaw_cortex.Base.Strings.{Strings}
use openclaw_cortex.Models.{Fact}
use openclaw_cortex.Store.Filters.{is_none}
use openclaw_cortex.Store.Mock.{ok, not_found}
use openclaw_cortex.Graph.MockClient.{
  MockClient, FactResult, closer, fact_result, mentions, modify_fact, expired, invalidate_fact,
  in_force, get_facts_between, get_facts_for_entity, add_sources, recall_by_graph, search_facts,
}

erase_absent : {V : Type 0} (id : String) (m : Map V) → lookup id m ≡ none → erase id m ≡ m
unfolding lookup erase
erase_absent id [] h = refl
erase_absent id ((k, v) ∷ m) h = elim (Bool-cases (str_eq k id)) [
  | inl e ↦ ground (arith, e, h)
  | inr e ↦ rw e (ap (λ l. (k, v) ∷ l) (erase_absent id m (ground (arith, e, h))))
]

-- A new value that a test rejects is as good as no value.
keep-insert :
    {V : Type 0} (test : V → Bool) (id : String) (old new : V) (m : Map V)
    → Distinct m
    → lookup id m ≡ some old
    → test new ≡ false
    → keep test (values (insert id new m)) ≡ keep test (values (erase id m))
unfolding lookup insert erase values
keep-insert test id old new [] d h n = cc
keep-insert test id old new ((k, v) ∷ m) d h n = elim (Bool-cases (str_eq k id)) [
  | inl e ↦
      (let gone = erase_absent id m (ap (λ j. lookup j m) (sym ((eq_iff k id).0 e)) ∙ d.0) in
        rw (e, n, gone) refl)
  | inr e ↦
      (let rest = keep-insert test id old new m d.1 (ground (arith, e, h)) n in rw (e, rest) refl)
]

module _ {F : Type 0} (id : String) (change : Fact F → Fact F) (g : MockClient F) where
  pub modify_fact_here :
      (f : Fact F)
      → lookup id g.facts ≡ some f
      → modify_fact id change g ≡ (record g { facts = insert id (change f) g.facts }, ok tt)
  unfolding modify_fact
  modify_fact_here f here = ground (arith, here)

  pub modify_fact_gone : lookup id g.facts ≡ none → modify_fact id change g ≡ (g, not_found)
  unfolding modify_fact
  modify_fact_gone gone = ground (arith, gone)

module _ {F : Type 0} (id : String) (expired_at invalid_at : ℕ) (g : MockClient F) (f : Fact F)
    (keyed : Distinct g.facts) (here : lookup id g.facts ≡ some f) where
  abbrev pub invalidated : MockClient F
  invalidated = record g { facts = insert id (expired expired_at invalid_at f) g.facts }

  abbrev erased : MockClient F
  erased = record g { facts = erase id g.facts }

  invalidate_here : invalidate_fact id expired_at invalid_at g ≡ (invalidated, ok tt)
  unfolding invalidate_fact
  invalidate_here = modify_fact_here id (expired expired_at invalid_at) g f here

  in_force-invalidated : (test : Fact F → Bool) → in_force test invalidated ≡ in_force test erased
  in_force-invalidated test =
      keep-insert (λ k. is_none k.expired_at && test k) id f (expired expired_at invalid_at f)
        g.facts keyed here refl

module _ (fl : Float) (st : Strings) (id : String) (expired_at invalid_at : ℕ)
    (g : MockClient (fl.Number)) (f : Fact (fl.Number)) where
  open fl use {Number}

  -- After InvalidateFact of a stored fact GetFactsBetween, GetFactsForEntity, RecallByGraph and
  -- SearchFacts answer as if the fact were deleted, where the facts stand once under their ids.
  pub invalidate_fact-erases :
      (sort : (FactResult Number → FactResult Number → Bool)
        → List (FactResult Number)
        → List (FactResult Number))
      (source target entity query : String) (embedding : List Number) (limit : ℕ)
      → Distinct g.facts
      → lookup id g.facts ≡ some f
      → let after = (invalidate_fact id expired_at invalid_at g).0 in
        let without = record g { facts = erase id g.facts } in
        (get_facts_between source target after ≡ get_facts_between source target without)
        × (get_facts_for_entity entity after ≡ get_facts_for_entity entity without)
        × (recall_by_graph after ≡ recall_by_graph without)
        × (search_facts fl st sort query embedding limit after
            ≡ search_facts fl st sort query embedding limit without)
  unfolding get_facts_between get_facts_for_entity recall_by_graph search_facts
  invalidate_fact-erases sort source target entity query embedding limit keyed here =
      let same = in_force-invalidated id expired_at invalid_at g f keyed here in
      rw (invalidate_here id expired_at invalid_at g f keyed here) (
        same _,
        same _,
        ap (add_sources []) (same _),
        ap
            (λ fs.
              if limit == 0
              then none
              else some (take limit (sort (closer fl) (map (fact_result fl embedding) fs))))
            (same (mentions fl st query embedding)),
      )
