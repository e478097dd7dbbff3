-- ===== src/Graph/FactResolver/Laws.antt =====
-- internal/graph/fact_resolver.go: which facts a resolution can touch.
use openclaw_cortex.Base.{
  ℕ, zero, suc, ◌<◌, String, Bool, true, false, Option, none, some, List, [], ◌∷◌, ◌≡◌, ◌⊎◌, subst,
  refl, sym, ap, ◌∙◌, inl, inr, arith, length, any, all, get_elem?, Option-cases, Bool-cases,
  str_eq, eq_iff,
}
use openclaw_cortex.Base.Int.{ℤ, pos, negsuc}
use openclaw_cortex.Models.{Fact}
use openclaw_cortex.Graph.FactResolver.{
  insert_fact, skip_fact, invalidate_fact, FactResolutionResponse, Resolver, Resolution, inserted,
  at_index, picked, exact_match, same_fact, decide, ask, resolve,
}

List-cases : (xs : List String) → (xs ≡ []) ⊎ ((x : String) × (ys : List String) × (xs ≡ x ∷ ys))
List-cases [] = inl refl
List-cases (x ∷ xs) = inr (x, xs, refl)

module _ {F : Type 0} where
  abbrev pub is_candidate : List (Fact F) → String → Bool
  is_candidate cs id = any (λ c. str_eq c.id id) cs

  abbrev id_of : Option (Fact F) → String
  id_of none = ""
  id_of (some f) = f.id

  get_elem?-candidate :
      (cs : List (Fact F)) (n : ℕ) (f : Fact F)
      → get_elem? cs n ≡ some f
      → is_candidate cs f.id ≡ true
  get_elem?-candidate [] n f e = cc
  get_elem?-candidate (c ∷ cs) zero f e = ground (arith, e, eq_iff f.id f.id, ap id_of e)
  get_elem?-candidate (c ∷ cs) (suc n) f e = ground (arith, get_elem?-candidate cs n f e)

  at_index-candidate :
      (cs : List (Fact F)) (i : ℤ) (f : Fact F)
      → at_index cs i ≡ some f
      → is_candidate cs f.id ≡ true
  unfolding at_index
  at_index-candidate cs (negsuc n) f e = cc
  at_index-candidate cs (pos zero) f e = cc
  at_index-candidate cs (pos (suc n)) f e = get_elem?-candidate cs n f e

  picked-candidates :
      (cs : List (Fact F)) (is' : List ℤ) → all (is_candidate cs) (picked cs is') ≡ true
  unfolding picked
  picked-candidates cs [] = refl
  picked-candidates cs (i ∷ is') = elim (Option-cases (at_index cs i)) [
    | inl e ↦ rw (e, picked) (picked-candidates cs is')
    | inr (f, e) ↦ rw (e, picked) (rw (at_index-candidate cs i f e) (picked-candidates cs is'))
  ]

  exact_match-candidate :
      (new : Fact F) (cs : List (Fact F)) (id : String)
      → exact_match new cs ≡ some id
      → is_candidate cs id ≡ true
  unfolding exact_match
  exact_match-candidate new [] id e = cc
  exact_match-candidate new (c ∷ cs) id e = elim (Bool-cases (same_fact new c)) [
    | inl h ↦ ground (arith, e, h, eq_iff c.id id)
    | inr h ↦ ground (arith, e, h, exact_match-candidate new cs id)
  ]

  -- An insertion touches no fact; a skip or an invalidation touches at least one, and candidates
  -- only.
  abbrev pub Sound : List (Fact F) → Resolution → Type 0
  Sound cs d = (all (is_candidate cs) d.affected ≡ true) × (elim d.action [
    | insert_fact ↦ d.affected ≡ []
    | skip_fact ↦ 0 < length d.affected
    | invalidate_fact ↦ 0 < length d.affected
  ])

  inserted-Sound : (cs : List (Fact F)) (b : Bool) → Sound cs (inserted b)
  inserted-Sound cs b = (refl, refl)

  -- A result that is computed to a sound one is sound.
  along : (cs : List (Fact F)) (d d' : Resolution) → d ≡ d' → Sound cs d' → Sound cs d
  along cs d d' e h = subst (Sound cs) (sym e) h

  decide-Sound :
      (cs : List (Fact F)) (result : FactResolutionResponse) → Sound cs (decide cs result)
  unfolding decide
  decide-Sound cs result = elim (List-cases (picked cs result.contradicted_indices)) [
    | inr (x, ys, e) ↦
        along cs (decide cs result)
          (record { action = invalidate_fact; affected = x ∷ ys; is_error = false })
          (rw (e, decide) refl)
          (
            ap (all (is_candidate cs)) (sym e) ∙ picked-candidates cs result.contradicted_indices,
            omega arith,
          )
    | inl e ↦ elim (List-cases (picked cs result.duplicate_indices)) [
      | inr (x, ys, k) ↦
          along cs (decide cs result)
            (record { action = skip_fact; affected = x ∷ ys; is_error = false })
            (rw (e, decide) (rw k refl))
            (
              ap (all (is_candidate cs)) (sym k) ∙ picked-candidates cs result.duplicate_indices,
              omega arith,
            )
      | inl k ↦
          along cs (decide cs result) (inserted false) (rw (e, decide) (rw k refl))
            (inserted-Sound cs false)
    ]
  ]

  ask-Sound : (r : Resolver F) (new : Fact F) (cs : List (Fact F)) → Sound cs (ask r new cs)
  unfolding ask
  ask-Sound r new cs =
      let plain : ask r new cs ≡ inserted false → Sound cs (ask r new cs) =
        λ e. along cs (ask r new cs) (inserted false) e (inserted-Sound cs false) in
      elim (Option-cases r.client) [
        | inl e ↦ plain (rw (e, ask) refl)
        | inr (complete, e) ↦ elim (Option-cases (complete cs new)) [
          | inl k ↦ plain (rw (e, ask) (rw k refl))
          | inr (text, k) ↦ elim (Bool-cases (str_eq text "")) [
            | inl h ↦ plain (rw (e, ask) (rw k (rw h refl)))
            | inr h ↦ elim (Option-cases (r.unmarshal text)) [
              | inl u ↦ plain (rw (e, ask) (rw k (rw h (rw u refl))))
              | inr (result, u) ↦
                  along cs (ask r new cs) (decide cs result) (rw (e, ask) (rw k (rw h (rw u refl))))
                    (decide-Sound cs result)
            ]
          ]
        ]
      ]

  -- Whatever the language model answers, an insertion touches no fact, and a skip or an
  -- invalidation touches at least one and only facts between the same entities.
  pub resolve_fact-Sound :
      (r : Resolver F) (new : Fact F) (cs : List (Fact F))
      → r.get_facts_between new.source_entity_id new.target_entity_id ≡ some cs
      → Sound cs (resolve r new)
  unfolding resolve
  resolve_fact-Sound r new [] e =
      along [] (resolve r new) (inserted false) (rw (e, resolve) refl) (inserted-Sound [] false)
  resolve_fact-Sound r new (c ∷ cs) e = elim (Option-cases (exact_match new (c ∷ cs))) [
    | inl k ↦
        along (c ∷ cs) (resolve r new) (ask r new (c ∷ cs)) (rw (e, resolve) (rw k refl))
          (ask-Sound r new (c ∷ cs))
    | inr (id, k) ↦
        along (c ∷ cs) (resolve r new)
          (record { action = skip_fact; affected = id ∷ []; is_error = false })
          (rw (e, resolve) (rw k refl))
          (ground (arith, exact_match-candidate new (c ∷ cs) id k), omega arith)
  ]
