-- ===== src/Capture/Contradiction/Laws.antt =====
-- internal/capture/contradiction.go: which candidates are reported, and what becomes of them.
use openclaw_cortex.Base.{
  ℕ, String, Bool, true, false, ◌&&◌, Option, none, some, List, [], ◌∷◌, map, keep, any,
  if◌then◌else◌, ◌≡◌, refl, sym, ap, subst, ◌∙◌, arith, Bool-cases, Option-cases, inl, inr, Map,
  lookup, str_eq, eq_iff,
}
use openclaw_cortex.Base.Float.{Float}
use openclaw_cortex.Base.Strings.{Strings}
use openclaw_cortex.Models.{Memory}
use openclaw_cortex.Store.Mock.{Stored, MockStore, modify, invalidated, invalidate_memory}
use openclaw_cortex.Store.Mock.Laws.{lookup-modify, lookup-modify_same, modify_gone}
use openclaw_cortex.Capture.Contradiction.{
  Detector, ContradictionResult, at_least, suspicious, heuristic_filter, similarity, call_llm,
  judge, llm_confirm, retrieve_candidates, find_contradictions, invalidate_contradictions,
}
use openclaw_cortex.Capture.Contradiction.Filter.{Words}

module _ (fl : Float) (st : Strings) (words : Words) (d : Detector (fl.Number)) where
  open fl use {Number}

  -- The third stage's decision: alike enough, or nobody to ask, or the answer says so.
  abbrev pub confirmed : String → Map Number → Memory Number → Bool
  confirmed new_content scores m =
      if at_least fl st words d (similarity fl st words d scores m.id) d.cfg.llm_confirm_threshold
      then true
      else elim d.complete [
        | none ↦ true
        | some complete ↦ elim (call_llm fl st words d complete new_content m.content) [
          | none ↦ false
          | some v ↦ v.contradicts
        ]
      ]

  module _ (new_content : String) (scores : Map Number) where
    judge-confirmed :
        (m : Memory Number) (rest : List ContradictionResult)
        → map (λ r. r.candidate_id) (judge fl st words d new_content scores m rest) ≡ (
            let ids = map (λ r. r.candidate_id) rest in
            if confirmed new_content scores m then m.id ∷ ids else ids)
    unfolding judge
    judge-confirmed m rest = ground arith

    llm_confirm-confirmed :
        (ms : List (Memory Number))
        → map (λ r. r.candidate_id) (llm_confirm fl st words d new_content scores ms)
          ≡ map (λ m. m.id) (keep (confirmed new_content scores) ms)
    unfolding llm_confirm
    llm_confirm-confirmed [] = refl
    llm_confirm-confirmed (m ∷ ms) =
        judge-confirmed m (llm_confirm fl st words d new_content scores ms)
        ∙ (elim (Bool-cases (confirmed new_content scores m)) [
          | inl e ↦ rw e (ap (◌∷◌ m.id) (llm_confirm-confirmed ms))
          | inr e ↦ rw e (llm_confirm-confirmed ms)
        ])

  keep-keep :
      (p q : Memory Number → Bool) (ms : List (Memory Number))
      → keep p (keep q ms) ≡ keep (λ m. q m && p m) ms
  keep-keep p q [] = refl
  keep-keep p q (m ∷ ms) = ground (arith, keep-keep p q ms)

  -- An enabled detector reports, in order, the candidates of the first stage that are suspicious
  -- and confirmed, and nothing if the search fails.
  pub find_contradictions-filters :
      (new_content : String) (new_embedding : List Number)
      → d.cfg.enabled ≡ true
      → map (λ r. r.candidate_id) (find_contradictions fl st words d new_content new_embedding)
        ≡ (elim (retrieve_candidates fl st words d new_embedding) [
          | none ↦ []
          | some (candidates, scores) ↦
              map
                (λ m. m.id)
                (keep
                  (λ m. suspicious fl st words d new_content m && confirmed new_content scores m)
                  candidates)
        ])
  unfolding find_contradictions heuristic_filter
  find_contradictions-filters new_content new_embedding on =
      elim (Option-cases (retrieve_candidates fl st words d new_embedding)) [
        | inl e ↦ rw on (rw e refl)
        | inr ((candidates, scores), e) ↦ rw on (
            rw e (
              llm_confirm-confirmed new_content scores
                (keep (suspicious fl st words d new_content) candidates)
              ∙ ap (map (λ m. m.id)) (
                  keep-keep (confirmed new_content scores) (suspicious fl st words d new_content)
                    candidates)))
      ]

-- The effect of the invalidation on the stored memories.
module _ {F : Type 0} (now : ℕ) where
  abbrev pub ended : Option (Stored F) → Option (Stored F)
  ended none = none
  ended (some sm) = some (record sm { memory = invalidated now sm.memory })

  lookup-modified :
      (id : String) (s : MockStore F)
      → lookup id (modify id (invalidated now) s).0.memories ≡ ended (lookup id s.memories)
  lookup-modified id s = elim (Option-cases (lookup id s.memories)) [
    | inl gone ↦
        ap (λ t. lookup id t.0.memories) (modify_gone id (invalidated now) s gone)
        ∙ gone
        ∙ sym (ap ended gone)
    | inr (sm, here) ↦ lookup-modify_same id (invalidated now) s sm here ∙ sym (ap ended here)
  ]

  ended_twice : (o : Option (Stored F)) → ended (ended o) ≡ ended o
  ended_twice none = refl
  ended_twice (some sm) = refl

  lookup-invalidate :
      (id j : String) (s : MockStore F)
      → lookup j (invalidate_memory id now s).0.memories
        ≡ (if str_eq id j then ended (lookup j s.memories) else lookup j s.memories)
  unfolding invalidate_memory
  lookup-invalidate id j s = elim (Bool-cases (str_eq id j)) [
    | inr e ↦ rw e (lookup-modify id (invalidated now) s j e)
    | inl e ↦ rw e (
        subst
          (λ k. lookup k (modify id (invalidated now) s).0.memories ≡ ended (lookup k s.memories))
          ((eq_iff id j).0 e) (lookup-modified id s))
  ]

  -- InvalidateContradictions over the store in memory ends exactly the reported memories that are
  -- stored, at the time of the call, and leaves the others as they were.
  invalidate_contradictions-ends :
      (rs : List ContradictionResult) (s : MockStore F) (j : String)
      → lookup j (invalidate_contradictions now rs s).memories ≡ (
          if any (λ r. str_eq r.candidate_id j) rs
          then ended (lookup j s.memories)
          else lookup j s.memories)
  unfolding invalidate_contradictions
  invalidate_contradictions-ends [] s j = refl
  invalidate_contradictions-ends (r ∷ rs) s j =
      invalidate_contradictions-ends rs (invalidate_memory r.candidate_id now s).0 j
      ∙ rw (lookup-invalidate r.candidate_id j s)
          (ground (arith, ended_twice (lookup j s.memories)))
