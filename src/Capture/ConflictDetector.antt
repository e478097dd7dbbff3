-- ===== src/Capture/ConflictDetector.antt =====
-- internal/capture/conflict_detector.go: what is asked before a captured memory is stored.
use openclaw_cortex.Base.{
  String, Bool, true, false, not, ◌&&◌, Option, none, some, List, [], ◌∷◌, ◌≡◌, refl, sym, subst,
  ap, ◌∙◌, arith, any, if◌then◌else◌, Bool-cases, Option-cases, inl, inr, ◌<>◌, str_eq,
}
use openclaw_cortex.Base.Strings.{Strings}
use openclaw_cortex.Models.{Memory}

pub record ConflictResponse : Type 0 where
  pub contradicts : Bool
  pub contradicted_id : String
  pub reason : String

-- The model, the JSON parser, xmlutil.Escape and fmt.Sprintf with the template of the prompt. `none` is
-- an error.
pub record ConflictDetector : Type 0 where
  pub complete : String → String → Option String
  pub unmarshal : String → Option ConflictResponse
  pub escape : String → String
  pub fill : String → String → String

abbrev no_conflict : ConflictResponse
no_conflict = record { contradicts = false; contradicted_id = ""; reason = "" }

module _ {F : Type 0} (st : Strings) (d : ConflictDetector) where
  unfoldable pub listed : List (Memory F) → String
  listed [] = ""
  listed (m ∷ ms) = "[" <> d.escape m.id <> "] " <> d.escape m.content <> "\n" <> listed ms

  -- An id that is not a candidate's is ignored.
  unfoldable validated : ConflictResponse → List (Memory F) → ConflictResponse
  validated r candidates =
      if r.contradicts
        && not (str_eq r.contradicted_id "")
        && not (any (λ m. str_eq m.id r.contradicted_id) candidates)
      then no_conflict
      else r

  unfoldable pub detect : String → List (Memory F) → ConflictResponse
  unfolding listed validated
  detect new_content [] = no_conflict
  detect new_content (c ∷ cs) =
      elim (d.complete "You are a precise contradiction detection system. Output only valid JSON."
        (d.fill (d.escape new_content) (listed (c ∷ cs)))) [
          | none ↦ no_conflict
          | some text ↦
              if str_eq (st.trim_space text) ""
              then no_conflict
              else (elim (d.unmarshal (st.trim_space text)) [
                | none ↦ no_conflict
                | some r ↦ validated r (c ∷ cs)
              ])
        ]

  -- What the post-turn hook takes of it.
  unfoldable pub contradicted : String → List (Memory F) → Option String
  unfolding detect
  contradicted new_content candidates =
      let r = detect new_content candidates in
      if r.contradicts && not (str_eq r.contradicted_id "") then some r.contradicted_id else none

  -- The contradicted id is a candidate's, and is not empty.
  abbrev pub Named : List (Memory F) → ConflictResponse → Type 0
  Named candidates r =
      (r.contradicts && not (str_eq r.contradicted_id "")) ≡ true
      → any (λ m. str_eq m.id r.contradicted_id) candidates ≡ true

  no_conflict-Named : (candidates : List (Memory F)) → Named candidates no_conflict
  no_conflict-Named candidates h = cc

  validated-Named :
      (r : ConflictResponse) (candidates : List (Memory F))
      → Named candidates (validated r candidates)
  unfolding validated
  validated-Named r candidates =
      elim (Bool-cases (
        r.contradicts
        && not (str_eq r.contradicted_id "")
        && not (any (λ m. str_eq m.id r.contradicted_id) candidates))) [
          | inl e ↦ rw (e, validated) (no_conflict-Named candidates)
          | inr e ↦ rw (e, validated) (λ h. ground (arith, e, h))
        ]

  -- Whatever the model answers, a contradicted id is a candidate's.
  detect-Named :
      (new_content : String) (candidates : List (Memory F))
      → Named candidates (detect new_content candidates)
  unfolding detect
  detect-Named new_content [] = no_conflict-Named []
  detect-Named new_content (c ∷ cs) =
      let prompt = d.fill (d.escape new_content) (listed (c ∷ cs)) in
      let answer =
        d.complete "You are a precise contradiction detection system. Output only valid JSON."
          prompt in
      let is_named : (r : ConflictResponse)
          → detect new_content (c ∷ cs) ≡ r
          → Named (c ∷ cs) r
          → Named (c ∷ cs) (detect new_content (c ∷ cs)) =
        λ r e. subst (Named (c ∷ cs)) (sym e) in
      let ignored : detect new_content (c ∷ cs) ≡ no_conflict
          → Named (c ∷ cs) (detect new_content (c ∷ cs)) =
        λ e. is_named no_conflict e (no_conflict-Named (c ∷ cs)) in
      elim (Option-cases answer) [
        | inl e ↦ ignored (rw (e, detect) refl)
        | inr (text, e) ↦ elim (Bool-cases (str_eq (st.trim_space text) "")) [
          | inl blank ↦ ignored (rw (e, detect) (rw (blank, detect) refl))
          | inr full ↦ elim (Option-cases (d.unmarshal (st.trim_space text))) [
            | inl bad ↦ ignored (rw (e, detect) (rw (full, detect) (rw (bad, detect) refl)))
            | inr (r, good) ↦
                is_named (validated r (c ∷ cs))
                  (rw (e, detect) (rw (full, detect) (rw (good, detect) refl)))
                  (validated-Named r (c ∷ cs))
          ]
        ]
      ]

  -- An id that the post-turn hook takes is a candidate's.
  pub contradicted-candidate :
      (new_content id : String) (candidates : List (Memory F))
      → contradicted new_content candidates ≡ some id
      → any (λ m. str_eq m.id id) candidates ≡ true
  unfolding contradicted
  contradicted-candidate new_content id candidates h =
      let r = detect new_content candidates in
      elim (Bool-cases (r.contradicts && not (str_eq r.contradicted_id ""))) [
        | inl e ↦
            (let taken : contradicted new_content candidates ≡ some r.contradicted_id =
                rw (e, contradicted) refl in
              let same : r.contradicted_id ≡ id =
                ap (λ o. elim o [ none ↦ "" | some i ↦ i ]) (sym taken ∙ h) in
              subst (λ i. any (λ m. str_eq m.id i) candidates ≡ true) same
                (detect-Named new_content candidates e))
        | inr e ↦ cc
      ]
