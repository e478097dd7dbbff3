-- ===== src/Capture/Contradiction/Found.antt =====
-- internal/capture/contradiction.go, the second and third stage: when a candidate is suspicious and
-- when it is confirmed, said without the loops.
use mathlib.Core.List.{Memᴰ}
use openclaw_cortex.Base.{
  ℕ, ◌*◌, ◌+◌, ◌/◌, ◌<◌, ltb, String, Bool, true, false, ◌&&◌, Option, none, some, List, [], ◌∷◌,
  keep, any, length, ◌≡◌, ◌≢◌, ◌⊎◌, refl, sym, ap, ◌∙◌, arith, Bool-cases, Option-cases, inl, inr,
  Map, str_eq, eq_iff,
}
use openclaw_cortex.Base.Float.{Float}
use openclaw_cortex.Base.Strings.{Strings}
use openclaw_cortex.Models.{Memory, Fact}
use openclaw_cortex.Capture.Contradiction.{
  Detector, FactSource, at_least, suspicious, similarity, call_llm,
}
use openclaw_cortex.Capture.Contradiction.Laws.{confirmed}
use openclaw_cortex.Capture.Contradiction.Filter.{
  Words, exclusive_pairs, exclusive_predicate_signals, significant_words, has_signal,
  content_suggests_conflict, fact_conflicts, exclusive_conflict, keyword_conflict, is_one_of,
}

-- Some element of a list passes a test.
abbrev pub Some : {A : Type 0} → (A → Bool) → List A → Type 0
Some {A} p l = (x : A) × Memᴰ x l × (p x ≡ true)

any-Some : {A : Type 0} (p : A → Bool) (l : List A) → any p l ≡ true → Some p l
any-Some p [] h = cc h
any-Some p (x ∷ l) h = elim (Bool-cases (p x)) [
  | inl y ↦ (x, Memᴰ.head refl, y)
  | inr n ↦ let (z, m, q) = any-Some p l (ground (arith, h, n)) in (z, Memᴰ.tail m, q)
]

Some-any : {A : Type 0} (p : A → Bool) (l : List A) → Some p l → any p l ≡ true
Some-any p [] (x, m, q) = elim m [ ]
Some-any p (y ∷ l) (x, Memᴰ.head e, q) = rw (sym (ap p e) ∙ q) refl
Some-any p (y ∷ l) (x, Memᴰ.tail m, q) = ground (arith, Some-any p l (x, m, q))

pub and_both : (a b : Bool) → (a && b) ≡ true → (a ≡ true) × (b ≡ true)
and_both true b h = (refl, h)
and_both false b h = cc h

less_than_half : (a n : ℕ) → ltb a ((n + 1) / 2) ≡ true → 2 * a < n
less_than_half a n h = ground (arith, h)

module _ (fl : Float) (st : Strings) (words : Words) (d : Detector (fl.Number)) where
  open fl use {Number, lt, eq}

  -- A text has one of the signals of a relation.
  abbrev pub Signalled : String → String → Type 0
  Signalled text rel = Some (λ sig. st.contains text sig) (exclusive_predicate_signals rel)

  -- The fact is of an exclusive relation that the text signals, and the text has fewer than half of
  -- the significant words of the fact.
  abbrev pub Contradicted : String → Fact Number → Type 0
  Contradicted text f =
      let ws = significant_words st words f.fact_text in
      Some (λ rel. str_eq rel (st.to_upper f.relation_type)) exclusive_pairs
      × Signalled text (st.to_upper f.relation_type)
      × (2 * length (keep (λ w. st.contains text w) ws) < length ws)

  -- With a graph, the new content contradicts a fact of the memory. Without one, both contents
  -- signal the same exclusive relation.
  abbrev pub Warned : String → Memory Number → Type 0
  Warned new_content m =
      ((rel : String) × (d.graph_client ≡ none)
        × Memᴰ rel exclusive_pairs
        × Signalled (st.to_lower new_content) rel
        × Signalled (st.to_lower m.content) rel)
      ⊎ ((g : FactSource Number) × (facts : List (Fact Number)) × (f : Fact Number)
          × (d.graph_client ≡ some g)
          × (g.get_memory_facts m.id ≡ some facts)
          × Memᴰ f facts
          × Contradicted (st.to_lower new_content) f)

  -- The score reaches the threshold of the third stage, or there is no language model, or its
  -- answer parses and says so.
  abbrev pub Confirmed : String → Memory Number → Number → Type 0
  Confirmed new_content m x =
      ((lt d.cfg.llm_confirm_threshold x ≡ true) ⊎ (eq x d.cfg.llm_confirm_threshold ≡ true))
      ⊎ ((d.complete ≡ none)
          ⊎ ((ask : String → String → Option String) × (raw : String) × (text : String)
              × (reason : String) × (d.complete ≡ some ask)
              × (ask new_content m.content ≡ some raw)
              × (st.trim_space (d.unfenced raw) ≡ text)
              × (text ≢ "")
              × (d.unmarshal text ≡ some (record { contradicts = true; reason = reason }))))

  signalled : (text rel : String) → has_signal st words text rel ≡ true → Signalled text rel
  unfolding has_signal
  signalled text rel h = any-Some (λ sig. st.contains text sig) (exclusive_predicate_signals rel) h

  signal : (text rel : String) → Signalled text rel → has_signal st words text rel ≡ true
  unfolding has_signal
  signal text rel h = Some-any (λ sig. st.contains text sig) (exclusive_predicate_signals rel) h

  suggested :
      (text rel : String) (f : Fact Number)
      → content_suggests_conflict st words text rel f ≡ true
      → let ws = significant_words st words f.fact_text in
        Signalled text rel × (2 * length (keep (λ w. st.contains text w) ws) < length ws)
  unfolding content_suggests_conflict
  suggested text rel f h =
      let ws = significant_words st words f.fact_text in
      let n = length (keep (λ w. st.contains text w) ws) in
      let (start, few) =
        and_both (has_signal st words text rel && ltb 0 (length ws)) (ltb n ((length ws + 1) / 2))
          h in
      let (sig, _) = and_both (has_signal st words text rel) (ltb 0 (length ws)) start in
      (signalled text rel sig, less_than_half n (length ws) few)

  suggests :
      (text rel : String) (f : Fact Number)
      → Signalled text rel
      → 2 * length (keep (λ w. st.contains text w) (significant_words st words f.fact_text))
        < length (significant_words st words f.fact_text)
      → content_suggests_conflict st words text rel f ≡ true
  unfolding content_suggests_conflict
  suggests text rel f sig few = rw (signal text rel sig) (ground (arith, few))

  contradicted :
      (text : String) (f : Fact Number)
      → fact_conflicts st words text f ≡ true
      → Contradicted text f
  unfolding fact_conflicts
  contradicted text f h =
      let rel = st.to_upper f.relation_type in
      let (one, rest) =
        and_both (is_one_of exclusive_pairs rel) (content_suggests_conflict st words text rel f)
          h in
      let (sig, few) = suggested text rel f rest in
      (any-Some (λ r. str_eq r rel) exclusive_pairs one, sig, few)

  contradicts_fact :
      (text : String) (f : Fact Number)
      → Contradicted text f
      → fact_conflicts st words text f ≡ true
  unfolding fact_conflicts
  contradicts_fact text f (one, sig, few) =
      let rel = st.to_upper f.relation_type in
      rw (Some-any (λ r. str_eq r rel) exclusive_pairs one) (suggests text rel f sig few)

  pub suspicious-Warned :
      (new_content : String) (m : Memory Number)
      → suspicious fl st words d new_content m ≡ true
      → Warned new_content m
  unfolding suspicious exclusive_conflict keyword_conflict
  suspicious-Warned new_content m h = elim (Option-cases d.graph_client) [
    | inl n ↦
        let (rel, at, both) =
          any-Some
            (λ rel.
              has_signal st words (st.to_lower new_content) rel
              && has_signal st words (st.to_lower m.content) rel)
            exclusive_pairs (ground (arith, h, n)) in
        let (new, old) = and_both _ _ both in
        inl (
          rel,
          n,
          at,
          signalled (st.to_lower new_content) rel new,
          signalled (st.to_lower m.content) rel old,
        )
    | inr (g, n) ↦ elim (Option-cases (g.get_memory_facts m.id)) [
      | inl k ↦ absurd (ground (arith, h, n, k))
      | inr (facts, k) ↦
          let (f, at, hit) =
            any-Some (fact_conflicts st words (st.to_lower new_content)) facts
              (ground (arith, h, n, k)) in
          inr (g, facts, f, n, k, at, contradicted (st.to_lower new_content) f hit)
    ]
  ]

  pub Warned-suspicious :
      (new_content : String) (m : Memory Number)
      → Warned new_content m
      → suspicious fl st words d new_content m ≡ true
  unfolding suspicious exclusive_conflict keyword_conflict
  Warned-suspicious new_content m (inl (rel, n, at, new, old)) =
      rw (n, suspicious)
        (Some-any
          (λ rel.
            has_signal st words (st.to_lower new_content) rel
            && has_signal st words (st.to_lower m.content) rel)
          exclusive_pairs
          (
            rel,
            at,
            rw (signal (st.to_lower new_content) rel new) (signal (st.to_lower m.content) rel old),
          ))
  Warned-suspicious new_content m (inr (g, facts, f, n, k, at, hit)) =
      rw (n, suspicious)
        (rw k (
          Some-any (fact_conflicts st words (st.to_lower new_content)) facts
            (f, at, contradicts_fact (st.to_lower new_content) f hit)))

  pub confirmed-Confirmed :
      (new_content : String) (scores : Map Number) (m : Memory Number)
      → confirmed fl st words d new_content scores m ≡ true
      → Confirmed new_content m (similarity fl st words d scores m.id)
  unfolding call_llm
  confirmed-Confirmed new_content scores m h =
      let x = similarity fl st words d scores m.id in
      elim (Bool-cases (at_least fl st words d x d.cfg.llm_confirm_threshold)) [
        | inl y ↦ inl (elim (Bool-cases (lt d.cfg.llm_confirm_threshold x)) [
          | inl above ↦ inl above
          | inr below ↦ inr (ground (arith, y, below))
        ])
        | inr n ↦ inr (elim (Option-cases d.complete) [
          | inl off ↦ inl off
          | inr (ask, on) ↦ elim (Option-cases (ask new_content m.content)) [
            | inl failed ↦ absurd (ground (arith, h, n, on, failed))
            | inr (raw, got) ↦
                let text = st.trim_space (d.unfenced raw) in
                elim (Bool-cases (str_eq text "")) [
                  | inl empty ↦ absurd (ground (arith, h, n, on, got, empty))
                  | inr full ↦ elim (Option-cases (d.unmarshal text)) [
                    | inl bad ↦ absurd (ground (arith, h, n, on, got, full, bad))
                    | inr (v, parsed) ↦
                        let yes : v.contradicts ≡ true =
                          ground (arith, h, n, on, got, full, parsed) in
                        inr (
                          ask,
                          raw,
                          text,
                          v.reason,
                          on,
                          got,
                          refl,
                          (λ e. cc (sym full ∙ (eq_iff text "").1 e)),
                          parsed
                              ∙ ap (λ c. some (record { contradicts = c; reason = v.reason })) yes,
                        )
                  ]
                ]
          ]
        ])
      ]

  pub Confirmed-confirmed :
      (new_content : String) (scores : Map Number) (m : Memory Number)
      → Confirmed new_content m (similarity fl st words d scores m.id)
      → confirmed fl st words d new_content scores m ≡ true
  unfolding call_llm
  Confirmed-confirmed new_content scores m (inl (inl above)) = rw above refl
  Confirmed-confirmed new_content scores m (inl (inr same)) = ground (arith, same)
  Confirmed-confirmed new_content scores m (inr (inl off)) = ground (arith, off)
  Confirmed-confirmed new_content scores m
        (inr (inr (ask, raw, text, reason, on, got, cut, full, parsed))) =
      let named : str_eq text "" ≡ false = ground (arith, full, eq_iff text "") in
      ground (arith, on, got, cut, named, parsed)
