-- ===== src/Graph/EntityResolver/Laws.antt =====
-- internal/graph/entity_resolver.go: what a resolution can return.
use openclaw_cortex.Base.{
  String, Bool, true, false, not, ◌&&◌, Option, none, some, List, [], ◌∷◌, ◌≡◌, ◌⊎◌, refl, sym,
  subst, inl, inr, arith, any, Option-cases, Bool-cases, str_eq, eq_iff,
}
use openclaw_cortex.Base.Float.{Float}
use openclaw_cortex.Models.{Entity}
use openclaw_cortex.Graph.EntityResolver.{
  EntityResult, ResolutionResponse, Match, matched, unmatched, failed, Resolver, same_entity,
  match_name, match_full, deterministic_match, read_response, claude_fallback, resolve,
}

module _ (fl : Float) (r : Resolver (fl.Number)) where
  open fl use {Number}

  abbrev pub is_candidate : List (EntityResult Number) → String → Bool
  is_candidate cs id = any (λ c. str_eq c.id id) cs

  -- A match names a candidate.
  abbrev Names : List (EntityResult Number) → Match → Type 0
  Names cs (matched id) = is_candidate cs id ≡ true
  Names cs unmatched = Unit
  Names cs failed = Unit

  weaker :
      (c : EntityResult Number) (cs : List (EntityResult Number)) (m : Match)
      → Names cs m
      → Names (c ∷ cs) m
  weaker c cs (matched id) h = ground (arith, h)
  weaker c cs unmatched h = tt
  weaker c cs failed h = tt

  own : (c : EntityResult Number) (cs : List (EntityResult Number)) → Names (c ∷ cs) (matched c.id)
  own c cs = ground (arith, eq_iff c.id c.id)

  match_name-Names :
      (e : Entity Number) (cs : List (EntityResult Number)) → Names cs (match_name fl r e cs)
  unfolding match_name
  match_name-Names e [] = tt
  match_name-Names e (c ∷ cs) = elim (Bool-cases (r.equal_fold c.name e.name)) [
    | inl h ↦ rw (h, match_name) (own c cs)
    | inr h ↦ rw (h, match_name) (weaker c cs (match_name fl r e cs) (match_name-Names e cs))
  ]

  match_full-Names :
      (e : Entity Number) (v : List Number) (cs : List (EntityResult Number))
      → Names cs (match_full fl r e v cs)
  unfolding match_full
  match_full-Names e v [] = tt
  match_full-Names e v (c ∷ cs) = elim (Option-cases (r.get_entity c.id)) [
    | inl h ↦ rw (h, match_full) (weaker c cs (match_full fl r e v cs) (match_full-Names e v cs))
    | inr (full, h) ↦ elim (Bool-cases (same_entity fl r e v full)) [
      | inl k ↦ rw (h, match_full) (rw k (own c cs))
      | inr k ↦
          rw (h, match_full) (rw k (weaker c cs (match_full fl r e v cs) (match_full-Names e v cs)))
    ]
  ]

  Match-cases : (m : Match) → ((id : String) × (m ≡ matched id)) ⊎ (m ≡ unmatched) ⊎ (m ≡ failed)
  Match-cases (matched id) = inl (id, refl)
  Match-cases unmatched = inr (inl refl)
  Match-cases failed = inr (inr refl)

  deterministic-Names :
      (e : Entity Number) (v : List Number) (cs : List (EntityResult Number))
      → Names cs (deterministic_match fl r e v cs)
  unfolding deterministic_match
  deterministic-Names e v cs =
      let named = match_name-Names e cs in
      let full = match_full-Names e v cs in
      elim (Match-cases (match_name fl r e cs)) [
        | inl (id, k) ↦ rw (k, deterministic_match) (subst (Names cs) k named)
        | inr (inl k) ↦ rw (k, deterministic_match) full
        | inr (inr k) ↦ rw (k, deterministic_match) full
      ]

  -- The fallback's match names a candidate, or the extracted entity itself.
  abbrev NamesOrSelf : Entity Number → List (EntityResult Number) → Match → Type 0
  NamesOrSelf e cs (matched id) = (is_candidate cs id ≡ true) ⊎ (id ≡ e.id)
  NamesOrSelf e cs unmatched = Unit
  NamesOrSelf e cs failed = Unit

  read_response-Names :
      (e : Entity Number) (cs : List (EntityResult Number)) (result : ResolutionResponse)
      → NamesOrSelf e cs (read_response fl r e cs result)
  unfolding read_response
  read_response-Names e cs result =
      elim (Bool-cases (result.is_duplicate && not (str_eq result.existing_id ""))) [
        | inr k ↦ rw (k, read_response) tt
        | inl k ↦ elim (Bool-cases (is_candidate cs result.existing_id)) [
          | inl h ↦ rw (k, read_response) (rw h (inl h))
          | inr h ↦ rw (k, read_response) (rw h (inr refl))
        ]
      ]

  fallback-Names :
      (e : Entity Number) (cs : List (EntityResult Number)) (context : String)
      → NamesOrSelf e cs (claude_fallback fl r e cs context)
  unfolding claude_fallback
  fallback-Names e cs context = elim (Option-cases r.client) [
    | inl c ↦ rw (c, claude_fallback) tt
    | inr (complete, c) ↦ elim (Option-cases (complete e cs context)) [
      | inl k ↦ rw (c, claude_fallback) (rw k tt)
      | inr (text, k) ↦ elim (Bool-cases (str_eq text "")) [
        | inl h ↦ rw (c, claude_fallback) (rw k (rw h tt))
        | inr h ↦ elim (Option-cases (r.unmarshal text)) [
          | inl u ↦ rw (c, claude_fallback) (rw k (rw h (rw u tt)))
          | inr (result, u) ↦
              rw (c, claude_fallback) (rw k (rw h (rw u (read_response-Names e cs result))))
        ]
      ]
    ]
  ]

  -- The answer for a known entity names a candidate or the entity itself; the answer for a new one
  -- names the entity itself.
  abbrev pub Sound : Entity Number → List (EntityResult Number) → Option (String × Bool) → Type 0
  Sound e cs none = Unit
  Sound e cs (some (id, true)) = id ≡ e.id
  Sound e cs (some (id, false)) = (is_candidate cs id ≡ true) ⊎ (id ≡ e.id)

  unfoldable answer : Match → Entity Number → Option (String × Bool)
  answer m e = elim m [ matched id ↦ some (id, false) | _ ↦ some (e.id, true) ]

  answer-Sound :
      (m : Match) (e : Entity Number) (cs : List (EntityResult Number))
      → NamesOrSelf e cs m
      → Sound e cs (answer m e)
  unfolding answer
  answer-Sound (matched id) e cs h = h
  answer-Sound unmatched e cs h = refl
  answer-Sound failed e cs h = refl

  -- An entity is resolved to a candidate or to itself, and as a new one always to itself.
  resolve_entity-Sound :
      (e : Entity Number) (v : List Number) (context : String) (cs : List (EntityResult Number))
      → r.search_entities e.name v e.project r.max_cands ≡ some cs
      → Sound e cs (resolve fl r e v context)
  unfolding resolve answer
  resolve_entity-Sound e v context [] s = rw (s, resolve) refl
  resolve_entity-Sound e v context (c ∷ cs) s =
      let after =
        answer-Sound (claude_fallback fl r e (c ∷ cs) context) e (c ∷ cs)
          (fallback-Names e (c ∷ cs) context) in
      elim (Match-cases (deterministic_match fl r e v (c ∷ cs))) [
        | inl (id, k) ↦
            rw (s, resolve)
              (rw k (inl (subst (Names (c ∷ cs)) k (deterministic-Names e v (c ∷ cs)))))
        | inr (inl k) ↦ subst (Sound e (c ∷ cs)) (sym (rw (s, resolve, answer) (rw k refl))) after
        | inr (inr k) ↦ subst (Sound e (c ∷ cs)) (sym (rw (s, resolve, answer) (rw k refl))) after
      ]

  -- Where the deterministic stage finds no match, an answer that names an id outside the candidates
  -- makes the resolution report the extracted entity as known under its own id.
  invented_id_is_not_new :
      (e : Entity Number) (v : List Number) (context text : String) (c : EntityResult Number)
      (cs : List (EntityResult Number))
      (complete : Entity Number → List (EntityResult Number) → String → Option String)
      (result : ResolutionResponse)
      → r.search_entities e.name v e.project r.max_cands ≡ some (c ∷ cs)
      → deterministic_match fl r e v (c ∷ cs) ≡ unmatched
      → r.client ≡ some complete
      → complete e (c ∷ cs) context ≡ some text
      → str_eq text "" ≡ false
      → r.unmarshal text ≡ some result
      → result.is_duplicate ≡ true
      → str_eq result.existing_id "" ≡ false
      → is_candidate (c ∷ cs) result.existing_id ≡ false
      → resolve fl r e v context ≡ some (e.id, false)
  unfolding resolve claude_fallback read_response
  invented_id_is_not_new e v context text c cs complete result s d cl t n u dup ne out =
      rw (s, resolve)
        (rw d (
          rw (cl, claude_fallback)
            (rw t (rw n (rw u (rw (dup, read_response) (rw ne (rw out refl))))))))
