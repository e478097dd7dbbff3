-- ===== src/Api/Refusals.antt =====
-- internal/api/server.go: the answers of other statuses than 200.
use openclaw_cortex.Base.{
  ℕ, String, Bool, true, false, Option, none, some, List, ◌≡◌, ◌≢◌, ◌⊎◌, refl, sym, ap, ◌∙◌, arith,
  if◌then◌else◌, Bool-cases, Option-cases, inl, inr, str_eq, eq_iff,
}
use openclaw_cortex.Base.Float.{Float}
use openclaw_cortex.Base.Strings.{Strings}
use openclaw_cortex.Models.{Memory, is_valid_memory_type, is_valid_memory_scope}
use openclaw_cortex.Serving.{Found, found, missing, broken, Backend, Machine}
use openclaw_cortex.Api.{
  Call, healthz, remember, recall, list_memories, get_memory, update_memory, delete_memory, search,
  get_stats, get_entity, search_entities, RememberRequest, UpdateRequest, RecallRequest,
  SearchRequest, ListQuery, Response, refused, remembered, one_memory, is_refused, Texts, Server,
}
use openclaw_cortex.Api.Memories.{
  handle_remember, store_new, handle_update, check_patches, answer_update, store_update,
  embed_update, patched, handle_get_memory, handle_delete_memory, new_memory,
}
use openclaw_cortex.Api.Queries.{
  handle_recall, handle_search, handle_list, list_limit, raw_cursor, answer_page, handle_stats,
  handle_search_entities, handle_get_entity, invalid,
}
use openclaw_cortex.Api.Routes.{Request, is_authorized, serve, needs_token, handle}

abbrev is_found : {A : Type 0} → Found A → Bool
is_found (found a) = true
is_found _ = false

-- A write that fails leaves the store as it is.
pub record Atomic {F S : Type 0} (b : Backend F S) : Type 0 where
  pub upsert_fails :
      (now : ℕ) (m : Memory F) (vec : List F) (s : S)
      → (b.upsert now m vec s).1 ≡ false
      → (b.upsert now m vec s).0 ≡ s
  pub delete_fails :
      (id : String) (s : S) → is_found (b.delete id s).1 ≡ false → (b.delete id s).0 ≡ s

-- An answer that is refused comes with the store as it was.
abbrev pub Harmless : {F S : Type 0} → S → S × Response F → Type 0
Harmless s (t, r) = is_refused r ≡ true → t ≡ s

module _ (fl : Float) (st : Strings) (tx : Texts) (e : Machine fl) {S : Type 0}
    (v : Server (fl.Number) S) where
  open fl use {Number}

  answer_page_keeps :
      (q : ListQuery) (n : ℕ) (c : String) (s : S) → (answer_page fl st tx e v q n c s).0 ≡ s
  unfolding answer_page
  answer_page_keeps q n c s = ground arith

  handle_list_keeps : (q : ListQuery) (s : S) → (handle_list fl st tx e v q s).0 ≡ s
  unfolding handle_list
  handle_list_keeps q s = elim (Bool-cases (invalid is_valid_memory_type q.type)) [
    | inl a ↦ rw a refl
    | inr a ↦ elim (Bool-cases (invalid is_valid_memory_scope q.scope)) [
      | inl b ↦ rw (a, b) refl
      | inr b ↦ elim (Option-cases (list_limit tx q.limit)) [
        | inl c ↦ rw (a, b) (rw (c, handle_list) refl)
        | inr (n, c) ↦ elim (Option-cases (raw_cursor tx v.cursor_secret q.cursor)) [
          | inl d ↦ rw (a, b) (rw (c, handle_list) (rw (d, handle_list) refl))
          | inr (cur, d) ↦
              rw (a, b) (rw (c, handle_list) (rw (d, handle_list) (answer_page_keeps q n cur s)))
        ]
      ]
    ]
  ]

  handle_search_keeps :
      (body : Option SearchRequest) (s : S) → (handle_search fl st tx e v body s).0 ≡ s
  unfolding handle_search
  handle_search_keeps none s = refl
  handle_search_keeps (some req) s = ground arith

  recall-Harmless :
      (body : Option RecallRequest) (s : S) → Harmless s (handle_recall fl st tx e v body s)
  unfolding handle_recall
  recall-Harmless none s h = refl
  recall-Harmless (some req) s h = ground arith

  module _ (atomic : Atomic v.backend) where
    upserted-Harmless :
        (now : ℕ) (m : Memory Number) (vec : List Number) (answer : Response Number) (text : String)
        (s : S)
        → is_refused answer ≡ false
        → Harmless s (
            let (t, ok) = v.backend.upsert now m vec s in
            if ok then (t, answer) else (t, refused 500 text))
    upserted-Harmless now m vec answer text s a h = ground (arith, atomic.upsert_fails now m vec s)

    store_new-Harmless :
        (req : RememberRequest Number) (s : S) → Harmless s (store_new fl e v req s)
    unfolding store_new
    store_new-Harmless req s = elim (Option-cases (v.backend.embed req.content)) [
      | inl n ↦ rw (n, store_new) (λ h. refl)
      | inr (vec, n) ↦
          rw (n, store_new)
            (upserted-Harmless e.now (new_memory fl e v req) vec (remembered e.fresh_id)
              "failed to store memory" s refl)
    ]

    store_update-Harmless :
        (req : UpdateRequest Number) (m : Memory Number) (s : S)
        → Harmless s (store_update fl e v req m s)
    unfolding store_update
    store_update-Harmless req m s = elim (Option-cases (embed_update fl e v req)) [
      | inl n ↦ rw (n, store_update) (λ h. refl)
      | inr (vec, n) ↦
          rw (n, store_update)
            (upserted-Harmless e.now (patched fl e v req m) vec (one_memory (patched fl e v req m))
              "failed to update memory" s refl)
    ]

    remember-Harmless :
        (body : Option (RememberRequest Number)) (s : S)
        → Harmless s (handle_remember fl e v body s)
    unfolding handle_remember
    remember-Harmless none s h = refl
    remember-Harmless (some req) s h = ground (arith, store_new-Harmless req s)

    answered-Harmless :
        (id : String) (req : UpdateRequest Number) (s : S) (reply : Found (Memory Number))
        → Harmless s (answer_update fl e v req s reply)
    unfolding answer_update
    answered-Harmless id req s missing = λ h. refl
    answered-Harmless id req s broken = λ h. refl
    answered-Harmless id req s (found m) = elim (Option-cases (check_patches fl e v req)) [
      | inl n ↦ rw (n, answer_update) (store_update-Harmless req m s)
      | inr (answer, n) ↦ rw (n, answer_update) (λ h. refl)
    ]

    update-Harmless :
        (id : String) (body : Option (UpdateRequest Number)) (s : S)
        → Harmless s (handle_update fl e v id body s)
    unfolding handle_update
    update-Harmless id none s = λ h. refl
    update-Harmless id (some req) s = elim (Bool-cases (str_eq id "")) [
      | inl n ↦ rw n (λ h. refl)
      | inr n ↦ rw n (answered-Harmless id req s (v.backend.get id s))
    ]

    delete-Harmless : (id : String) (s : S) → Harmless s (handle_delete_memory fl e v id s)
    unfolding handle_delete_memory
    delete-Harmless id s h = ground (arith, atomic.delete_fails id s)

    serve-Harmless : (c : Call Number) (s : S) → Harmless s (serve fl st tx e v c s)
    unfolding serve handle_get_memory handle_stats handle_search_entities handle_get_entity
    serve-Harmless healthz s h = refl
    serve-Harmless (remember body) s h = remember-Harmless body s h
    serve-Harmless (recall body) s h = recall-Harmless body s h
    serve-Harmless (list_memories q) s h = handle_list_keeps q s
    serve-Harmless (get_memory id) s h = ground arith
    serve-Harmless (update_memory id body) s h = update-Harmless id body s h
    serve-Harmless (delete_memory id) s h = delete-Harmless id s h
    serve-Harmless (search body) s h = handle_search_keeps body s
    serve-Harmless get_stats s h = ground arith
    serve-Harmless (get_entity id) s h = ground arith
    serve-Harmless (search_entities q) s h = ground arith

    -- A request that is answered with a status other than 200 leaves the store as it was, for every
    -- route and request, if a failing write of the store changes nothing.
    pub handle-Harmless : (req : Request Number) (s : S) → Harmless s (handle fl st tx e v req s)
    unfolding handle
    handle-Harmless req s = elim (Bool-cases (needs_token fl st tx e v req.call)) [
      | inl n ↦ elim (Bool-cases (is_authorized fl st tx e v req.authorization)) [
        | inl a ↦ rw n (rw a (serve-Harmless req.call s))
        | inr a ↦ rw n (rw a (λ h. refl))
      ]
      | inr n ↦ rw n (serve-Harmless req.call s)
    ]

  guarded : (c : Call Number) → c ≢ healthz → needs_token fl st tx e v c ≡ true
  guarded healthz h = absurd (h refl)
  guarded (remember body) h = refl
  guarded (recall body) h = refl
  guarded (list_memories q) h = refl
  guarded (get_memory id) h = refl
  guarded (update_memory id body) h = refl
  guarded (delete_memory id) h = refl
  guarded (search body) h = refl
  guarded get_stats h = refl
  guarded (get_entity id) h = refl
  guarded (search_entities q) h = refl

  authorized :
      (header : String)
      → tx.cut_bearer header ≡ some v.auth_token
      → is_authorized fl st tx e v header ≡ true
  unfolding is_authorized
  authorized header c = rw (c, is_authorized) (ground (arith, eq_iff v.auth_token v.auth_token))

  has_token :
      (header : String)
      → str_eq v.auth_token "" ≡ false
      → is_authorized fl st tx e v header ≡ true
      → tx.cut_bearer header ≡ some v.auth_token
  unfolding is_authorized
  has_token header set a = elim (Option-cases (tx.cut_bearer header)) [
    | inl c ↦ absurd (ground (arith, a, set, c))
    | inr (token, c) ↦
        let same : str_eq token v.auth_token ≡ true = ground (arith, a, set, c) in
        c ∙ ap some ((eq_iff token v.auth_token).0 same)
  ]

  -- Where a token is set, a request of any route other than healthz is served if its header is
  -- Bearer with that token, and otherwise is answered with 401 and leaves the store as it was.
  pub handle-authorized :
      (req : Request Number) (s : S)
      → str_eq v.auth_token "" ≡ false
      → req.call ≢ healthz
      → ((tx.cut_bearer req.authorization ≡ some v.auth_token)
          × (handle fl st tx e v req s ≡ serve fl st tx e v req.call s))
        ⊎ ((tx.cut_bearer req.authorization ≢ some v.auth_token)
            × (handle fl st tx e v req s ≡ (s, refused 401 "unauthorized")))
  unfolding handle
  handle-authorized req s set open_route =
      let n = guarded req.call open_route in
      elim (Bool-cases (is_authorized fl st tx e v req.authorization)) [
        | inl a ↦ inl (has_token req.authorization set a, rw (n, handle) (rw a refl))
        | inr a ↦ inr (λ c. cc (sym a ∙ authorized req.authorization c), rw (n, handle) (rw a refl))
      ]
