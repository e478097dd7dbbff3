-- ===== src/Api/Writes.antt =====
-- internal/api/server.go `handleRemember` and `handleUpdate` over the store of mock_store.go: what is
-- read back.
use openclaw_cortex.Base.{
  String, Bool, true, false, Option, none, some, List, [], ◌≡◌, refl, ap, subst, ◌∙◌, arith,
  if◌then◌else◌, lookup, lookup-insert, str_eq, eq_iff,
}
use openclaw_cortex.Base.Float.{Float}
use openclaw_cortex.Base.Strings.{Strings}
use openclaw_cortex.Models.{Memory}
use openclaw_cortex.Store.Filters.{is_none}
use openclaw_cortex.Store.Mock.{Stored, MockStore, ok, get, upsert, stamped, supersede}
use openclaw_cortex.Recall.{Recaller}
use openclaw_cortex.Serving.{Machine}
use openclaw_cortex.Serving.InMemory.{in_memory_backend}
use openclaw_cortex.Api.{RememberRequest, UpdateRequest, one_memory, Server, or_default}
use openclaw_cortex.Api.Memories.{
  either, patched, check_patches, embed_update, store_update, answer_update, handle_update,
  handle_get_memory,
}

module _ (fl : Float) (st : Strings) (e : Machine fl) (embed : String → Option (List (fl.Number)))
    (id_less : String → String → Bool) (preview : String → String) (r : Recaller (fl.Number))
    (token secret : String) where
  open fl use {Number, lit, eq}

  -- The server over the store in memory.
  abbrev pub local : Server Number (MockStore Number)
  local = record {
    backend = in_memory_backend fl st embed id_less preview e.now r;
    auth_token = token;
    cursor_secret = secret;
  }

  stored_by_upsert :
      (m : Memory Number) (vec : List Number) (s : MockStore Number)
      → lookup m.id (upsert e.now m vec s).memories
        ≡ some (record { memory = stamped e.now m; vector = vec })
  unfolding upsert
  stored_by_upsert m vec s = ground (
    arith,
    eq_iff m.id m.id,
    lookup-insert m.id m.id (record { memory = stamped e.now m; vector = vec })
        (supersede e.now m.supersedes_id s).memories,
  )

  -- A memory as Get returns it after an Upsert.
  abbrev read_back : Memory Number → Memory Number
  read_back m = record (stamped e.now m) { is_current_version = is_none (stamped e.now m).valid_to }

  get-upsert_lem :
      (m : Memory Number) (vec : List Number) (s : MockStore Number)
      → get m.id (upsert e.now m vec s) ≡ ok (read_back m)
  unfolding get
  get-upsert_lem m vec s = rw (stored_by_upsert m vec s, get) refl

  served :
      (id : String) (m : Memory Number) (t : MockStore Number)
      → str_eq id "" ≡ false
      → get id t ≡ ok m
      → handle_get_memory fl e local id t ≡ (t, one_memory m)
  unfolding handle_get_memory
  served id m t n g = rw n (rw (g, handle_get_memory) refl)

  pub record Remembered (req : RememberRequest Number) (m : Memory Number) : Type 0 where
    pub content : m.content ≡ req.content
    pub type : m.type ≡ or_default "fact" req.type
    pub scope : m.scope ≡ or_default "session" req.scope
    pub project : m.project ≡ req.project
    pub tags : m.tags ≡ req.tags
    pub confidence :
        m.confidence ≡ (if eq req.confidence (lit 0 0) then lit 9 1 else req.confidence)
    pub current : m.is_current_version ≡ true

  -- The patches that are given, and what the memory had before elsewhere.
  pub record Patched (req : UpdateRequest Number) (old m : Memory Number) : Type 0 where
    pub content : m.content ≡ or_default old.content req.content
    pub type : m.type ≡ or_default old.type req.type
    pub scope : m.scope ≡ or_default old.scope req.scope
    pub project : m.project ≡ either req.project old.project
    pub tags : m.tags ≡ either req.tags old.tags
    pub confidence : m.confidence ≡ either req.confidence old.confidence
    pub created : m.created_at ≡ old.created_at
    pub ended : m.valid_to ≡ old.valid_to
    pub accessed : m.access_count ≡ old.access_count

  updated :
      (id : String) (req : UpdateRequest Number) (old : Memory Number) (vec : List Number)
      (s : MockStore Number)
      → str_eq id "" ≡ false
      → get id s ≡ ok old
      → check_patches fl e local req ≡ none
      → embed_update fl e local req ≡ some vec
      → handle_update fl e local id (some req) s
        ≡ (upsert e.now (patched fl e local req old) vec s, one_memory (patched fl e local req old))
  unfolding handle_update
  updated id req old vec s named g checked v =
      rw named (rw (g, answer_update) (rw (checked, answer_update) (rw (v, store_update) refl)))

  -- Over the store in memory, a valid update of a stored memory is read back with the patches that are
  -- given, and what the memory had before elsewhere.
  handle_get_memory-handle_update :
      (id : String) (req : UpdateRequest Number) (old : Memory Number) (vec : List Number)
      (s : MockStore Number)
      → str_eq id "" ≡ false
      → get id s ≡ ok old
      → old.id ≡ id
      → check_patches fl e local req ≡ none
      → embed_update fl e local req ≡ some vec
      → (t : MockStore Number) × (answer m : Memory Number) × (handle_update fl e local id
            (some req)
            s
          ≡ (t, one_memory answer))
        × (handle_get_memory fl e local id t ≡ (t, one_memory m))
        × Patched req old m
  unfolding patched stamped
  handle_get_memory-handle_update id req old vec s named g keyed checked v =
      let new = patched fl e local req old in
      let t = upsert e.now new vec s in
      (
        t,
        new,
        read_back new,
        updated id req old vec s named g checked v,
        served id (read_back new) t named
            (subst (λ k. get k t ≡ ok (read_back new)) keyed (get-upsert_lem new vec s)),
        record {
          content = refl;
          type = refl;
          scope = refl;
          project = refl;
          tags = refl;
          confidence = refl;
          created = refl;
          ended = refl;
          accessed = refl;
        },
      )

  -- Over the store in memory, a valid update of a stored memory that gives no content leaves the
  -- memory without its vector.
  pub handle_update_loses_vector :
      (id : String) (req : UpdateRequest Number) (old : Memory Number) (s : MockStore Number)
      → str_eq id "" ≡ false
      → get id s ≡ ok old
      → old.id ≡ id
      → check_patches fl e local req ≡ none
      → str_eq req.content "" ≡ true
      → let t = (handle_update fl e local id (some req) s).0 in
        (sm : Stored Number) × (lookup id t.memories ≡ some sm) × (sm.vector ≡ [])
  unfolding embed_update patched
  handle_update_loses_vector id req old s named g keyed checked same =
      let new = patched fl e local req old in
      let run = updated id req old [] s named g checked (rw same refl) in
      (
        record { memory = stamped e.now new; vector = [] },
        ap (λ o. lookup id o.0.memories) run
            ∙ subst
                (λ k.
                  lookup k (upsert e.now new [] s).memories
                  ≡ some (record { memory = stamped e.now new; vector = [] }))
                keyed (stored_by_upsert new [] s),
        refl,
      )
