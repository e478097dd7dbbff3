-- ===== src/Api/Memories.antt =====
-- internal/api/server.go: the handlers of single memories.
use openclaw_cortex.Base.{
  String, Bool, false, not, ◌&&◌, ◌||◌, Option, none, some, List, [], if◌then◌else◌, str_eq,
}
use openclaw_cortex.Base.Float.{Float}
use openclaw_cortex.Models.{zero_memory, Memory, is_valid_memory_type, is_valid_memory_scope}
use openclaw_cortex.Serving.{Found, found, missing, broken, Machine}
use openclaw_cortex.Api.{
  RememberRequest, UpdateRequest, Response, refused, remembered, one_memory, deleted, Server,
  or_default,
}

-- `*c < 0 || *c > 1`
abbrev out_of_unit : (fl : Float) → Option (fl.Number) → Bool
out_of_unit fl none = false
out_of_unit fl (some c) = fl.lt c (fl.lit 0 0) || fl.lt (fl.lit 1 0) c

abbrev pub either : {A : Type 0} → Option A → A → A
either none a = a
either (some b) a = b

module _ (fl : Float) (e : Machine fl) {S : Type 0} (v : Server (fl.Number) S) where
  open fl use {Number, lit, eq}

  unfoldable pub new_memory : RememberRequest Number → Memory Number
  new_memory req =
      record (zero_memory (if eq req.confidence (lit 0 0) then lit 9 1 else req.confidence)) {
        id = e.fresh_id;
        type = or_default "fact" req.type;
        scope = or_default "session" req.scope;
        visibility = "private";
        content = req.content;
        source = "api";
        tags = req.tags;
        project = req.project;
        created_at = e.now;
        updated_at = e.now;
        last_accessed = e.now;
      }

  unfoldable pub store_new : RememberRequest Number → S → S × Response Number
  unfolding new_memory
  store_new req s = elim (v.backend.embed req.content) [
    | none ↦ (s, refused 500 "failed to generate embedding")
    | some vec ↦
        let (t, ok) = v.backend.upsert e.now (new_memory req) vec s in
        if ok then (t, remembered e.fresh_id) else (t, refused 500 "failed to store memory")
  ]

  unfoldable pub handle_remember : Option (RememberRequest Number) → S → S × Response Number
  unfolding store_new
  handle_remember none s = (s, refused 400 "invalid request body")
  handle_remember (some req) s =
      if str_eq req.content ""
      then (s, refused 400 "content is required")
      else (if not (is_valid_memory_type (or_default "fact" req.type))
          then (s, refused 400 "invalid memory type")
          else (if not (is_valid_memory_scope (or_default "session" req.scope))
              then (s, refused 400 "invalid memory scope")
              else store_new req s))

  -- The patches that are given.
  unfoldable pub patched : UpdateRequest Number → Memory Number → Memory Number
  patched req m = record m {
    type = or_default m.type req.type;
    scope = or_default m.scope req.scope;
    project = either req.project m.project;
    confidence = either req.confidence m.confidence;
    tags = either req.tags m.tags;
    content = or_default m.content req.content;
    updated_at = e.now;
  }

  -- The checks of the patches, in their order; the last is that of the embedder.
  unfoldable pub check_patches : UpdateRequest Number → Option (Response Number)
  check_patches req =
      if not (str_eq req.type "") && not (is_valid_memory_type req.type)
      then some (refused 400 "invalid memory type")
      else (if not (str_eq req.scope "") && not (is_valid_memory_scope req.scope)
          then some (refused 400 "invalid memory scope")
          else (if out_of_unit fl req.confidence
              then some (refused 400 "confidence must be between 0.0 and 1.0")
              else none))

  -- The vector of new content; without any, the nil vector.
  unfoldable pub embed_update : UpdateRequest Number → Option (List Number)
  embed_update req = if str_eq req.content "" then some [] else v.backend.embed req.content

  unfoldable pub store_update : UpdateRequest Number → Memory Number → S → S × Response Number
  unfolding patched embed_update
  store_update req m s = elim (embed_update req) [
    | none ↦ (s, refused 500 "failed to generate embedding")
    | some vec ↦
        let (t, ok) = v.backend.upsert e.now (patched req m) vec s in
        if ok then (t, one_memory (patched req m)) else (t, refused 500 "failed to update memory")
  ]

  -- What follows the store's Get.
  unfoldable pub answer_update :
      UpdateRequest Number → S → Found (Memory Number) → S × Response Number
  unfolding check_patches store_update
  answer_update req s missing = (s, refused 404 "memory not found")
  answer_update req s broken = (s, refused 500 "failed to get memory")
  answer_update req s (found m) = elim (check_patches req) [
    | some answer ↦ (s, answer)
    | none ↦ store_update req m s
  ]

  unfoldable pub handle_update : String → Option (UpdateRequest Number) → S → S × Response Number
  unfolding answer_update
  handle_update id none s =
      (s, refused 400 (if str_eq id "" then "id is required" else "invalid request body"))
  handle_update id (some req) s =
      if str_eq id ""
      then (s, refused 400 "id is required")
      else answer_update req s (v.backend.get id s)

  unfoldable pub handle_get_memory : String → S → S × Response Number
  handle_get_memory id s =
      if str_eq id "" then (s, refused 400 "id is required") else (elim (v.backend.get id s) [
        | missing ↦ (s, refused 404 "memory not found")
        | broken ↦ (s, refused 500 "failed to get memory")
        | found m ↦ (s, one_memory m)
      ])

  unfoldable pub handle_delete_memory : String → S → S × Response Number
  handle_delete_memory id s =
      if str_eq id ""
      then (s, refused 400 "id is required")
      else (let (t, reply) = v.backend.delete id s in
          elim reply [
            | missing ↦ (t, refused 404 "memory not found")
            | broken ↦ (t, refused 500 "failed to delete memory")
            | found done ↦ (t, deleted)
          ])
