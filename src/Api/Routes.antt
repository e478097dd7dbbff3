-- ===== src/Api/Routes.antt =====
-- internal/api/server.go: `Handler` and `auth`.
use openclaw_cortex.Base.{String, Bool, true, false, none, some, if◌then◌else◌, str_eq}
use openclaw_cortex.Base.Float.{Float}
use openclaw_cortex.Base.Strings.{Strings}
use openclaw_cortex.Serving.{Machine}
use openclaw_cortex.Api.{
  Call, healthz, remember, recall, list_memories, get_memory, update_memory, delete_memory, search,
  get_stats, get_entity, search_entities, Response, refused, healthy, Texts, Server,
}
use openclaw_cortex.Api.Memories.{
  handle_remember, handle_update, handle_get_memory, handle_delete_memory,
}
use openclaw_cortex.Api.Queries.{
  handle_recall, handle_search, handle_list, handle_stats, handle_search_entities,
  handle_get_entity,
}

-- `authorization` is the header of that name.
pub record Request (F : Type 0) : Type 0 where
  pub authorization : String
  pub call : Call F

module _ (fl : Float) (st : Strings) (tx : Texts) (e : Machine fl) {S : Type 0}
    (v : Server (fl.Number) S) where
  open fl use {Number}

  -- subtle.ConstantTimeCompare is the equality of texts.
  unfoldable pub is_authorized : String → Bool
  is_authorized header =
      if str_eq v.auth_token ""
      then true
      else (elim (tx.cut_bearer header) [ none ↦ false | some token ↦ str_eq token v.auth_token ])

  -- The handler of a route.
  unfoldable pub serve : Call Number → S → S × Response Number
  serve healthz s = (s, healthy)
  serve (remember body) s = handle_remember fl e v body s
  serve (recall body) s = handle_recall fl st tx e v body s
  serve (list_memories q) s = handle_list fl st tx e v q s
  serve (get_memory id) s = handle_get_memory fl e v id s
  serve (update_memory id body) s = handle_update fl e v id body s
  serve (delete_memory id) s = handle_delete_memory fl e v id s
  serve (search body) s = handle_search fl st tx e v body s
  serve get_stats s = handle_stats fl st tx e v s
  serve (get_entity id) s = handle_get_entity fl st tx e v id s
  serve (search_entities q) s = handle_search_entities fl st tx e v q s

  abbrev pub needs_token : Call Number → Bool
  needs_token healthz = false
  needs_token _ = true

  unfoldable pub handle : Request Number → S → S × Response Number
  unfolding is_authorized serve
  handle req s =
      if needs_token req.call
      then (if is_authorized req.authorization
          then serve req.call s
          else (s, refused 401 "unauthorized"))
      else serve req.call s
