-- ===== src/Mcp.antt =====
-- internal/mcp: the tools of the MCP server. A refused call carries the text of its error, without the
-- message of the error that caused it.
pub mod Parity
mod Tests
use openclaw_cortex.Base.{
  ℕ, String, Bool, true, false, not, ◌&&◌, ◌||◌, Option, none, some, List, [], if◌then◌else◌,
  str_eq,
}
use openclaw_cortex.Base.Int.{ℤ, pos}
use openclaw_cortex.Base.Float.{Float}
use openclaw_cortex.Base.Strings.{Strings}
use openclaw_cortex.Models.{
  zero_memory, Memory, SearchResult, Entity, CollectionStats, is_valid_memory_type,
  is_valid_memory_scope,
}
use openclaw_cortex.Hooks.PreTurn.{project_filter}
use openclaw_cortex.Serving.{found, missing, broken, Backend, Machine}
use openclaw_cortex.Serving as Serving
use openclaw_cortex.Api.{or_default}
use openclaw_cortex.Api.Queries.{positive_or, at_most, invalid}

-- The tools with their arguments; "" and `none` stand for those that are not given.
pub data Tool (F : Type 0) : Type 0 where
  remember : (content type scope project : String) → Option F → Tool F
  recall : (message project : String) → Option ℤ → Tool F
  forget : String → Tool F
  search : (message project : String) → Option ℤ → Tool F
  get_stats : Tool F
  entity_search : String → Tool F
  entity_get : String → Tool F

pub data ToolResult (F : Type 0) : Type 0 where
  tool_error : String → ToolResult F
  remembered : String → ToolResult F
  recalled : List String → ToolResult F
  deleted : ToolResult F
  results : List (SearchResult F) → ToolResult F
  statistics : CollectionStats → ToolResult F
  entities : List (Entity F) → ToolResult F
  one_entity : Entity F → ToolResult F

-- What the server was given: the store, the embedder and the recaller may be nil.
pub record Server (F S : Type 0) : Type 0 where
  pub backend : Backend F S
  pub has_store : Bool
  pub has_embedder : Bool
  pub has_recaller : Bool

abbrev default_recall_budget : ℕ
default_recall_budget = 2000

abbrev default_search_limit : ℕ
default_search_limit = 10

abbrev recall_search_limit : ℕ
recall_search_limit = 50

abbrev number_or : ℕ → Option ℤ → ℕ
number_or fallback none = fallback
number_or fallback (some n) = positive_or fallback n

module _ (fl : Float) (st : Strings) (e : Machine fl) {S : Type 0} (v : Server (fl.Number) S) where
  open fl use {Number, lit, lt}

  abbrev pub is_blank : String → Bool
  is_blank s = str_eq (st.trim_space s) ""

  abbrev or_one : Option Number → Number
  or_one none = lit 1 0
  or_one (some c) = c

  -- A call needs the store, and some need the embedder.
  unfoldable pub unavailable : Bool → Option String
  unavailable embeds =
      if not v.has_store
      then some "store is unavailable"
      else (if embeds && not v.has_embedder then some "embedder is unavailable" else none)

  unfoldable pub new_memory : String → String → String → String → Number → Memory Number
  new_memory content type scope project confidence = record (zero_memory confidence) {
    id = e.fresh_id;
    type = or_default "fact" type;
    scope = or_default "session" scope;
    visibility = "private";
    content = content;
    source = "mcp";
    project = project;
    created_at = e.now;
    updated_at = e.now;
    last_accessed = e.now;
  }

  unfoldable pub store_new : Memory Number → S → S × ToolResult Number
  store_new m s = elim (v.backend.embed m.content) [
    | none ↦ (s, tool_error "embedding failed")
    | some vec ↦
        let (t, ok) = v.backend.upsert e.now m vec s in
        if ok then (t, remembered e.fresh_id) else (t, tool_error "store upsert failed")
  ]

  unfoldable pub handle_remember :
      String → String → String → String → Option Number → S → S × ToolResult Number
  unfolding unavailable store_new new_memory
  handle_remember content type scope project confidence s = elim (unavailable true) [
    | some text ↦ (s, tool_error text)
    | none ↦
        if is_blank content
        then (s, tool_error "content is required and must not be empty")
        else (if invalid is_valid_memory_type type
            then (s, tool_error "invalid type")
            else (if invalid is_valid_memory_scope scope
                then (s, tool_error "invalid scope")
                else (if lt (or_one confidence) (lit 0 0) || lt (lit 1 0) (or_one confidence)
                    then (s, tool_error "confidence must be between 0.0 and 1.0")
                    else store_new (new_memory content type scope project (or_one confidence)) s)))
  ]

  unfoldable pub handle_recall : String → String → Option ℤ → S → S × ToolResult Number
  unfolding unavailable Serving.recalled
  handle_recall message project budget s = elim (unavailable true) [
    | some text ↦ (s, tool_error text)
    | none ↦
        if not v.has_recaller
        then (s, tool_error "recaller is unavailable")
        else (if is_blank message
            then (s, tool_error "message is required and must not be empty")
            else (elim (v.backend.embed message) [
              | none ↦ (s, tool_error "embedding failed")
              | some vec ↦
                  elim (v.backend.search vec recall_search_limit (project_filter project) s) [
                    | none ↦ (s, tool_error "search failed")
                    | some hits ↦
                        let (t, context) =
                          Serving.recalled fl st e v.backend message project
                            (number_or default_recall_budget budget) hits s in
                        (t, recalled context)
                  ]
            ]))
  ]

  unfoldable handle_forget : String → S → S × ToolResult Number
  unfolding unavailable
  handle_forget id s = elim (unavailable false) [
    | some text ↦ (s, tool_error text)
    | none ↦
        if is_blank id
        then (s, tool_error "id is required and must not be empty")
        else (let (t, reply) = v.backend.delete id s in
            elim reply [ found done ↦ (t, deleted) | _ ↦ (t, tool_error "delete failed") ])
  ]

  unfoldable pub handle_search : String → String → Option ℤ → S → S × ToolResult Number
  unfolding unavailable
  handle_search message project limit s = elim (unavailable true) [
    | some text ↦ (s, tool_error text)
    | none ↦
        if is_blank message
        then (s, tool_error "message is required and must not be empty")
        else (elim (v.backend.embed message) [
          | none ↦ (s, tool_error "embedding failed")
          | some vec ↦
              elim (v.backend.search vec (at_most 1000 (number_or default_search_limit limit))
                (project_filter project) s) [
                  | none ↦ (s, tool_error "search failed")
                  | some hits ↦ (s, results hits)
                ]
        ])
  ]

  unfoldable pub handle_stats : S → S × ToolResult Number
  unfolding unavailable
  handle_stats s = elim (unavailable false) [
    | some text ↦ (s, tool_error text)
    | none ↦ elim (v.backend.stats s) [
      | none ↦ (s, tool_error "stats failed")
      | some c ↦ (s, statistics c)
    ]
  ]

  unfoldable handle_entity_search : String → S → S × ToolResult Number
  unfolding unavailable
  handle_entity_search query s = elim (unavailable false) [
    | some text ↦ (s, tool_error text)
    | none ↦
        if is_blank query
        then (s, tool_error "query is required and must not be empty")
        else (elim (v.backend.search_entities query "" 100 s) [
          | none ↦ (s, tool_error "entity search failed")
          | some es ↦ (s, entities es)
        ])
  ]

  unfoldable handle_entity_get : String → S → S × ToolResult Number
  unfolding unavailable
  handle_entity_get id s = elim (unavailable false) [
    | some text ↦ (s, tool_error text)
    | none ↦
        if is_blank id
        then (s, tool_error "id is required and must not be empty")
        else (elim (v.backend.get_entity id s) [
          | found x ↦ (s, one_entity x)
          | _ ↦ (s, tool_error "entity not found")
        ])
  ]

  unfoldable call_tool : Tool Number → S → S × ToolResult Number
  unfolding handle_remember handle_recall handle_forget handle_search handle_stats
      handle_entity_search handle_entity_get
  call_tool (remember content type scope project confidence) s =
      handle_remember content type scope project confidence s
  call_tool (recall message project budget) s = handle_recall message project budget s
  call_tool (forget id) s = handle_forget id s
  call_tool (search message project limit) s = handle_search message project limit s
  call_tool get_stats s = handle_stats s
  call_tool (entity_search query) s = handle_entity_search query s
  call_tool (entity_get id) s = handle_entity_get id s
