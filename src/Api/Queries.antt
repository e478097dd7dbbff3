-- ===== src/Api/Queries.antt =====
-- internal/api/server.go: the handlers of recall, search, lists, statistics and entities.
use openclaw_cortex.Base.{
  ℕ, String, Bool, not, ◌&&◌, Option, none, some, List, [], ltb, ◌==◌, length, if◌then◌else◌,
  str_eq,
}
use openclaw_cortex.Base.Int.{ℤ, pos, negsuc}
use openclaw_cortex.Base.Float.{Float}
use openclaw_cortex.Base.Strings.{Strings}
use openclaw_cortex.Models.{is_valid_memory_type, is_valid_memory_scope}
use openclaw_cortex.Store.Filters.{SearchFilters, no_filters}
use openclaw_cortex.Cursor.{sign, verify}
use openclaw_cortex.Hooks.PreTurn.{project_filter}
use openclaw_cortex.Serving.{found, missing, broken, Machine}
use openclaw_cortex.Serving as Serving
use openclaw_cortex.Api.{
  RecallRequest, SearchRequest, ListQuery, EntityQuery, Response, refused, recalled, memories,
  results, statistics, one_entity, entities, Texts, Server, given,
}

-- `if n <= 0 { n = fallback }`
abbrev pub positive_or : ℕ → ℤ → ℕ
positive_or fallback (pos n) = if n == 0 then fallback else n
positive_or fallback (negsuc n) = fallback

abbrev pub at_most : ℕ → ℕ → ℕ
at_most cap n = if ltb cap n then cap else n

-- `Type` and `Scope` are checked before a filter is made of them.
abbrev pub invalid : (String → Bool) → String → Bool
invalid is_valid s = not (str_eq s "") && not (is_valid s)

unfoldable pub filters_of : String → String → String → List String → Option SearchFilters
filters_of type scope project tags =
    if str_eq type "" && str_eq scope "" && str_eq project "" && length tags == 0
    then none
    else some (record no_filters {
      type = given type;
      scope = given scope;
      project = given project;
      tags = tags;
    })

abbrev pub is_nameless : String → Bool
is_nameless text = str_eq text ""

module _ (tx : Texts) where
  -- `none` is an answer of status 400.
  unfoldable pub list_limit : String → Option ℕ
  list_limit text = if str_eq text "" then some 100 else (elim (tx.parse_uint text) [
    | none ↦ none
    | some n ↦ if n == 0 then none else some (at_most 1000 n)
  ])

  unfoldable entity_limit : String → ℕ
  entity_limit text =
      if str_eq text ""
      then 10
      else (elim (tx.atoi text) [ none ↦ 10 | some n ↦ at_most 100 (positive_or 10 n) ])

  unfoldable pub sign_cursor : String → String → String
  sign_cursor secret next =
      if str_eq next ""
      then ""
      else (if str_eq secret ""
          then next
          else sign is_nameless (tx.mac) (tx.encode) (tx.decode) (tx.parse_int next)
              (tx.bytes secret))

  -- `if skip > 0`
  abbrev skip_cursor : ℤ → String
  skip_cursor (pos n) = if n == 0 then "" else tx.format_int (pos n)
  skip_cursor (negsuc n) = ""

  unfoldable pub raw_cursor : String → String → Option String
  raw_cursor secret cursor =
      if str_eq secret ""
      then some cursor
      else (elim (verify is_nameless (tx.mac) (tx.encode) (tx.decode) cursor (tx.bytes secret)) [
        | none ↦ none
        | some skip ↦ some (skip_cursor skip)
      ])

  abbrev pub tags_of : String → List String
  tags_of text = if str_eq text "" then [] else tx.split_comma text

module _ (fl : Float) (st : Strings) (tx : Texts) (e : Machine fl) {S : Type 0}
    (v : Server (fl.Number) S) where
  open fl use {Number}

  unfoldable pub handle_recall : Option RecallRequest → S → S × Response Number
  unfolding Serving.recalled
  handle_recall none s = (s, refused 400 "invalid request body")
  handle_recall (some req) s =
      if str_eq req.message ""
      then (s, refused 400 "message is required")
      else (elim (v.backend.embed req.message) [
        | none ↦ (s, refused 500 "failed to generate embedding")
        | some vec ↦ elim (v.backend.search vec 50 (project_filter req.project) s) [
          | none ↦ (s, refused 500 "failed to search memories")
          | some hits ↦
              let (t, context) =
                Serving.recalled fl st e v.backend req.message req.project
                  (positive_or 2000 req.budget) hits s in
              (t, recalled context)
        ]
      ])

  unfoldable pub handle_search : Option SearchRequest → S → S × Response Number
  unfolding filters_of
  handle_search none s = (s, refused 400 "invalid request body")
  handle_search (some req) s =
      if str_eq req.message ""
      then (s, refused 400 "message is required")
      else (elim (v.backend.embed req.message) [
        | none ↦ (s, refused 500 "failed to generate embedding")
        | some vec ↦
            if invalid is_valid_memory_type req.type
            then (s, refused 400 "invalid type filter")
            else (if invalid is_valid_memory_scope req.scope
                then (s, refused 400 "invalid scope filter")
                else (elim (v.backend.search vec (at_most 1000 (positive_or 10 req.limit))
                    (filters_of req.type req.scope req.project req.tags) s) [
                      | none ↦ (s, refused 500 "failed to search memories")
                      | some hits ↦ (s, results hits)
                    ]))
      ])

  -- The store's page at a cursor, with its next cursor signed.
  unfoldable pub answer_page : ListQuery → ℕ → String → S → S × Response Number
  unfolding filters_of sign_cursor
  answer_page q limit cursor s =
      elim (v.backend.list (filters_of q.type q.scope q.project (tags_of tx q.tags)) limit cursor
        s) [
          | none ↦ (s, refused 500 "failed to list memories")
          | some (ms, next) ↦ (s, memories ms (sign_cursor tx v.cursor_secret next))
        ]

  unfoldable pub handle_list : ListQuery → S → S × Response Number
  unfolding list_limit raw_cursor answer_page
  handle_list q s =
      if invalid is_valid_memory_type q.type
      then (s, refused 400 "invalid type filter")
      else (if invalid is_valid_memory_scope q.scope
          then (s, refused 400 "invalid scope filter")
          else (elim (list_limit tx q.limit) [
            | none ↦ (s, refused 400 "limit must be a positive integer")
            | some limit ↦ elim (raw_cursor tx v.cursor_secret q.cursor) [
              | none ↦ (s, refused 400 "invalid cursor")
              | some cursor ↦ answer_page q limit cursor s
            ]
          ]))

  unfoldable pub handle_stats : S → S × Response Number
  handle_stats s = elim (v.backend.stats s) [
    | none ↦ (s, refused 500 "failed to get stats")
    | some c ↦ (s, statistics c)
  ]

  unfoldable pub handle_search_entities : EntityQuery → S → S × Response Number
  unfolding entity_limit
  handle_search_entities q s =
      elim (v.backend.search_entities q.query q.type (entity_limit tx q.limit) s) [
        | none ↦ (s, refused 500 "failed to search entities")
        | some es ↦ (s, entities es)
      ]

  unfoldable pub handle_get_entity : String → S → S × Response Number
  handle_get_entity id s = elim (v.backend.get_entity id s) [
    | missing ↦ (s, refused 404 "entity not found")
    | broken ↦ (s, refused 500 "internal error")
    | found x ↦ (s, one_entity x)
  ]
