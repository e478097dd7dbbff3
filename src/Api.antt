-- ===== src/Api.antt =====
-- The HTTP API of internal/api: the requests, the answers and the server's settings.
pub mod Memories
pub mod Queries
pub mod Routes
pub mod Refusals
pub mod Paging
pub mod Writes
pub mod RateLimit
mod Tests
use openclaw_cortex.Base.{
  ℕ, String, Bool, true, false, Option, none, some, List, [], ◌∷◌, if◌then◌else◌, str_eq,
}
use openclaw_cortex.Base.Int.{ℤ}
use openclaw_cortex.Models.{Memory, SearchResult, Entity, CollectionStats}
use openclaw_cortex.Serving.{Backend}

-- The bodies, after the JSON decoder. A pointer is an option.
pub record RememberRequest (F : Type 0) : Type 0 where
  pub content : String
  pub type : String
  pub scope : String
  pub tags : List String
  pub project : String
  pub confidence : F

pub record RecallRequest : Type 0 where
  pub message : String
  pub project : String
  pub budget : ℤ

-- `tags` is `none` for the nil slice.
pub record UpdateRequest (F : Type 0) : Type 0 where
  pub content : String
  pub type : String
  pub scope : String
  pub tags : Option (List String)
  pub project : Option String
  pub confidence : Option F

pub record SearchRequest : Type 0 where
  pub message : String
  pub limit : ℤ
  pub project : String
  pub type : String
  pub scope : String
  pub tags : List String

-- The query parameters of a list, "" where they are not given.
pub record ListQuery : Type 0 where
  pub type : String
  pub scope : String
  pub project : String
  pub tags : String
  pub limit : String
  pub cursor : String

pub record EntityQuery : Type 0 where
  pub query : String
  pub type : String
  pub limit : String

-- The routes; `none` is a body that does not decode.
pub data Call (F : Type 0) : Type 0 where
  healthz : Call F
  remember : Option (RememberRequest F) → Call F
  recall : Option RecallRequest → Call F
  list_memories : ListQuery → Call F
  get_memory : String → Call F
  update_memory : String → Option (UpdateRequest F) → Call F
  delete_memory : String → Call F
  search : Option SearchRequest → Call F
  get_stats : Call F
  get_entity : String → Call F
  search_entities : EntityQuery → Call F

-- The answers of status 200 by their bodies, and the others by status and message. The texts of a
-- recall are those that the separator joins.
pub data Response (F : Type 0) : Type 0 where
  refused : ℕ → String → Response F
  healthy : Response F
  remembered : String → Response F
  recalled : List String → Response F
  one_memory : Memory F → Response F
  deleted : Response F
  memories : List (Memory F) → String → Response F
  results : List (SearchResult F) → Response F
  statistics : CollectionStats → Response F
  one_entity : Entity F → Response F
  entities : List (Entity F) → Response F

abbrev pub is_refused : {F : Type 0} → Response F → Bool
is_refused (refused status text) = true
is_refused _ = false

-- The packages strconv, strings and cursor as they are called here. `parse_uint`, `atoi` and
-- `parse_int` are strconv's, the last with its value on an error; `cut_bearer` is
-- strings.CutPrefix(header, "Bearer "), `split_comma` strings.Split(tags, ",").
pub record Texts : Type 0 where
  pub parse_uint : String → Option ℕ
  pub atoi : String → Option ℤ
  pub parse_int : String → ℤ
  pub format_int : ℤ → String
  pub cut_bearer : String → Option String
  pub split_comma : String → List String
  pub bytes : String → List ℕ
  pub mac : List ℕ → List ℕ → List ℕ
  pub encode : List ℕ → String
  pub decode : String → Option (List ℕ)

pub record Server (F S : Type 0) : Type 0 where
  pub backend : Backend F S
  pub auth_token : String
  pub cursor_secret : String

-- `if s == "" { s = fallback }`
abbrev pub or_default : String → String → String
or_default fallback s = if str_eq s "" then fallback else s

-- A filter that is set where the text is not empty.
abbrev pub given : String → Option String
given s = if str_eq s "" then none else some s
