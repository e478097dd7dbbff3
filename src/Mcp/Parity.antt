-- ===== src/Mcp/Parity.antt =====
-- internal/mcp/server.go against internal/api/server.go, over one store.
use openclaw_cortex.Base.{String, true, false, some, ◌≡◌, refl, Option-cases, inl, inr, str_eq}
use openclaw_cortex.Base.Int.{ℤ}
use openclaw_cortex.Base.Float.{Float}
use openclaw_cortex.Base.Strings.{Strings}
use openclaw_cortex.Hooks.PreTurn.{project_filter}
use openclaw_cortex.Serving.{Backend, Machine}
use openclaw_cortex.Api.{Texts, Response, RecallRequest}
use openclaw_cortex.Api as Api
use openclaw_cortex.Api.Queries as Queries
use openclaw_cortex.Mcp.{
  ToolResult, tool_error, recalled, Server, is_blank, unavailable, handle_recall,
}

module _ (fl : Float) (st : Strings) (tx : Texts) (e : Machine fl) {S : Type 0}
    (b : Backend (fl.Number) S) (token secret : String) where
  open fl use {Number}

  abbrev pub tools : Server Number S
  tools = record { backend = b; has_store = true; has_embedder = true; has_recaller = true }

  abbrev pub api : Api.Server Number S
  api = record { backend = b; auth_token = token; cursor_secret = secret }

  -- The contexts of the two answers are the same, or neither has one.
  abbrev pub Alike : ToolResult Number → Response Number → Type 0
  Alike (recalled xs) (Response.recalled ys) = xs ≡ ys
  Alike (tool_error text) (Response.refused status reason) = Unit {0}
  Alike _ _ = ⊥

  -- The recall of the MCP server and that of the HTTP API with the same message, project and budget
  -- leave the same store, and answer with the same context or both with an error, if everything is
  -- given and the message is not blank.
  pub recall-parity :
      (message project : String) (budget : ℤ) (s : S)
      → is_blank fl st e tools message ≡ false
      → str_eq message "" ≡ false
      → let by_tool = handle_recall fl st e tools message project (some budget) s in
        let by_http =
          Queries.handle_recall fl st tx e api
            (some (record { message = message; project = project; budget = budget }))
            s in
        (by_tool.0 ≡ by_http.0) × Alike by_tool.1 by_http.1
  unfolding handle_recall Queries.handle_recall unavailable
  recall-parity message project budget s named text = elim (Option-cases (b.embed message)) [
    | inl n ↦ rw (named, text) (rw (n, handle_recall) (refl, tt))
    | inr (vec, n) ↦ elim (Option-cases (b.search vec 50 (project_filter project) s)) [
      | inl k ↦ rw (named, text) (rw (n, handle_recall) (rw (k, handle_recall) (refl, tt)))
      | inr (hits, k) ↦
          rw (named, text) (rw (n, handle_recall) (rw (k, handle_recall) (refl, refl)))
    ]
  ]
