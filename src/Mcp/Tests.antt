-- ===== src/Mcp/Tests.antt =====
-- internal/mcp: the theorems at concrete calls.
use openclaw_cortex.Base.{ℕ, some, false, ◌≡◌, refl}
use openclaw_cortex.Base.Int.{pos}
use openclaw_cortex.Store.Mock.{MockStore}
use openclaw_cortex.Serving.{Backend}
use openclaw_cortex.Serving.InMemory.{in_memory_backend}
use openclaw_cortex.Api.Queries as Queries
use openclaw_cortex.Mcp.{handle_recall}
use openclaw_cortex.Mcp.Parity.{tools, api, Alike, recall-parity}
use openclaw_cortex.Samples.{whole, words, store_a, recaller_b, machine, texts, embed_one}

abbrev backend : Backend ℕ (MockStore ℕ)
backend = in_memory_backend whole words embed_one (λ a b. false) (λ s. s) 9 recaller_b

recall-parity_example :
    let by_tool =
      handle_recall whole words machine
        (tools whole words texts machine backend "" "")
        "text"
        "p"
        (some (pos 0))
        store_a in
    let by_http =
      Queries.handle_recall whole words texts machine
        (api whole words texts machine backend "" "")
        (some (record { message = "text"; project = "p"; budget = pos 0 }))
        store_a in
    (by_tool.0 ≡ by_http.0) × Alike whole words texts machine backend "" "" by_tool.1 by_http.1
recall-parity_example =
    recall-parity whole words texts machine backend "" "" "text" "p" (pos 0) store_a refl refl
