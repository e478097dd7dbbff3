-- ===== src/Api/Tests.antt =====
-- internal/api: the theorems at concrete requests.
use openclaw_cortex.Base.{
  ltb, keep, ◌-◌, String, List, Option, some, [], ◌∷◌, ℕ, false, none, some, [], ◌∷◌, ◌≡◌, ◌≢◌, ◌⊎◌,
  refl, arith, lookup,
}
use openclaw_cortex.Store.Mock.{Stored, MockStore, get, delete}
use openclaw_cortex.Api.{RememberRequest, UpdateRequest, refused, get_memory, Server}
use openclaw_cortex.Api.Memories.{check_patches, handle_update}
use openclaw_cortex.Api.RateLimit.{Limiting, Event, request, tick}
use openclaw_cortex.Api.RateLimit.Isolation.{concerns, answers, answers-keep}
use openclaw_cortex.Api.Routes.{Request, serve, handle}
use openclaw_cortex.Api.Refusals.{Harmless, Atomic, handle-Harmless, handle-authorized}
use openclaw_cortex.Api.Writes.{local, handle_update_loses_vector}
use openclaw_cortex.Samples.{whole, words, memory_a, store_a, recaller_b, machine, texts, embed_one}

-- The server over the store in memory.
abbrev server : Server ℕ (MockStore ℕ)
server = local whole words machine embed_one (λ a b. false) (λ s. s) recaller_b "token" ""

abbrev asks_missing : Request ℕ
asks_missing = record { authorization = "Bearer token"; call = get_memory "z" }

server-Atomic : Atomic (server.backend)
unfolding delete
server-Atomic = record {
  upsert_fails = λ now m vec s failed. cc;
  delete_fails = λ id s failed. ground (arith, failed);
}

handle-Harmless_example :
    Harmless store_a (handle whole words texts machine server asks_missing store_a)
handle-Harmless_example =
    handle-Harmless whole words texts machine server server-Atomic asks_missing store_a

handle-authorized_example :
    ((texts.cut_bearer "Bearer token" ≡ some "token")
      × (handle whole words texts machine server asks_missing store_a
          ≡ serve whole words texts machine server (get_memory "z") store_a))
    ⊎ ((texts.cut_bearer "Bearer token" ≢ some "token")
        × (handle whole words texts machine server asks_missing store_a
            ≡ (store_a, refused 401 "unauthorized")))
handle-authorized_example =
    handle-authorized whole words texts machine server asks_missing store_a refl (λ e. cc)

abbrev note_text : RememberRequest ℕ
note_text = record {
  content = "text";
  type = "";
  scope = "";
  tags = [];
  project = "p";
  confidence = 0;
}

abbrev new_tags : UpdateRequest ℕ
new_tags = record {
  content = "";
  type = "";
  scope = "";
  tags = some ("t" ∷ []);
  project = none;
  confidence = none;
}

handle_update_loses_vector_example :
    let t = (handle_update whole machine server "a" (some new_tags) store_a).0 in
    (sm : Stored ℕ) × (lookup "a" t.memories ≡ some sm) × (sm.vector ≡ [])
unfolding get lookup check_patches
handle_update_loses_vector_example =
    handle_update_loses_vector whole words machine embed_one (λ a b. false) (λ s. s) recaller_b
      "token" "" "a" new_tags memory_a store_a refl refl refl refl refl

-- A bucket of one token that is not filled again.
abbrev one_token : Limiting ℕ
one_token = record { new_limiter = 1; allow = λ now tokens. (tokens - 1, ltb 0 tokens) }

abbrev whole_address : String → Option String
whole_address address = some address

abbrev traffic : List Event
traffic =
    request 1 "/v1/stats" "a"
    ∷ request 2 "/v1/stats" "b"
    ∷ request 3 "/healthz" "a"
    ∷ request 4 "/v1/stats" "a"
    ∷ tick 5
    ∷ []

answers-keep_example :
    answers one_token whole_address "a" traffic []
    ≡ answers one_token whole_address "a" (keep (concerns one_token whole_address "a") traffic) []
answers-keep_example = answers-keep one_token whole_address "a" traffic [] [] tt tt refl
