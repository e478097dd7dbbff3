-- ===== src/Store/Tests.antt =====
-- internal/store: the theorems at concrete memories.
use openclaw_cortex.Store.Dedup.{check_and_handle_duplicate}
use openclaw_cortex.Store.Dedup.Outcomes.{in_memory_dedup, dedup_outcome}
use openclaw_cortex.Store.Mock.{MockStore, find_duplicates, cosine_similarity, sums}
use openclaw_cortex.Samples.{whole}
use openclaw_cortex.Models.{SearchResult}
use openclaw_cortex.Base.{
  String, true, ◌<◌, ◌≤◌, values, if◌then◌else◌, str_eq, ◌⊎◌, ℕ, ◌≤◌, ◌<◌, ◌⊎◌, false, none, some,
  List, [], ◌∷◌, ◌≡◌, refl, leb, ◌==◌, ◌&&◌,
}
use openclaw_cortex.Models.{Memory}
use openclaw_cortex.Store.Mock.Stats.{stats}
use openclaw_cortex.Store.Mock.Stats.Counts.{tally, counting, ends_in_a_day, stats-counts}
use openclaw_cortex.Store.Filters.{SearchFilters, no_filters}
use openclaw_cortex.Store.Mock.{ok, get}
use openclaw_cortex.Store.Mock.Chain.{get_chain, get_chain_total, Walks}
use openclaw_cortex.Samples.{memory_a, memory_b, stored_a}

abbrev secret : Memory ℕ
secret = record memory_a { visibility = "sensitive" }

abbrev asks_secret : SearchFilters
asks_secret = record no_filters { visibility = some "sensitive" }

abbrev own_project : SearchFilters
own_project = record no_filters { project = some "p"; user_id = "u" }

-- Every string is as long as the texts of the tests say.
abbrev bytes : String → ℕ
bytes t = if str_eq t "longer text" then 11 else 4

abbrev store_b : MockStore ℕ
store_b = record {
  memories = ("b", record { memory = memory_b; vector = 1 ∷ [] }) ∷ ("a", stored_a) ∷ [];
  entities = [];
}

get_chain_total_example :
    (c : List (Memory ℕ)) × (get_chain "b" store_b ≡ some c) × Walks store_b [] "b" c
get_chain_total_example = get_chain_total "b" store_b

abbrev match_b : SearchResult ℕ
match_b = record { memory = memory_b; score = 1; original_similarity = none }

abbrev match_a : SearchResult ℕ
match_a = record { memory = memory_a; score = 1; original_similarity = none }

dedup_outcome_example :
    let (t, r) =
      check_and_handle_duplicate whole
        (in_memory_dedup whole bytes)
        bytes
        (λ less ms. ms)
        9
        (1 ∷ [])
        "longer text"
        1
        store_b in
    ((t ≡ store_b)
      × (11 ≤ 4)
      × (r ≡ some (record { is_duplicate = true; is_updated = false; existing_id = "b" })))
    ⊎ ((get "b" t
          ≡ ok (record memory_b {
            content = "longer text";
            updated_at = 9;
            is_current_version = true;
          }))
        × (4 < 11)
        × (r ≡ some (record { is_duplicate = false; is_updated = true; existing_id = "b" })))
unfolding find_duplicates cosine_similarity sums values
dedup_outcome_example =
    dedup_outcome whole bytes (λ less ms. ms) 9 (1 ∷ []) "longer text" 1 store_b match_b match_b
      (match_a ∷ []) (match_a ∷ []) refl refl

stats-counts_example :
    let c = stats (λ content. content) 9 store_b in
    (tally "fact" c.by_type ≡ counting (λ x. str_eq x.type "fact") store_b.memories)
    × (tally "fact" c.by_scope ≡ counting (λ x. str_eq x.scope "fact") store_b.memories)
    × (tally "0" c.reinforcement_tiers ≡ counting (λ x. x.reinforced_count == 0) store_b.memories)
    × (tally "1-3" c.reinforcement_tiers
        ≡ counting (λ x. leb 1 x.reinforced_count && leb x.reinforced_count 3) store_b.memories)
    × (tally "4-10" c.reinforcement_tiers
        ≡ counting (λ x. leb 4 x.reinforced_count && leb x.reinforced_count 10) store_b.memories)
    × (tally "10+" c.reinforcement_tiers
        ≡ counting (λ x. leb 11 x.reinforced_count) store_b.memories)
    × (c.active_conflicts ≡ counting (λ x. str_eq x.conflict_status "active") store_b.memories)
    × (c.pending_ttl_expiry ≡ counting (ends_in_a_day 9) store_b.memories)
    × (c.total_memories ≡ 2)
stats-counts_example = stats-counts (λ content. content) 9 store_b "fact"
