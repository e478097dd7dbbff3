-- ===== src/Store/Mock/Stats.antt =====
-- internal/store/mock_store.go `Stats`.
pub mod Counts
use openclaw_cortex.Base.{
  ℕ, ◌+◌, ◌*◌, ◌<◌, String, Bool, true, false, not, ◌&&◌, Option, none, some, List, [], ◌∷◌, map,
  ltb, leb, ◌==◌, if◌then◌else◌, length, take, Map, lookup, insert, str_eq,
}
use openclaw_cortex.Base.Sort.{exchange_sort}
use openclaw_cortex.Models.{Memory, MemoryPreview, CollectionStats}
use openclaw_cortex.Store.Mock.{Stored, MockStore}

abbrev pub count_of : Option ℕ → ℕ
count_of none = 0
count_of (some n) = n

-- `m[k]++`
unfoldable pub increment : String → Map ℕ → Map ℕ
increment k m = insert k (count_of (lookup k m) + 1) m

abbrev day_in_ns : ℕ
day_in_ns = 86400000000000

abbrev pub tier_of : ℕ → String
tier_of n =
    if n == 0
    then "0"
    else (if leb 1 n && leb n 3 then "1-3" else if leb 4 n && leb n 10 then "4-10" else "10+")

abbrev older : ℕ → Option ℕ → Option ℕ
older t none = some t
older t (some u) = some (if ltb t u then t else u)

abbrev pub newer : ℕ → Option ℕ → Option ℕ
newer t none = some t
newer t (some u) = some (if ltb u t then t else u)

module _ {F : Type 0} where
  abbrev pub is_pending : ℕ → Memory F → Bool
  is_pending now mem =
      str_eq mem.scope "ttl" && not (mem.valid_until == 0) && ltb mem.valid_until (now + day_in_ns)

  unfoldable pub add_memory : ℕ → Memory F → CollectionStats → CollectionStats
  unfolding increment
  add_memory now mem c = record c {
    by_type = increment mem.type c.by_type;
    by_scope = increment mem.scope c.by_scope;
    oldest_memory =
        if mem.created_at == 0 then c.oldest_memory else older mem.created_at c.oldest_memory;
    newest_memory =
        if mem.created_at == 0 then c.newest_memory else newer mem.created_at c.newest_memory;
    reinforcement_tiers = increment (tier_of mem.reinforced_count) c.reinforcement_tiers;
    active_conflicts = c.active_conflicts + (if str_eq mem.conflict_status "active" then 1 else 0);
    pending_ttl_expiry = c.pending_ttl_expiry + (if is_pending now mem then 1 else 0);
  }

  unfoldable pub add_memories : ℕ → Map (Stored F) → CollectionStats → CollectionStats
  unfolding add_memory
  add_memories now [] c = c
  add_memories now ((id, sm) ∷ m) c = add_memories now m (add_memory now sm.memory c)

  -- `preview` cuts a content to 80 bytes.
  unfoldable pub top : (String → String) → Map (Stored F) → List MemoryPreview
  top preview m = take 5 (
      map
        (λ (id, mem). record {
          id = id;
          content = preview mem.content;
          access_count = mem.access_count;
        })
        (exchange_sort
          (λ (a : String × Memory F) (b : String × Memory F). ltb b.1.access_count a.1.access_count)
          (map (λ (id, sm). (id, sm.memory)) m)))

  unfoldable pub stats : (String → String) → ℕ → MockStore F → CollectionStats
  unfolding add_memories top
  stats preview now s =
      let total = length s.memories in
      let counted = add_memories now s.memories (record {
        total_memories = total;
        by_type = [];
        by_scope = [];
        oldest_memory = none;
        newest_memory = none;
        top_accessed = [];
        reinforcement_tiers = [];
        active_conflicts = 0;
        pending_ttl_expiry = 0;
        storage_estimate = total * 768 * 4;
      }) in
      record counted { top_accessed = top preview s.memories }
