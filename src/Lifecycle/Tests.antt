-- ===== src/Lifecycle/Tests.antt =====
-- internal/lifecycle: the theorems at concrete memories.
use openclaw_cortex.Base.{
  ℕ, values, String, Bool, true, false, Option, Option-cases, lookup, lookup-erase, none, some, [],
  ◌∷◌, ◌≡◌, refl, inl, inr, arith, take, if◌then◌else◌, str_eq,
}
use openclaw_cortex.Base.Sort.{exchange_sort}
use openclaw_cortex.Store.Filters.{matches_filters, hidden}
use openclaw_cortex.Store.Mock.{MockStore, Stored, delete, listed}
use openclaw_cortex.Lifecycle.{max_list_all_memories, list_all, Access}
use openclaw_cortex.Lifecycle.Pages.InMemory.{in_memory, list_all-listed}
use openclaw_cortex.Lifecycle.Consolidation.{merge_all, is_deleted}
use openclaw_cortex.Lifecycle.Consolidation.Champion.{best_survives}
use openclaw_cortex.Lifecycle.Manager.{run}
use openclaw_cortex.Lifecycle.Manager.DryRun.{dry_run_changes_nothing}
use openclaw_cortex.Samples.{whole, memory_a, memory_b, store_a}

abbrev any_order : String → String → Bool
any_order a b = false

-- A store that fails on the second page.
abbrev two_pages : Access ℕ (MockStore ℕ)
two_pages = record (in_memory any_order) {
  list = λ f limit cursor s. if str_eq cursor "" then some (memory_a ∷ [], "a") else none;
}

list_all-listed_example :
    list_all (in_memory any_order) none store_a
    ≡ some (some (take max_list_all_memories (listed any_order none store_a)))
unfolding listed matches_filters hidden exchange_sort values
list_all-listed_example = list_all-listed any_order none store_a (refl, tt, tt)

-- What a store has under the id `a`.
abbrev read_a : MockStore ℕ → Option (Stored ℕ)
read_a s = lookup "a" s.memories

lookup-delete :
    (id : String) (s : MockStore ℕ)
    → str_eq id "a" ≡ false
    → lookup "a" (delete id s).0.memories ≡ lookup "a" s.memories
unfolding delete
lookup-delete id s h = elim (Option-cases (lookup id s.memories)) [
  | inl n ↦ rw (n, delete) refl
  | inr (sm, n) ↦ rw (n, delete) (ground (arith, h, lookup-erase id "a" s.memories))
]

abbrev store_ab : MockStore ℕ
store_ab = record store_a {
  memories = ("b", record { memory = memory_b; vector = 1 ∷ [] }) ∷ store_a.memories;
}

best_survives_example :
    let r =
      merge_all whole
        (in_memory any_order)
        false
        ((memory_b, 1 ∷ []) ∷ (memory_a, 1 ∷ []) ∷ [])
        []
        0
        store_ab in
    (is_deleted whole (in_memory any_order) r.1 (memory_a, 1 ∷ []) ≡ false)
    × (read_a r.0 ≡ read_a store_ab)
best_survives_example =
    best_survives whole (in_memory any_order) false (memory_a, 1 ∷ []) read_a lookup-delete
      ((memory_b, 1 ∷ []) ∷ (memory_a, 1 ∷ []) ∷ []) [] 0 store_ab (λ x y h. ground (arith, h))
      (inr ((refl, refl), inl (refl, tt))) refl

dry_run_changes_nothing_example :
    (run whole (in_memory any_order) none (λ less ms. ms) 100 100 100 true store_a).0 ≡ store_a
dry_run_changes_nothing_example =
    dry_run_changes_nothing whole (in_memory any_order) none (λ less ms. ms) 100 100 100 store_a
