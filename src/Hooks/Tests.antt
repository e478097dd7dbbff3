-- ===== src/Hooks/Tests.antt =====
-- internal/hooks: the theorems at concrete turns.
use openclaw_cortex.Capture.ConflictDetector.{ConflictDetector}
use openclaw_cortex.Hooks.PostTurn.{tag_conflict}
use openclaw_cortex.Hooks.PostTurn.Tagged.{guarded, Tagged, tag_conflict-Tagged}
use openclaw_cortex.Base.{
  ◌⊎◌, true, ℕ, ◌-◌, String, Bool, none, some, List, [], ◌∷◌, ◌≡◌, refl, lookup, values,
}
use openclaw_cortex.Base.Sort.{exchange_sort}
use openclaw_cortex.Base.Sort.Laws.{exchange_sort-perm}
use openclaw_cortex.Store.Mock.{MockStore, find_duplicates, cosine_similarity, sums}
use openclaw_cortex.Recall.{RecallResult}
use openclaw_cortex.Recall.Scores.{higher}
use openclaw_cortex.Hooks.PreTurn.{PreTurnInput, PreTurnOutput, PreTurnHook, execute}
use openclaw_cortex.Hooks.PreTurn.Shown.{in_memory_hook, Turn, execute-Turn}
use openclaw_cortex.Hooks.PostTurn.{
  CapturedMemory, PipelineDeps, Embedding, vector, Fresh, skipped, check, check_vector, reinforce,
  has_duplicate, commit, process_single_memory,
}
use openclaw_cortex.Hooks.PostTurn.Duplicates.{
  Holds, in_memory_pipeline, process_single_memory-skips, commit-race,
}
use openclaw_cortex.Store.Mock.{new_mock_store}
use openclaw_cortex.Samples.{whole, words, stored_a, store_a, recaller_b}

abbrev since : ℕ → ℕ → ℕ
since now earlier = now - earlier

abbrev sorted :
    (RecallResult ℕ → RecallResult ℕ → Bool) → List (RecallResult ℕ) → List (RecallResult ℕ)
sorted less xs = exchange_sort less xs

abbrev lengths : String → ℕ
lengths s = 7

abbrev turn : PreTurnInput
turn = record { message = "text"; project = "p"; token_budget = 0 }

abbrev hook : PreTurnHook ℕ (MockStore ℕ)
hook =
    in_memory_hook whole words lengths (λ n. n) since 9 sorted (exchange_sort-perm (higher whole))
      (λ text. some (1 ∷ [])) recaller_b none 0

execute-Turn_example :
    (t : MockStore ℕ) × (output : PreTurnOutput ℕ) × (execute whole words lengths
        (λ n. n)
        since
        9
        sorted
        hook
        turn
        store_a
      ≡ (t, some output))
    × Turn whole words lengths
        (λ n. n)
        since
        9
        sorted
        (exchange_sort-perm (higher whole))
        hook
        turn
        (1 ∷ [])
        store_a
        t
        output
execute-Turn_example =
    execute-Turn whole words lengths (λ n. n) since 9 sorted (exchange_sort-perm (higher whole))
      (λ text. some (1 ∷ [])) recaller_b none 0 turn (1 ∷ []) store_a refl

abbrev captured : CapturedMemory ℕ
captured = record { content = "text"; type = "fact"; confidence = 1; tags = [] }

abbrev embed_one : String → Embedding ℕ
embed_one text = vector (1 ∷ [])

abbrev fresh_x : Fresh
fresh_x = record { now = 9; id = "x"; group_id = "g" }

abbrev fresh_y : Fresh
fresh_y = record { now = 9; id = "y"; group_id = "h" }

abbrev pipeline : PipelineDeps ℕ (MockStore ℕ)
pipeline = in_memory_pipeline whole 9 (λ s. "fact") embed_one none 1 0 1 "p"

a-Holds : Holds "a" (1 ∷ []) store_a
unfolding lookup
a-Holds = record { entry = stored_a; here = refl; same = refl }

process_single_memory-skips_example :
    (process_single_memory whole pipeline fresh_x captured store_a).1 ≡ skipped
unfolding cosine_similarity sums
process_single_memory-skips_example =
    process_single_memory-skips whole 9 (λ s. "fact") embed_one none 1 0 1 "p" fresh_x captured "a"
      (1 ∷ []) store_a refl refl a-Holds

commit-race_example :
    Holds "x"
      (1 ∷ [])
      (commit whole pipeline fresh_y captured
        (check whole pipeline captured new_mock_store).1
        (process_single_memory whole pipeline fresh_x captured new_mock_store).0).0
    × Holds "y"
        (1 ∷ [])
        (commit whole pipeline fresh_y captured
          (check whole pipeline captured new_mock_store).1
          (process_single_memory whole pipeline fresh_x captured new_mock_store).0).0
    × ((process_single_memory whole pipeline fresh_y captured
          (process_single_memory whole pipeline fresh_x captured new_mock_store).0).1
        ≡ skipped)
unfolding check check_vector reinforce has_duplicate find_duplicates cosine_similarity sums values
commit-race_example =
    commit-race whole 9 (λ s. "fact") embed_one none 1 0 1 "p" fresh_x fresh_y captured "fact"
      (1 ∷ []) new_mock_store refl refl refl refl

abbrev detector : ConflictDetector
detector = record {
  complete = λ system prompt. some prompt;
  unmarshal = λ text. some (record { contradicts = true; contradicted_id = "a"; reason = "" });
  escape = λ s. s;
  fill = λ new existing. existing;
}

tag_conflict-Tagged_example :
    let tagged =
      tag_conflict whole
        (guarded whole words detector pipeline)
        fresh_x
        captured
        (1 ∷ [])
        store_a in
    (tagged ≡ (store_a, "")) ⊎ Tagged whole words detector pipeline fresh_x (1 ∷ []) store_a tagged
tag_conflict-Tagged_example =
    tag_conflict-Tagged whole words detector pipeline fresh_x captured (1 ∷ []) store_a
