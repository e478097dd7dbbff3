-- ===== src/Recall/Tests.antt =====
-- internal/recall: the theorems at concrete memories.
use mathlib.Core.List.{Permᴰ}
use openclaw_cortex.Base.{
  ℕ, ◌-◌, String, true, none, some, [], ◌∷◌, ◌≡◌, refl, ap, ◌∙◌, sym, eq_iff, str_eq, Bool, List,
  if◌then◌else◌, Bool-cases, inl, inr,
}
use openclaw_cortex.Base.Int.{pos}
use openclaw_cortex.Base.Once.{has_key}
use openclaw_cortex.Base.Sort.{exchange_sort}
use openclaw_cortex.Base.Sort.Laws.{exchange_sort-perm}
use openclaw_cortex.Models.{Memory}
use openclaw_cortex.Recall.{RecallResult, graph_depth_or_default}
use openclaw_cortex.Recall.Scores.{higher}
use openclaw_cortex.Recall.Merge.{recall_with_graph, graph_answer}
use openclaw_cortex.Recall.Merge.Laws.{Sound, recalled_id, recall_with_graph-Sound}
use openclaw_cortex.Recall.Merge.Unfiltered.{recall_with_graph-adds}
use openclaw_cortex.Recall.Reasoner.{re_rank}
use openclaw_cortex.Recall.Reasoner.Laws.{re_rank-perm}
use openclaw_cortex.Samples.{whole, words, memory_b, found_a, client_ab, get_b, recaller_b}

get_b-faithful : (id : String) (m : Memory ℕ) → get_b id ≡ some m → m.id ≡ id
get_b-faithful id m e = elim (Bool-cases (str_eq id "b")) [
  | inl h ↦
      (let found : some memory_b ≡ some m =
          sym (ap (λ c. if c then some memory_b else none) h) ∙ e in
        sym (ap (λ o. elim o [ none ↦ "b" | some x ↦ x.id ]) found) ∙ sym ((eq_iff id "b").0 h))
  | inr h ↦
      (let found : none ≡ some m = sym (ap (λ c. if c then some memory_b else none) h) ∙ e in cc)
]

abbrev apart : ℕ → ℕ → ℕ
apart now then' = now - then'

abbrev sorted :
    (RecallResult ℕ → RecallResult ℕ → Bool) → List (RecallResult ℕ) → List (RecallResult ℕ)
sorted less xs = exchange_sort less xs

recall_with_graph-Sound_example :
    Sound whole recaller_b get_b-faithful
      (found_a ∷ [])
      (recall_with_graph whole words apart 9 sorted recaller_b "p" "text" (found_a ∷ []))
recall_with_graph-Sound_example =
    recall_with_graph-Sound whole recaller_b get_b-faithful (found_a ∷ []) words apart 9 sorted
      (exchange_sort-perm (higher whole)) "p" "text" (refl, tt)

recall_with_graph-adds_example :
    has_key recalled_id "b"
      (recall_with_graph whole words apart 9 sorted recaller_b "p" "text" (found_a ∷ []))
    ≡ true
unfolding graph_answer graph_depth_or_default
recall_with_graph-adds_example =
    recall_with_graph-adds whole recaller_b get_b-faithful (found_a ∷ []) words apart 9 sorted
      (exchange_sort-perm (higher whole)) "p" "text" client_ab ("a" ∷ "b" ∷ [])
      (some (("a", pos 1) ∷ ("b", pos 2) ∷ [])) "b" memory_b refl refl (refl, tt) refl refl

-- The answer repeats an index and leaves one out.
re_rank-perm_example :
    Permᴰ {A = String}
      (re_rank
        (λ cs. some "answer")
        (λ t. some (pos 2 ∷ pos 2 ∷ pos 0 ∷ pos 7 ∷ []))
        ("x" ∷ "y" ∷ "z" ∷ [])
        0)
      ("x" ∷ "y" ∷ "z" ∷ [])
re_rank-perm_example =
    re_rank-perm (λ cs. some "answer") (λ t. some (pos 2 ∷ pos 2 ∷ pos 0 ∷ pos 7 ∷ []))
      ("x" ∷ "y" ∷ "z" ∷ []) 0
