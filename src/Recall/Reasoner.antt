-- ===== src/Recall/Reasoner.antt =====
-- internal/recall/reasoner.go `ReRank`: the language model's order of the first candidates.
pub mod Laws
use openclaw_cortex.Base.{
  ℕ, zero, suc, String, Bool, true, false, not, ◌||◌, Option, none, some, List, [], ◌∷◌, ◌++◌, any,
  ltb, ◌==◌, if◌then◌else◌, length, get_elem?, take, drop, str_eq,
}
use openclaw_cortex.Base.Int.{ℤ, pos, negsuc}

abbrev pub default_reasoner_candidates : ℕ
default_reasoner_candidates = 10

abbrev pub seen_index : List ℕ → ℕ → Bool
seen_index seen i = any (λ j. j == i) seen

module _ {R : Type 0} where
  -- An index in range that is not seen yet takes its candidate.
  unfoldable pub add_index : List R → ℤ → List R × List ℕ → List R × List ℕ
  add_index candidates (negsuc n) acc = acc
  add_index candidates (pos i) (reranked, seen) = elim (get_elem? candidates i) [
    | none ↦ (reranked, seen)
    | some r ↦ if seen_index seen i then (reranked, seen) else (reranked ++ r ∷ [], i ∷ seen)
  ]

  unfoldable pub add_order : List R → List ℤ → List R × List ℕ → List R × List ℕ
  unfolding add_index
  add_order candidates [] acc = acc
  add_order candidates (i ∷ is') acc = add_order candidates is' (add_index candidates i acc)

  -- The candidates, from the i-th on, whose index is not seen.
  unfoldable pub omitted : List ℕ → ℕ → List R → List R
  omitted seen i [] = []
  omitted seen i (r ∷ rs) =
      let rest = omitted seen (suc i) rs in if seen_index seen i then rest else r ∷ rest

  unfoldable pub reorder : List R → List ℤ → List R
  unfolding add_order omitted
  reorder candidates order =
      let (reranked, seen) = add_order candidates order ([], []) in
      reranked ++ omitted seen 0 candidates

  -- `complete` is the model's answer about the candidates, trimmed; `unmarshal` the JSON parser.
  -- Errors give the order as it is. A maximum of 0 stands for those that are not positive.
  unfoldable pub re_rank :
      (List R → Option String) → (String → Option (List ℤ)) → List R → ℕ → List R
  unfolding reorder
  re_rank complete unmarshal [] max_candidates = []
  re_rank complete unmarshal (r ∷ rs) max_candidates =
      let results = r ∷ rs in
      let limit = if max_candidates == 0 then default_reasoner_candidates else max_candidates in
      elim (complete (take limit results)) [
        | none ↦ results
        | some text ↦ if str_eq text "" then results else (elim (unmarshal text) [
          | none ↦ results
          | some order ↦ reorder (take limit results) order ++ drop limit results
        ])
      ]
