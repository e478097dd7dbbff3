-- ===== src/Base/Sort.antt =====
-- The exchange sort of mock_store.go: `for i, for j > i: if less(all[j], all[i]) swap`.
pub mod Laws
use openclaw_cortex.Base.{ℕ, zero, suc, Bool, List, [], ◌∷◌, if◌then◌else◌, length}

module _ {A : Type 0} (less : A → A → Bool) where
  -- The inner loop: position `i` holds `x`, the list is what follows it.
  unfoldable pub pass : A → List A → A × List A
  pass x [] = (x, [])
  pass x (y ∷ ys) =
      let (h, rest) = pass (if less y x then y else x) ys in (h, (if less y x then x else y) ∷ rest)

  -- The outer loop runs once for each element.
  unfoldable pub rounds : ℕ → List A → List A
  unfolding pass
  rounds zero xs = xs
  rounds (suc n) [] = []
  rounds (suc n) (x ∷ xs) = let (h, rest) = pass x xs in h ∷ rounds n rest

  unfoldable pub exchange_sort : List A → List A
  unfolding rounds
  exchange_sort xs = rounds (length xs) xs
