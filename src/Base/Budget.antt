-- ===== src/Base/Budget.antt =====
-- The loop that takes elements as long as a budget lasts, and stops at the first that is too much.
use openclaw_cortex.Base.{
  ℕ, suc, ◌+◌, ◌≤◌, ◌<◌, ◌⊎◌, List, [], ◌∷◌, ltb, if◌then◌else◌, length, take, ◌≡◌, refl, ap, arith,
  Bool-cases, inl, inr,
}

module _ {A : Type 0} (cost : A → ℕ) (budget : ℕ) where
  unfoldable pub within : ℕ → List A → List A
  within used [] = []
  within used (x ∷ xs) =
      let rest = within (used + cost x) xs in if ltb budget (used + cost x) then [] else x ∷ rest

module _ {A : Type 0} (cost : A → ℕ) where
  abbrev pub total : List A → ℕ
  total [] = 0
  total (x ∷ xs) = cost x + total xs

  -- The first elements whose cost the budget covers: all, or one more would be too much.
  abbrev pub Longest : ℕ → List A → List A → Type 0
  Longest budget xs taken =
      (take (length taken) xs ≡ taken)
      × (total taken ≤ budget)
      × ((taken ≡ xs) ⊎ (budget < total (take (suc (length taken)) xs)))

  module _ (budget : ℕ) where
    within_from :
        (used : ℕ) (xs : List A)
        → used ≤ budget
        → let taken = within cost budget used xs in
          (take (length taken) xs ≡ taken)
          × (used + total taken ≤ budget)
          × ((taken ≡ xs) ⊎ (budget < used + total (take (suc (length taken)) xs)))
    unfolding within
    within_from used [] h = (refl, omega (arith, h), inl refl)
    within_from used (x ∷ xs) h = elim (Bool-cases (ltb budget (used + cost x))) [
      | inl e ↦ rw e (refl, omega (arith, h), inr (ground (arith, e)))
      | inr e ↦
          (let more = within_from (used + cost x) xs (ground (arith, e)) in
            rw e (
              ap (◌∷◌ x) (more.0),
              omega (arith, more.1),
              elim (more.2) [ inl k ↦ inl (ap (◌∷◌ x) k) | inr k ↦ inr (omega (arith, k)) ],
            ))
    ]

    pub within-Longest : (xs : List A) → Longest budget xs (within cost budget 0 xs)
    within-Longest xs =
        let h = within_from 0 xs (omega arith) in
        (h.0, omega (arith, h.1), elim (h.2) [ inl k ↦ inl k | inr k ↦ inr (omega (arith, k)) ])
