-- ===== src/Tokenizer.antt =====
-- pkg/tokenizer/tokenizer.go. `len` is the length in bytes, `fields` strings.Fields and `truncated`
-- the conversion of a float64 to an int.

use openclaw_cortex.Base.{
  ℕ, ◌+◌, String, List, [], ◌∷◌, ◌==◌, ltb, if◌then◌else◌, length, str_eq, ◌||◌, true, false, ◌≡◌,
  refl, sym, subst, arith, Bool-cases, inl, inr,
}
use openclaw_cortex.Base.Budget.{within, Longest, within-Longest}
use openclaw_cortex.Base.Float.{Float}

module _ (fl : Float) (len : String → ℕ) (fields : String → List String)
    (truncated : fl.Number → ℕ) where
  open fl use {Number, lit, of_nat, times, divide, lt}

  unfoldable pub estimate_tokens : String → ℕ
  estimate_tokens text =
      let by_word = times (of_nat (length (fields text))) (lit 125 2) in
      let by_char = divide (of_nat (len text)) (lit 35 1) in
      let estimate = if lt by_word by_char then by_char else by_word in
      if str_eq text "" then 0 else truncated (times estimate (lit 11 1))

  -- With 2 for the separator.
  abbrev pub memory_tokens : String → ℕ
  memory_tokens mem = estimate_tokens mem + 2

  -- The memories that are joined by the separator; their number is the count. A budget of 0 stands
  -- for those that are not positive.
  unfoldable pub format_memories_with_budget : List String → ℕ → List String
  unfolding within
  format_memories_with_budget memories budget =
      if (budget == 0) || (length memories == 0) then [] else within memory_tokens budget 0 memories

  within_same :
      (memories : List String) (budget : ℕ)
      → format_memories_with_budget memories budget ≡ within memory_tokens budget 0 memories
  unfolding format_memories_with_budget
  within_same [] budget = ground arith
  within_same (m ∷ ms) budget = elim (Bool-cases (budget == 0)) [
    | inr e ↦
        (let some_memory : (length (m ∷ ms) == 0) ≡ false = ground arith in
          rw (e, some_memory) refl)
    | inl e ↦
        (let over : ltb budget (0 + memory_tokens m) ≡ true = ground (arith, e) in
          rw (e, over) refl)
  ]

  -- The memories that are shown are the longest beginning that the budget covers.
  pub format_memories_with_budget-Longest :
      (memories : List String) (budget : ℕ)
      → Longest memory_tokens budget memories (format_memories_with_budget memories budget)
  format_memories_with_budget-Longest memories budget =
      subst (Longest memory_tokens budget memories) (sym (within_same memories budget))
        (within-Longest memory_tokens budget memories)
