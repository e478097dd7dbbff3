-- ===== src/Llm/Tests.antt =====
-- internal/llm: the theorems at a client that fails twice and then answers.
use openclaw_cortex.Base.{ℕ, zero, suc, ◌<◌, Bool, true, false, ◌≡◌, refl, inl, arith}
use openclaw_cortex.Base.Int.{pos}
use openclaw_cortex.Llm.Resilient.{
  Answer, text, http_error, other_error, returned, is_transient, complete_with_retry, is_fatal,
}
use openclaw_cortex.Llm.Resilient.Attempts.{deciding_attempt}

abbrev third_time : ℕ → Answer
third_time zero = http_error 429
third_time (suc zero) = other_error
third_time (suc (suc n)) = text "answer"

abbrev never : ℕ → Bool
never n = false

abbrev second_wait : ℕ → Bool
second_wait (suc (suc zero)) = true
second_wait _ = false

transient_before : (j : ℕ) → j < 2 → is_transient (third_time j) ≡ true
unfolding is_transient is_fatal
transient_before zero h = refl
transient_before (suc zero) h = refl
transient_before (suc (suc j)) h = absurd (omega (arith, h))

no_wait_before : (j : ℕ) → 0 < j → j < 2 → second_wait j ≡ false
no_wait_before zero h k = refl
no_wait_before (suc zero) h k = refl
no_wait_before (suc (suc j)) h k = absurd (omega (arith, k))

deciding_attempt_example : complete_with_retry third_time never (pos 5) ≡ (returned "answer", 3)
unfolding is_transient
deciding_attempt_example =
    deciding_attempt third_time never 5 2 (omega arith) (transient_before, λ j h k. refl) refl
      (inl refl)
