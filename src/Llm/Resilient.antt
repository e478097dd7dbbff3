-- ===== src/Llm/Resilient.antt =====
-- internal/llm/resilient.go: the retry loop. The wrapped client and the context are arguments, asked
-- by the number of the attempt; what the loop waits between attempts is not modelled.
pub mod Attempts
use openclaw_cortex.Base.{
  ℕ, zero, suc, String, Bool, true, false, not, ◌&&◌, ◌||◌, if◌then◌else◌, ◌==◌, ltb,
}
use openclaw_cortex.Base.Int.{ℤ, pos, negsuc}

-- What one call of the wrapped client answers.
pub data Answer : Type 0 where
  text : String → Answer
  http_error : ℕ → Answer
  other_error : Answer

-- What the caller gets: the context's error is `cancelled_call`.
pub data Outcome : Type 0 where
  returned : String → Outcome
  failed : Answer → Outcome
  cancelled_call : Outcome

-- The status codes that no retry can help.
unfoldable pub is_fatal : ℕ → Bool
is_fatal code = code == 400 || code == 401 || code == 403

unfoldable pub is_transient : Answer → Bool
unfolding is_fatal
is_transient (text t) = false
is_transient (http_error code) = not (is_fatal code)
is_transient other_error = true

abbrev pub outcome_of : Answer → Outcome
outcome_of (text t) = returned t
outcome_of (http_error code) = failed (http_error code)
outcome_of other_error = failed other_error

-- `remaining` attempts from `attempt` on; with the number of calls that were made.
unfoldable pub retry : (ℕ → Answer) → (ℕ → Bool) → ℕ → ℕ → Outcome → Outcome × ℕ
unfolding is_transient
retry inner cancelled zero attempt last = (last, attempt)
retry inner cancelled (suc remaining) attempt last =
    let next = retry inner cancelled remaining (suc attempt) (outcome_of (inner attempt)) in
    if ltb 0 attempt && cancelled attempt
    then (cancelled_call, attempt)
    else (if is_transient (inner attempt) then next else (outcome_of (inner attempt), suc attempt))

-- `for attempt := 0; attempt <= retries; attempt++`: without an error so far `"", lastErr` is the
-- empty answer.
unfoldable pub complete_with_retry : (ℕ → Answer) → (ℕ → Bool) → ℤ → Outcome × ℕ
unfolding retry
complete_with_retry inner cancelled (pos retries) =
    retry inner cancelled (suc retries) 0 (returned "")
complete_with_retry inner cancelled (negsuc n) = (returned "", 0)
