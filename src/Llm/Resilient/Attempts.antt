-- ===== src/Llm/Resilient/Attempts.antt =====
-- internal/llm/resilient.go: which attempt decides the outcome of the retry loop.
use openclaw_cortex.Base.{
  ℕ, zero, suc, ◌+◌, ◌<◌, ◌≤◌, Bool, true, false, ◌&&◌, ◌≡◌, ◌⊎◌, refl, sym, subst, ◌∙◌, inl, inr,
  arith, ltb, Bool-cases, ltb→lt,
}
use openclaw_cortex.Base.Int.{pos}
use openclaw_cortex.Llm.Resilient.{
  Answer, Outcome, returned, cancelled_call, is_transient, outcome_of, retry, complete_with_retry,
}

module _ (inner : ℕ → Answer) (cancelled : ℕ → Bool) where
  -- The context ends before no attempt up to `k`, and every attempt before `k` fails in a way that a
  -- retry can help.
  abbrev Reaches : ℕ → Type 0
  Reaches k =
      ((j : ℕ) → j < k → is_transient (inner j) ≡ true)
      × ((j : ℕ) → 0 < j → j < k → cancelled j ≡ false)

  retry_more :
      (n a : ℕ) (last : Outcome)
      → (ltb 0 a && cancelled a) ≡ false
      → is_transient (inner a) ≡ true
      → retry inner cancelled (suc n) a last
        ≡ retry inner cancelled n (suc a) (outcome_of (inner a))
  unfolding retry
  retry_more n a last c t = rw (c, retry) (rw t refl)

  retry_done :
      (n a : ℕ) (last : Outcome)
      → (ltb 0 a && cancelled a) ≡ false
      → is_transient (inner a) ≡ false
      → retry inner cancelled (suc n) a last ≡ (outcome_of (inner a), suc a)
  unfolding retry
  retry_done n a last c t = rw (c, retry) (rw t refl)

  retry_cancelled :
      (n a : ℕ) (last : Outcome)
      → (ltb 0 a && cancelled a) ≡ true
      → retry inner cancelled (suc n) a last ≡ (cancelled_call, a)
  unfolding retry
  retry_cancelled n a last c = rw (c, retry) refl

  open_context : (a k : ℕ) → Reaches k → a < k → (ltb 0 a && cancelled a) ≡ false
  open_context a k r h = ground (arith, r.1 a)

  retry_last :
      (a : ℕ) (last : Outcome)
      → (ltb 0 a && cancelled a) ≡ false
      → is_transient (inner a) ≡ true
      → retry inner cancelled 1 a last ≡ (outcome_of (inner a), suc a)
  unfolding retry
  retry_last a last c t = rw (c, retry) (rw t refl)

  decided_here :
      (m a : ℕ) (last : Outcome)
      → (ltb 0 a && cancelled a) ≡ false
      → (is_transient (inner a) ≡ false) ⊎ (m ≡ 0)
      → retry inner cancelled (suc m) a last ≡ (outcome_of (inner a), suc a)
  decided_here m a last c (inl f) = retry_done m a last c f
  decided_here m a last c (inr z) = elim (Bool-cases (is_transient (inner a))) [
    | inr f ↦ retry_done m a last c f
    | inl t ↦
        subst (λ n. retry inner cancelled (suc n) a last ≡ (outcome_of (inner a), suc a)) (sym z)
          (retry_last a last c t)
  ]

  retry_decided :
      (m a k : ℕ) (last : Outcome)
      → a ≤ k
      → k ≤ a + m
      → Reaches k
      → (ltb 0 k && cancelled k) ≡ false
      → (is_transient (inner k) ≡ false) ⊎ (k ≡ a + m)
      → retry inner cancelled (suc m) a last ≡ (outcome_of (inner k), suc k)
  retry_decided zero a k last h h' r c decided =
      let here : k ≡ a = omega arith in
      subst (λ k'. retry inner cancelled 1 a last ≡ (outcome_of (inner k'), suc k')) (sym here)
        (decided_here 0 a last (subst (λ k'. (ltb 0 k' && cancelled k') ≡ false) here c) (inr refl))
  retry_decided (suc m) a k last h h' r c decided = elim (Bool-cases (ltb a k)) [
    | inl less ↦
        retry_more (suc m) a last (open_context a k r (ltb→lt a k less)) (r.0 a (ltb→lt a k less))
        ∙ retry_decided m (suc a) k _ (omega (arith, ltb→lt a k less)) (omega (arith, h')) r c
            (elim decided [ inl f ↦ inl f | inr e ↦ inr (omega (arith, e)) ])
    | inr same ↦
        (let here : k ≡ a = ground (arith, h, same) in
          subst (λ k'. retry inner cancelled (suc (suc m)) a last ≡ (outcome_of (inner k'), suc k'))
            (sym here)
            (decided_here (suc m) a last (subst (λ k'. (ltb 0 k' && cancelled k') ≡ false) here c)
              (elim decided [
                | inl f ↦ inl (subst (λ k'. is_transient (inner k') ≡ false) here f)
                | inr e ↦ absurd (omega (arith, e, here))
              ])))
  ]

  retry_stopped :
      (m a k : ℕ) (last : Outcome)
      → a ≤ k
      → k ≤ a + m
      → Reaches k
      → (ltb 0 k && cancelled k) ≡ true
      → retry inner cancelled (suc m) a last ≡ (cancelled_call, k)
  retry_stopped zero a k last h h' r c =
      let here : k ≡ a = omega arith in
      subst (λ k'. retry inner cancelled 1 a last ≡ (cancelled_call, k')) (sym here)
        (retry_cancelled 0 a last (subst (λ k'. (ltb 0 k' && cancelled k') ≡ true) here c))
  retry_stopped (suc m) a k last h h' r c = elim (Bool-cases (ltb a k)) [
    | inl less ↦
        retry_more (suc m) a last (open_context a k r (ltb→lt a k less)) (r.0 a (ltb→lt a k less))
        ∙ retry_stopped m (suc a) k _ (omega (arith, ltb→lt a k less)) (omega (arith, h')) r c
    | inr same ↦
        (let here : k ≡ a = ground (arith, h, same) in
          subst (λ k'. retry inner cancelled (suc (suc m)) a last ≡ (cancelled_call, k')) (sym here)
            (retry_cancelled (suc m) a last
              (subst (λ k'. (ltb 0 k' && cancelled k') ≡ true) here c)))
  ]

  -- While the context lives, the first attempt that succeeds or fails for good, or else the last,
  -- decides the outcome of the retry loop, after exactly the calls up to it.
  pub deciding_attempt :
      (retries k : ℕ)
      → k ≤ retries
      → Reaches k
      → (ltb 0 k && cancelled k) ≡ false
      → (is_transient (inner k) ≡ false) ⊎ (k ≡ retries)
      → complete_with_retry inner cancelled (pos retries) ≡ (outcome_of (inner k), suc k)
  unfolding complete_with_retry
  deciding_attempt retries k h r c decided =
      retry_decided retries 0 k (returned "") (omega arith) (omega (arith, h)) r c
        (elim decided [ inl f ↦ inl f | inr e ↦ inr (omega (arith, e)) ])

  -- A context that ends during the wait for attempt k, reached after transient failures only, ends
  -- the loop with its error after k calls.
  cancelled_attempt :
      (retries k : ℕ)
      → k ≤ retries
      → Reaches k
      → 0 < k
      → cancelled k ≡ true
      → complete_with_retry inner cancelled (pos retries) ≡ (cancelled_call, k)
  unfolding complete_with_retry
  cancelled_attempt retries k h r p c =
      retry_stopped retries 0 k (returned "") (omega arith) (omega (arith, h)) r
        (ground (arith, p, c))

  retry-calls : (n a : ℕ) (last : Outcome) → (retry inner cancelled n a last).1 ≤ a + n
  unfolding retry
  retry-calls zero a last = omega arith
  retry-calls (suc n) a last = ground (arith, retry-calls n (suc a) (outcome_of (inner a)))

  -- With retries >= 0, however the client answers and whenever the context ends, at most retries +
  -- 1 calls are made.
  calls_bounded :
      (retries : ℕ) → (complete_with_retry inner cancelled (pos retries)).1 ≤ suc retries
  unfolding complete_with_retry
  calls_bounded retries = omega (arith, retry-calls (suc retries) 0 (returned ""))
