-- ===== src/Recall/Reasoner/Laws.antt =====
-- internal/recall/reasoner.go: no answer of the model loses or repeats a result.
use mathlib.Core.List.{Permᴰ, append_assoc}
use openclaw_cortex.Base.{
  ℕ, zero, suc, ◌+◌, ◌<◌, String, true, false, Option, none, some, List, [], ◌∷◌, ◌++◌, ◌==◌,
  if◌then◌else◌, get_elem?, take, drop, take-drop, ◌≡◌, refl, sym, ap, subst, arith, Bool-cases,
  Option-cases, inl, inr, str_eq,
}
use openclaw_cortex.Base.Int.{ℤ, pos, negsuc}
use openclaw_cortex.Recall.Reasoner.{
  seen_index, add_index, add_order, omitted, reorder, re_rank, default_reasoner_candidates,
}

apart : (k i : ℕ) → i < k → (k == i) ≡ false
apart k i h = ground arith

before : (k i : ℕ) → k < i → (k == i) ≡ false
before k i h = ground arith

module _ {R : Type 0} where
  some_injective : (a b : R) → some a ≡ some b → a ≡ b
  some_injective a b e = ap (λ o. elim o [ none ↦ a | some x ↦ x ]) e

  same : (xs : List R) → Permᴰ xs xs
  same [] = Permᴰ.nil
  same (x ∷ xs) = Permᴰ.cons refl (same xs)

  -- An index that lies before the list is not one of its.
  omitted_before :
      (seen : List ℕ) (k i : ℕ) (rs : List R) → k < i → omitted (k ∷ seen) i rs ≡ omitted seen i rs
  unfolding omitted
  omitted_before seen k i [] h = refl
  omitted_before seen k i (r ∷ rs) h =
      rw (before k i h, omitted_before seen k (suc i) rs (omega (arith, h))) refl

  omitted-add :
      (seen : List ℕ) (k i d : ℕ) (rs : List R) (r : R)
      → k ≡ i + d
      → get_elem? rs d ≡ some r
      → seen_index seen k ≡ false
      → Permᴰ (r ∷ omitted (k ∷ seen) i rs) (omitted seen i rs)
  unfolding omitted
  omitted-add seen k i d [] r at e n = cc
  omitted-add seen k i zero (x ∷ rs) r at e n =
      let here : k ≡ i = omega (arith, at) in
      let first : r ≡ x = sym (some_injective x r e) in
      let unseen = subst (λ j. seen_index seen j ≡ false) here n in
      let match : (k == i) ≡ true = ground (arith, here) in
      rw (match, unseen, omitted_before seen k (suc i) rs (omega (arith, here)))
        (Permᴰ.cons first (same (omitted seen (suc i) rs)))
  omitted-add seen k i (suc d) (x ∷ rs) r at e n =
      let rest = omitted-add seen k (suc i) d rs r (omega (arith, at)) e n in
      rw (apart k i (omega (arith, at))) (elim (Bool-cases (seen_index seen i)) [
        | inl s ↦ rw s rest
        | inr s ↦ rw s (Permᴰ.trans (Permᴰ.swap refl refl) (Permᴰ.cons refl rest))
      ])

  perm-behind : (xs : List R) {ys zs : List R} → Permᴰ ys zs → Permᴰ (xs ++ ys) (xs ++ zs)
  perm-behind [] p = p
  perm-behind (x ∷ xs) p = Permᴰ.cons refl (perm-behind xs p)

  perm-ahead : (zs : List R) {xs ys : List R} → Permᴰ xs ys → Permᴰ (xs ++ zs) (ys ++ zs)
  perm-ahead zs Permᴰ.nil = same zs
  perm-ahead zs (Permᴰ.cons e p) = Permᴰ.cons e (perm-ahead zs p)
  perm-ahead zs (Permᴰ.swap {l = l} e f) =
      Permᴰ.trans (Permᴰ.swap e f) (Permᴰ.cons refl (Permᴰ.cons refl (same (l ++ zs))))
  perm-ahead zs (Permᴰ.trans p q) = Permᴰ.trans (perm-ahead zs p) (perm-ahead zs q)

  omitted_none : (i : ℕ) (rs : List R) → omitted [] i rs ≡ rs
  unfolding omitted
  omitted_none i [] = refl
  omitted_none i (r ∷ rs) = ap (◌∷◌ r) (omitted_none (suc i) rs)

  -- The candidates that are placed, with the others behind them, are all candidates.
  abbrev Whole : List R → List R × List ℕ → Type 0
  Whole cs acc = Permᴰ (acc.0 ++ omitted acc.1 0 cs) cs

  add_index-Whole :
      (cs : List R) (i : ℤ) (acc : List R × List ℕ) → Whole cs acc → Whole cs (add_index cs i acc)
  unfolding add_index
  add_index-Whole cs (negsuc n) acc w = w
  add_index-Whole cs (pos i) (reranked, seen) w = elim (Option-cases (get_elem? cs i)) [
    | inl e ↦ rw (e, add_index) w
    | inr (r, e) ↦ elim (Bool-cases (seen_index seen i)) [
      | inl s ↦ rw (e, add_index) (rw s w)
      | inr s ↦
          rw (e, add_index)
            (rw s (
              subst (λ l. Permᴰ l cs)
                (sym (append_assoc reranked (r ∷ []) (omitted (i ∷ seen) 0 cs)))
                (Permᴰ.trans (perm-behind reranked (omitted-add seen i 0 i cs r (omega arith) e s))
                  w)))
    ]
  ]

  add_order-Whole :
      (cs : List R) (order : List ℤ) (acc : List R × List ℕ)
      → Whole cs acc
      → Whole cs (add_order cs order acc)
  unfolding add_order
  add_order-Whole cs [] acc w = w
  add_order-Whole cs (i ∷ is') acc w =
      add_order-Whole cs is' (add_index cs i acc) (add_index-Whole cs i acc w)

  reorder-perm : (cs : List R) (order : List ℤ) → Permᴰ (reorder cs order) cs
  unfolding reorder
  reorder-perm cs order =
      add_order-Whole cs order ([], [])
        (subst (λ l. Permᴰ l cs) (sym (omitted_none 0 cs)) (same cs))

  module _ (complete : List R → Option String) (unmarshal : String → Option (List ℤ)) where
    -- Whatever the model answers, ReRank returns the results in some order, none lost and none
    -- twice.
    pub re_rank-perm :
        (results : List R) (max_candidates : ℕ)
        → Permᴰ (re_rank complete unmarshal results max_candidates) results
    unfolding re_rank
    re_rank-perm [] m = Permᴰ.nil
    re_rank-perm (r ∷ rs) m =
        let results = r ∷ rs in
        let limit = if m == 0 then default_reasoner_candidates else m in
        elim (Option-cases (complete (take limit results))) [
          | inl e ↦ rw (e, re_rank) (same results)
          | inr (text, e) ↦ elim (Bool-cases (str_eq text "")) [
            | inl t ↦ rw (e, re_rank) (rw t (same results))
            | inr t ↦ elim (Option-cases (unmarshal text)) [
              | inl u ↦ rw (e, re_rank) (rw t (rw u (same results)))
              | inr (order, u) ↦
                  rw (e, re_rank)
                    (rw t (
                      rw u (
                        subst
                          (λ l. Permᴰ (reorder (take limit results) order ++ drop limit results) l)
                          (take-drop limit results)
                          (perm-ahead (drop limit results)
                            (reorder-perm (take limit results) order)))))
            ]
          ]
        ]
