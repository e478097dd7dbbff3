-- ===== src/Base/Sort/Laws.antt =====
-- The order of what the exchange sort returns.
use mathlib.Core.List.{Permᴰ}
use openclaw_cortex.Base.{
  ℕ, zero, suc, ◌≤◌, Bool, true, false, List, [], ◌∷◌, if◌then◌else◌, length, ◌≡◌, refl, sym, subst,
  ap, arith, All, Bool-cases, inl, inr,
}
use openclaw_cortex.Base.Sort.{pass, rounds, exchange_sort}

module _ {A : Type 0} (less : A → A → Bool) where
  pass-perm : (x : A) (ys : List A) → Permᴰ ((pass less x ys).0 ∷ (pass less x ys).1) (x ∷ ys)
  unfolding pass
  pass-perm x [] = Permᴰ.cons refl Permᴰ.nil
  pass-perm x (y ∷ ys) = elim (Bool-cases (less y x)) [
    | inl e ↦ rw e (Permᴰ.trans (Permᴰ.swap refl refl) (Permᴰ.cons refl (pass-perm y ys)))
    | inr e ↦ rw e (
        Permᴰ.trans (Permᴰ.swap refl refl)
          (Permᴰ.trans (Permᴰ.cons refl (pass-perm x ys)) (Permᴰ.swap refl refl)))
  ]

  length-pass : (x : A) (ys : List A) → length (pass less x ys).1 ≡ length ys
  unfolding pass
  length-pass x [] = refl
  length-pass x (y ∷ ys) = ap suc (length-pass (if less y x then y else x) ys)

  refl-perm : (xs : List A) → Permᴰ xs xs
  refl-perm [] = Permᴰ.nil
  refl-perm (x ∷ xs) = Permᴰ.cons refl (refl-perm xs)

  rounds-perm : (n : ℕ) (xs : List A) → Permᴰ (rounds less n xs) xs
  unfolding rounds
  rounds-perm zero xs = refl-perm xs
  rounds-perm (suc n) [] = Permᴰ.nil
  rounds-perm (suc n) (x ∷ xs) =
      Permᴰ.trans (Permᴰ.cons refl (rounds-perm n (pass less x xs).1)) (pass-perm x xs)

  -- The sort returns its argument in another order.
  pub exchange_sort-perm : (xs : List A) → Permᴰ (exchange_sort less xs) xs
  unfolding exchange_sort
  exchange_sort-perm xs = rounds-perm (length xs) xs

  pub All-perm : (P : A → Type 0) {xs ys : List A} → Permᴰ xs ys → All P ys → All P xs
  All-perm P Permᴰ.nil h = h
  All-perm P (Permᴰ.cons e p) h = (rw e h.0, All-perm P p h.1)
  All-perm P (Permᴰ.swap e f) h = (rw e h.1.0, (rw f h.0, h.1.1))
  All-perm P (Permᴰ.trans p q) h = All-perm P p (All-perm P q h)

  -- No element is less than one before it.
  abbrev Sorted : List A → Type 0
  Sorted [] = Unit
  Sorted (x ∷ xs) = All (λ z. less z x ≡ false) xs × Sorted xs

  pub record WeakOrder : Type 0 where
    pub asym : (a b : A) → less a b ≡ true → less b a ≡ false
    pub trans : (a b c : A) → less b a ≡ false → less c b ≡ false → less c a ≡ false
    pub irrefl : (a : A) → less a a ≡ false

  pass_swap :
      (x y : A) (ys : List A)
      → less y x ≡ true
      → pass less x (y ∷ ys) ≡ ((pass less y ys).0, x ∷ (pass less y ys).1)
  unfolding pass
  pass_swap x y ys e = rw e

  pass_keep :
      (x y : A) (ys : List A)
      → less y x ≡ false
      → pass less x (y ∷ ys) ≡ ((pass less x ys).0, y ∷ (pass less x ys).1)
  unfolding pass
  pass_keep x y ys e = rw e

  module _ (o : WeakOrder) where
    abbrev Least : A → A × List A → Type 0
    Least x p = (less x p.0 ≡ false) × All (λ z. less z p.0 ≡ false) p.1

    pass-Least : (x : A) (ys : List A) → Least x (pass less x ys)
    pass-Least x [] = unfold pass in (o.irrefl x, tt)
    pass-Least x (y ∷ ys) = elim (Bool-cases (less y x)) [
      | inl e ↦
          let (a, rest) = pass-Least y ys in
          let b = o.trans (pass less y ys).0 y x a (o.asym y x e) in
          subst (Least x) (sym (pass_swap x y ys e)) (b, (b, rest))
      | inr e ↦
          let (a, rest) = pass-Least x ys in
          subst (Least x) (sym (pass_keep x y ys e)) (a, (o.trans (pass less x ys).0 x y a e, rest))
    ]

    rounds-Sorted : (n : ℕ) (xs : List A) → length xs ≤ n → Sorted (rounds less n xs)
    unfolding rounds
    rounds-Sorted zero [] h = tt
    rounds-Sorted zero (x ∷ xs) h = absurd (omega arith)
    rounds-Sorted (suc n) [] h = tt
    rounds-Sorted (suc n) (x ∷ xs) h = (
      All-perm (λ z. less z (pass less x xs).0 ≡ false) (rounds-perm n (pass less x xs).1)
          (pass-Least x xs).1,
      rounds-Sorted n (pass less x xs).1 (omega (arith, length-pass x xs)),
    )

    -- The result of the sort is sorted.
    exchange_sort-Sorted : (xs : List A) → Sorted (exchange_sort less xs)
    unfolding exchange_sort
    exchange_sort-Sorted xs = rounds-Sorted (length xs) xs (omega arith)
