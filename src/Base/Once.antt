-- ===== src/Base/Once.antt =====
-- Lists in which a key, such as an id, stands at most once.
use mathlib.Core.List.{Permᴰ}
use openclaw_cortex.Base.{
  String, Bool, true, false, ◌||◌, List, [], ◌∷◌, ◌++◌, any, map, All, All-mono, ◌≡◌, refl, sym, ap,
  subst, ◌∙◌, arith, str_eq, eq_iff,
}

abbrev pub member : String → List String → Bool
member id ids = any (λ k. str_eq k id) ids

module _ {ℓ} {A : Type ℓ} where
  pub any-append : (p : A → Bool) (xs ys : List A) → any p (xs ++ ys) ≡ (any p xs || any p ys)
  any-append p [] ys = refl
  any-append p (x ∷ xs) ys = ground (arith, any-append p xs ys)

  pub any-perm : (p : A → Bool) {xs ys : List A} → Permᴰ xs ys → any p xs ≡ any p ys
  any-perm p Permᴰ.nil = refl
  any-perm p (Permᴰ.cons e q) = rw e (rw (any-perm p q) refl)
  any-perm p (Permᴰ.swap e f) = rw (e, f) (ground arith)
  any-perm p (Permᴰ.trans q r) = any-perm p q ∙ any-perm p r

  module _ (key : A → String) where
    abbrev pub has_key : String → List A → Bool
    has_key id xs = any (λ y. str_eq (key y) id) xs

    abbrev pub Once : List A → Type 0
    Once [] = Unit
    Once (x ∷ xs) = (has_key (key x) xs ≡ false) × Once xs

    Once-swap : (x y : A) (l : List A) → Once (x ∷ y ∷ l) → Once (y ∷ x ∷ l)
    Once-swap x y l h = (
      ground (arith, h.0, h.1.0, eq_iff (key x) (key y), eq_iff (key y) (key x)),
      (ground (arith, h.0), h.1.1),
    )

    pub Once-perm : {xs ys : List A} → Permᴰ xs ys → Once ys → Once xs
    Once-perm Permᴰ.nil h = h
    Once-perm (Permᴰ.cons e q) h = rw e (any-perm _ q ∙ h.0, Once-perm q h.1)
    Once-perm (Permᴰ.swap {a = a} {b = b} {a' = a'} {b' = b'} {l = l} e f) h =
        subst (λ z. Once (z ∷ b ∷ l)) (sym e)
          (subst (λ z. Once (b' ∷ z ∷ l)) (sym f) (Once-swap a' b' l h))
    Once-perm (Permᴰ.trans q r) h = Once-perm q (Once-perm r h)

    -- Every element has its key.
    pub has_key_own : (xs : List A) → All (λ x. has_key (key x) xs ≡ true) xs
    has_key_own [] = tt
    has_key_own (x ∷ xs) = (
      ground (arith, eq_iff (key x) (key x)),
      All-mono (λ y h. ground (arith, h)) xs (has_key_own xs),
    )

    -- A list with a new key at its end.
    pub Once-snoc :
        (xs : List A) (x : A) → Once xs → has_key (key x) xs ≡ false → Once (xs ++ x ∷ [])
    Once-snoc [] x h n = (refl, tt)
    Once-snoc (y ∷ ys) x h n = (
      any-append (λ k. str_eq (key k) (key y)) ys (x ∷ [])
          ∙ ground (arith, h.0, n, eq_iff (key x) (key y), eq_iff (key y) (key x)),
      Once-snoc ys x h.1 (ground (arith, n)),
    )

-- A map that keeps the keys.
module _ {ℓ ℓ'} {A : Type ℓ} {B : Type ℓ'} (key : A → String) (new_key : B → String) (f : A → B)
    (same : (x : A) → new_key (f x) ≡ key x) where
  pub has_key-map : (id : String) (xs : List A) → has_key new_key id (map f xs) ≡ has_key key id xs
  has_key-map id [] = refl
  has_key-map id (x ∷ xs) = rw (has_key-map id xs) (rw (same x) refl)

  pub Once-map : (xs : List A) → Once key xs → Once new_key (map f xs)
  Once-map [] h = tt
  Once-map (x ∷ xs) h =
      (has_key-map (new_key (f x)) xs ∙ ap (λ k. has_key key k xs) (same x) ∙ h.0, Once-map xs h.1)
