-- ===== src/Base/Maps.antt =====
-- A Go map with string keys, as an association list. Its order stands for the order in which the
-- program ranges over the map. Go leaves that order open: a `SameMap` is the same map in any other.
use Prim.Native.String.{String}
use mathlib.Core.Path.{◌≡◌, refl}
use mathlib.Core.Logic.{inl, inr}
use mathlib.Core.Bool.{Bool}
use mathlib.Core.Option.{Option, none, some}
use mathlib.Core.List.{List, [], ◌∷◌}
use native.Mathlib.Omega.{arith}
use text.Mathlib.Text.{◌==◌ as str_eq}
use text.Mathlib.TextEquality.{eq_iff}
use openclaw_cortex.Base.Tests.{if◌then◌else◌, Bool-cases}

abbrev pub Map {ℓ} : Type ℓ → Type ℓ
Map V = List (String × V)

module _ {ℓ} {V : Type ℓ} where
  -- v, ok := m[k]
  unfoldable pub lookup : String → Map V → Option V
  lookup k [] = none
  lookup k ((j, v) ∷ m) = if str_eq j k then some v else lookup k m

  -- m[k] = v
  unfoldable pub insert : String → V → Map V → Map V
  insert k v [] = (k, v) ∷ []
  insert k v ((j, w) ∷ m) = if str_eq j k then (k, v) ∷ m else (j, w) ∷ insert k v m

  -- delete(m, k)
  unfoldable pub erase : String → Map V → Map V
  erase k [] = []
  erase k ((j, v) ∷ m) = let rest = erase k m in if str_eq j k then rest else (j, v) ∷ rest

  -- The values in the order of the range loop.
  unfoldable pub values : Map V → List V
  values [] = []
  values ((k, v) ∷ m) = v ∷ values m

  -- Every key stands once, as in a Go map.
  abbrev pub Distinct : Map V → Type ℓ
  Distinct [] = Unit
  Distinct ((k, v) ∷ m) = (lookup k m ≡ none) × Distinct m

  pub lookup-insert :
      (key wanted : String) (new : V) (m : Map V)
      → lookup wanted (insert key new m) ≡ (if str_eq key wanted then some new else lookup wanted m)
  unfolding insert lookup
  lookup-insert key wanted new ((first, old) ∷ m) =
      let rest = lookup-insert key wanted new m in
      ground (rest, arith, eq_iff first wanted, eq_iff first key, eq_iff key wanted)
  lookup-insert key wanted new [] = refl

  pub lookup-erase :
      (k j : String) (m : Map V) → lookup j (erase k m) ≡ (if str_eq k j then none else lookup j m)
  unfolding lookup erase
  lookup-erase k j [] = ground arith
  lookup-erase k j ((i, w) ∷ m) =
      ground (arith, eq_iff k j, eq_iff i k, eq_iff i j, lookup-erase k j m)

  pub Distinct-insert : (k : String) (v : V) (m : Map V) → Distinct m → Distinct (insert k v m)
  unfolding lookup insert
  Distinct-insert k v [] d = (refl, tt)
  Distinct-insert k v ((j, w) ∷ m) d = elim (Bool-cases (str_eq j k)) [
    | inl e ↦ rw e (ground (arith, (eq_iff j k).0 e), d.1)
    | inr n ↦
        rw n
          (ground (arith, lookup-insert k j v m, eq_iff j k, eq_iff k j), Distinct-insert k v m d.1)
  ]

  pub Distinct-erase : (k : String) (m : Map V) → Distinct m → Distinct (erase k m)
  unfolding lookup erase
  Distinct-erase k [] d = d
  Distinct-erase k ((j, w) ∷ m) d = elim (Bool-cases (str_eq j k)) [
    | inl e ↦ rw e (Distinct-erase k m d.1)
    | inr n ↦ rw n (ground (arith, lookup-erase k j m), Distinct-erase k m d.1)
  ]

  -- The entries whose value passes a test.
  unfoldable pub restrict : (V → Bool) → Map V → Map V
  restrict p [] = []
  restrict p ((k, v) ∷ m) = let rest = restrict p m in if p v then (k, v) ∷ rest else rest

  abbrev pub only : (V → Bool) → Option V → Option V
  only p none = none
  only p (some v) = if p v then some v else none

  restrict_absent :
      (p : V → Bool) (k : String) (m : Map V) → lookup k m ≡ none → lookup k (restrict p m) ≡ none
  unfolding lookup restrict
  restrict_absent p k [] h = refl
  restrict_absent p k ((j, w) ∷ m) h = ground (arith, restrict_absent p k m)

  pub lookup-restrict :
      (p : V → Bool) (k : String) (m : Map V)
      → Distinct m
      → lookup k (restrict p m) ≡ only p (lookup k m)
  unfolding lookup restrict
  lookup-restrict p k [] d = refl
  lookup-restrict p k ((j, w) ∷ m) d =
      ground (arith, lookup-restrict p k m d.1, restrict_absent p k m, eq_iff j k)

  pub Distinct-restrict : (p : V → Bool) (m : Map V) → Distinct m → Distinct (restrict p m)
  unfolding restrict
  Distinct-restrict p [] d = d
  Distinct-restrict p ((j, w) ∷ m) d = elim (Bool-cases (p w)) [
    | inl e ↦ rw e (restrict_absent p j m d.0, Distinct-restrict p m d.1)
    | inr n ↦ rw n (Distinct-restrict p m d.1)
  ]

  -- The same map, ranged over in another order.
  pub record SameMap (m n : Map V) : Type ℓ where
    pub same : (k : String) → lookup k n ≡ lookup k m
    pub distinct : Distinct n

  pub SameMap-refl : (m : Map V) → Distinct m → SameMap m m
  SameMap-refl m d = record { same = λ k. refl; distinct = d }
