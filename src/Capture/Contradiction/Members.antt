-- ===== src/Capture/Contradiction/Members.antt =====
-- Membership in the lists and maps of internal/capture/contradiction.go.
use mathlib.Core.List.{Memᴰ}
use openclaw_cortex.Base.{
  String, Bool, true, some, List, [], ◌∷◌, ◌++◌, map, keep, if◌then◌else◌, ◌≡◌, refl, sym, ap,
  subst, ◌∙◌, arith, Bool-cases, inl, inr, Map, Distinct, lookup, values, str_eq, eq_iff,
}
use openclaw_cortex.Base.Once.{member}
use openclaw_cortex.Graph.MockClient.{with_id}

-- Each element of a list has a property.
abbrev pub Each : {A : Type 0} → (A → Type 0) → List A → Type 0
Each {A} P l = (x : A) → Memᴰ x l → P x

pub Each-tail : {A : Type 0} (P : A → Type 0) (x : A) (l : List A) → Each P (x ∷ l) → Each P l
Each-tail P x l h y m = h y (Memᴰ.tail m)

Each-append :
    {A : Type 0} (P : A → Type 0) (l : List A) (x : A) → Each P l → P x → Each P (l ++ x ∷ [])
Each-append P [] x h p y (Memᴰ.head e) = subst P (sym e) p
Each-append P [] x h p y (Memᴰ.tail m) = elim m [ ]
Each-append P (z ∷ l) x h p y (Memᴰ.head e) = h y (Memᴰ.head e)
Each-append P (z ∷ l) x h p y (Memᴰ.tail m) = Each-append P l x (Each-tail P z l h) p y m

pub Each-with_id :
    (P : String → Type 0) (ids : List String) (id : String)
    → Each P ids
    → P id
    → Each P (with_id id ids)
Each-with_id P ids id h p = elim (Bool-cases (member id ids)) [
  | inl y ↦ rw y h
  | inr n ↦ rw n (Each-append P ids id h p)
]

pub mem-map :
    {A B : Type 0} (f : A → B) (l : List A) (y : B)
    → Memᴰ y (map f l)
    → (x : A) × Memᴰ x l × (y ≡ f x)
mem-map f [] y m = elim m [ ]
mem-map f (x ∷ l) y (Memᴰ.head e) = (x, Memᴰ.head refl, e)
mem-map f (x ∷ l) y (Memᴰ.tail m) = let (z, k, e) = mem-map f l y m in (z, Memᴰ.tail k, e)

pub map-mem : {A B : Type 0} (f : A → B) (l : List A) (x : A) → Memᴰ x l → Memᴰ (f x) (map f l)
map-mem f [] x m = elim m [ ]
map-mem f (z ∷ l) x (Memᴰ.head e) = Memᴰ.head (ap f e)
map-mem f (z ∷ l) x (Memᴰ.tail m) = Memᴰ.tail (map-mem f l x m)

mem-kept_one :
    {A : Type 0} (p : A → Bool) (z : A) (l : List A) (x : A)
    → (Memᴰ x (keep p l) → Memᴰ x l × (p x ≡ true))
    → p z ≡ true
    → Memᴰ x (z ∷ keep p l)
    → Memᴰ x (z ∷ l) × (p x ≡ true)
mem-kept_one p z l x rest y (Memᴰ.head e) = (Memᴰ.head e, ap p e ∙ y)
mem-kept_one p z l x rest y (Memᴰ.tail m) = let (k, q) = rest m in (Memᴰ.tail k, q)

pub mem-keep :
    {A : Type 0} (p : A → Bool) (l : List A) (x : A) → Memᴰ x (keep p l) → Memᴰ x l × (p x ≡ true)
mem-keep p [] x m = elim m [ ]
mem-keep p (z ∷ l) x m = elim (Bool-cases (p z)) [
  | inl y ↦
      mem-kept_one p z l x (mem-keep p l x) y
        (subst (λ b. Memᴰ x (if b then z ∷ keep p l else keep p l)) y m)
  | inr n ↦
      let (k, q) =
        mem-keep p l x (subst (λ b. Memᴰ x (if b then z ∷ keep p l else keep p l)) n m) in
      (Memᴰ.tail k, q)
]

pub keep-mem :
    {A : Type 0} (p : A → Bool) (l : List A) (x : A) → Memᴰ x l → p x ≡ true → Memᴰ x (keep p l)
keep-mem p [] x m h = elim m [ ]
keep-mem p (z ∷ l) x (Memᴰ.head e) h = rw (sym (ap p e) ∙ h) (Memᴰ.head e)
keep-mem p (z ∷ l) x (Memᴰ.tail m) h = elim (Bool-cases (p z)) [
  | inl y ↦ rw y (Memᴰ.tail (keep-mem p l x m h))
  | inr n ↦ rw n (keep-mem p l x m h)
]

pub value-lookup :
    {A : Type 0} (m : Map A) (v : A)
    → Distinct m
    → Memᴰ v (values m)
    → (k : String) × (lookup k m ≡ some v)
unfolding lookup values
value-lookup [] v d h = elim h [ ]
value-lookup ((j, w) ∷ m) v d (Memᴰ.head e) = (j, ground (arith, eq_iff j j, e))
value-lookup ((j, w) ∷ m) v d (Memᴰ.tail h) =
    let (k, e) = value-lookup m v d.1 h in (k, ground (arith, d.0, e, eq_iff j k))

pub lookup-value :
    {A : Type 0} (m : Map A) (k : String) (v : A) → lookup k m ≡ some v → Memᴰ v (values m)
unfolding lookup values
lookup-value [] k v h = cc h
lookup-value ((j, w) ∷ m) k v h = elim (Bool-cases (str_eq j k)) [
  | inl y ↦ Memᴰ.head (ground (arith, h, y))
  | inr n ↦ Memᴰ.tail (lookup-value m k v (ground (arith, h, n)))
]
