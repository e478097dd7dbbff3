-- ===== src/Store/Mock/Chain.antt =====
-- internal/store/mock_store.go `GetChain`: the walk along SupersedesID.
use mathlib.Core.List.{Memᴰ}
use openclaw_cortex.Base.{
  ℕ, zero, suc, ◌≤◌, ◌<◌, String, true, false, ◌||◌, Option, none, some, List, [], ◌∷◌, ◌≡◌, refl,
  sym, ap, ◌≢◌, ◌∙◌, inl, inr, arith, if◌then◌else◌, length, any, Bool-cases, Option-cases, Map,
  lookup, str_eq, eq_iff,
}
use openclaw_cortex.Models.{Memory}
use openclaw_cortex.Store.Filters.{is_none}
use openclaw_cortex.Store.Mock.{Stored, MockStore, ok, not_found, get}

abbrev cons_some : {A : Type 0} → A → Option (List A) → Option (List A)
cons_some x none = none
cons_some x (some xs) = some (x ∷ xs)

mem-any :
    (id : String) (visited : List String) → any (λ v. str_eq v id) visited ≡ true → Memᴰ id visited
mem-any id [] h = cc h
mem-any id (v ∷ vs) h = elim (Bool-cases (str_eq v id)) [
  | inl e ↦ Memᴰ.head (sym ((eq_iff v id).0 e))
  | inr e ↦ Memᴰ.tail (mem-any id vs (ground (arith, h, e)))
]

any-mem :
    (id : String) (visited : List String) → Memᴰ id visited → any (λ v. str_eq v id) visited ≡ true
any-mem id [] m = elim m [ ]
any-mem id (v ∷ vs) (Memᴰ.head e) = ground (arith, (eq_iff v id).1 (sym e))
any-mem id (v ∷ vs) (Memᴰ.tail m) = ground (arith, any-mem id vs m)

module _ {F : Type 0} where
  -- `none` when the fuel runs out. `visited` holds the ids seen so far.
  unfoldable pub chain : ℕ → List String → String → MockStore F → Option (List (Memory F))
  chain zero visited id s = none
  chain (suc fuel) visited id s = elim (str_eq id "" || any (λ v. str_eq v id) visited) [
    | true ↦ some []
    | false ↦ elim (get id s) [
      | not_found ↦ some []
      | ok m ↦ cons_some m (chain fuel (id ∷ visited) m.supersedes_id s)
    ]
  ]

  -- One step for each memory and one to stop.
  unfoldable pub get_chain : String → MockStore F → Option (List (Memory F))
  unfolding chain
  get_chain id s = chain (suc (length s.memories)) [] id s

  unvisited : List String → Map (Stored F) → ℕ
  unvisited visited [] = 0
  unvisited visited ((k, sm) ∷ m) =
      let rest = unvisited visited m in if any (λ v. str_eq v k) visited then rest else suc rest

  unvisited_le :
      (id : String) (visited : List String) (m : Map (Stored F))
      → unvisited (id ∷ visited) m ≤ unvisited visited m
  unfolding unvisited
  unvisited_le id visited [] = omega arith
  unvisited_le id visited ((k, sm) ∷ m) = ground (arith, unvisited_le id visited m)

  unvisited_lt :
      (id : String) (visited : List String) (m : Map (Stored F)) (sm : Stored F)
      → lookup id m ≡ some sm
      → any (λ v. str_eq v id) visited ≡ false
      → unvisited (id ∷ visited) m < unvisited visited m
  unfolding unvisited lookup
  unvisited_lt id visited [] sm h n = cc
  unvisited_lt id visited ((k, x) ∷ m) sm h n = elim (Bool-cases (str_eq k id)) [
    | inl e ↦
        let new = ap (λ s. any (λ v. str_eq v s) visited) ((eq_iff k id).0 e) ∙ n in
        ground (arith, new, unvisited_le id visited m, eq_iff id k, eq_iff k id)
    | inr e ↦
        ground (arith, unvisited_lt id visited m sm (ground arith) n, eq_iff id k, eq_iff k id)
  ]

  abbrev shown : Stored F → Memory F
  shown sm = record (sm.memory) { is_current_version = is_none sm.memory.valid_to }

  module _ (fuel : ℕ) (visited : List String) (id : String) (s : MockStore F) where
    chain_stop :
        (str_eq id "" || any (λ v. str_eq v id) visited) ≡ true
        → chain (suc fuel) visited id s ≡ some []
    unfolding chain
    chain_stop h = ground arith

    chain_gone : lookup id s.memories ≡ none → chain (suc fuel) visited id s ≡ some []
    unfolding chain get
    chain_gone h = ground arith

    chain_step :
        (sm : Stored F)
        → (str_eq id "" || any (λ v. str_eq v id) visited) ≡ false
        → lookup id s.memories ≡ some sm
        → chain (suc fuel) visited id s
          ≡ cons_some (shown sm) (chain fuel (id ∷ visited) sm.memory.supersedes_id s)
    unfolding chain get
    chain_step sm h k = rw (h, chain) (rw k)

  -- The list of a walk from an id with some ids visited: the stored memory of the id and then the
  -- walk from the id that it supersedes, until an id is empty, visited or not stored.
  pub data Walks (s : MockStore F) : List String → String → List (Memory F) → Type 0 where
    blank : {visited : List String} {id : String} → id ≡ "" → Walks s visited id []
    seen : {visited : List String} {id : String} → Memᴰ id visited → Walks s visited id []
    gone :
        {visited : List String} {id : String} → lookup id s.memories ≡ none → Walks s visited id []
    step :
        {visited : List String} {id : String} {sm : Stored F} {c : List (Memory F)}
        → id ≢ ""
        → (Memᴰ id visited → ⊥)
        → lookup id s.memories ≡ some sm
        → Walks s (id ∷ visited) sm.memory.supersedes_id c
        → Walks s visited id (shown sm ∷ c)

  stopped :
      (visited : List String) (id : String) (s : MockStore F)
      → (str_eq id "" || any (λ v. str_eq v id) visited) ≡ true
      → Walks s visited id []
  stopped visited id s h = elim (Bool-cases (str_eq id "")) [
    | inl e ↦ Walks.blank ((eq_iff id "").0 e)
    | inr e ↦ Walks.seen (mem-any id visited (ground (arith, h, e)))
  ]

  -- With more fuel than there are unvisited memories the walk ends.
  chain_total :
      (fuel : ℕ) (visited : List String) (id : String) (s : MockStore F)
      → unvisited visited s.memories < fuel
      → (c : List (Memory F)) × (chain fuel visited id s ≡ some c) × Walks s visited id c
  chain_total zero visited id s h = absurd (omega arith)
  chain_total (suc fuel) visited id s h =
      elim (Bool-cases (str_eq id "" || any (λ v. str_eq v id) visited)) [
        | inl stop ↦ ([], chain_stop fuel visited id s stop, stopped visited id s stop)
        | inr on ↦ elim (Option-cases (lookup id s.memories)) [
          | inl none_here ↦ ([], chain_gone fuel visited id s none_here, Walks.gone none_here)
          | inr (sm, here) ↦
              let fresh : any (λ v. str_eq v id) visited ≡ false = ground (arith, on) in
              let named : str_eq id "" ≡ false = ground (arith, on) in
              let less = unvisited_lt id visited s.memories sm here fresh in
              let (c, rest, walk) =
                chain_total fuel (id ∷ visited) sm.memory.supersedes_id s (omega arith) in
              (
                shown sm ∷ c,
                chain_step fuel visited id s sm on here ∙ ap (cons_some (shown sm)) rest,
                Walks.step (λ e. cc (sym named ∙ (eq_iff id "").1 e))
                    (λ m. cc (sym fresh ∙ any-mem id visited m)) here walk,
              )
        ]
      ]

  unvisited_all : (m : Map (Stored F)) → unvisited [] m ≡ length m
  unfolding unvisited
  unvisited_all [] = refl
  unvisited_all ((k, sm) ∷ m) = ap suc (unvisited_all m)

  -- Every memory stands under its own id.
  abbrev pub IsKeyed : MockStore F → Type 0
  IsKeyed s = (id : String) (sm : Stored F) → lookup id s.memories ≡ some sm → sm.memory.id ≡ id

  -- GetChain ends on every store, cycles included, with the list of the walk from the id: the
  -- stored memory of an id that is not empty and not visited before heads it, with the version flag
  -- that follows ValidTo, and the walk goes on from the id that this memory supersedes, until an id
  -- is empty, visited or not stored.
  pub get_chain_total :
      (id : String) (s : MockStore F)
      → (c : List (Memory F)) × (get_chain id s ≡ some c) × Walks s [] id c
  unfolding get_chain
  get_chain_total id s =
      chain_total (suc (length s.memories)) [] id s (omega (arith, unvisited_all s.memories))
