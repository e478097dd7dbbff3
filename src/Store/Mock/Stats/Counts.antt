-- ===== src/Store/Mock/Stats/Counts.antt =====
-- internal/store/mock_store.go: what the counts of `Stats` count.
use openclaw_cortex.Base.{
  ℕ, ◌+◌, ◌*◌, not, ◌&&◌, ltb, leb, ◌==◌, sym, ◌∙◌, String, Bool, true, false, [], ◌∷◌, ◌≡◌, refl,
  arith, if◌then◌else◌, length, keep, values, Map, lookup, lookup-insert, str_eq, eq_iff,
  Bool-cases, inl, inr,
}
use openclaw_cortex.Models.{Memory, CollectionStats}
use openclaw_cortex.Store.Mock.{Stored, MockStore}
use openclaw_cortex.Store.Mock.Stats.{
  count_of, increment, tier_of, is_pending, add_memory, add_memories, stats,
}

-- The value of a counter.
abbrev pub tally : String → Map ℕ → ℕ
tally k m = count_of (lookup k m)

tally-increment :
    (k j : String) (m : Map ℕ) → tally j (increment k m) ≡ tally j m + (if str_eq k j then 1 else 0)
unfolding increment
tally-increment k j m = ground (arith, lookup-insert k j (tally k m + 1) m, eq_iff k j)

choose :
    (f : String → Bool) (a b c : Bool)
    → f (if a then "0" else (if b then "1-3" else if c then "4-10" else "10+"))
      ≡ (if a then f "0" else (if b then f "1-3" else if c then f "4-10" else f "10+"))
choose f true b c = refl
choose f false true c = refl
choose f false false true = refl
choose f false false false = refl

is_tier :
    (t : String) (n : ℕ)
    → str_eq (tier_of n) t ≡ (
        if n == 0
        then str_eq "0" t
        else (if leb 1 n && leb n 3
            then str_eq "1-3" t
            else if leb 4 n && leb n 10
            then str_eq "4-10" t
            else str_eq "10+" t))
is_tier t n = choose (λ u. str_eq u t) (n == 0) (leb 1 n && leb n 3) (leb 4 n && leb n 10)

tier_0 : (n : ℕ) → str_eq (tier_of n) "0" ≡ (n == 0)
tier_0 n = rw (is_tier "0" n) (ground arith)

tier_1_3 : (n : ℕ) → str_eq (tier_of n) "1-3" ≡ (leb 1 n && leb n 3)
tier_1_3 n = rw (is_tier "1-3" n) (ground arith)

tier_4_10 : (n : ℕ) → str_eq (tier_of n) "4-10" ≡ (leb 4 n && leb n 10)
tier_4_10 n = rw (is_tier "4-10" n) (ground arith)

tier_11 : (n : ℕ) → str_eq (tier_of n) "10+" ≡ leb 11 n
tier_11 n = rw (is_tier "10+" n) (ground arith)

module _ {F : Type 0} where
  -- How many of the stored memories pass a test.
  abbrev pub counting : (Memory F → Bool) → Map (Stored F) → ℕ
  counting p m = length (keep (λ sm. p sm.memory) (values m))

  pub record Counts (now : ℕ) (m : Map (Stored F)) (before after : CollectionStats) : Type 0 where
    pub types :
        (t : String)
        → tally t after.by_type ≡ tally t before.by_type + counting (λ x. str_eq x.type t) m
    pub scopes :
        (t : String)
        → tally t after.by_scope ≡ tally t before.by_scope + counting (λ x. str_eq x.scope t) m
    pub tiers :
        (t : String)
        → tally t after.reinforcement_tiers
          ≡ tally t before.reinforcement_tiers
            + counting (λ x. str_eq (tier_of x.reinforced_count) t) m
    pub conflicts :
        after.active_conflicts
        ≡ before.active_conflicts + counting (λ x. str_eq x.conflict_status "active") m
    pub pending : after.pending_ttl_expiry ≡ before.pending_ttl_expiry + counting (is_pending now) m
    pub total : after.total_memories ≡ before.total_memories

  counting-cons :
      (p : Memory F → Bool) (id : String) (sm : Stored F) (m : Map (Stored F))
      → counting p ((id, sm) ∷ m) ≡ (if p sm.memory then 1 else 0) + counting p m
  unfolding values
  counting-cons p id sm m = elim (Bool-cases (p sm.memory)) [
    | inl e ↦ rw e (omega arith)
    | inr e ↦ rw e (omega arith)
  ]

  add_memories-Counts :
      (now : ℕ) (m : Map (Stored F)) (c : CollectionStats) → Counts now m c (add_memories now m c)
  unfolding add_memories add_memory values
  add_memories-Counts now [] c = record {
    types = λ t. omega arith;
    scopes = λ t. omega arith;
    tiers = λ t. omega arith;
    conflicts = omega arith;
    pending = omega arith;
    total = refl;
  }
  add_memories-Counts now ((id, sm) ∷ m) c =
      let mem = sm.memory in
      let k = add_memories-Counts now m (add_memory now mem c) in
      record {
        types = λ t. omega (
          arith,
          k.types t,
          tally-increment mem.type t c.by_type,
          counting-cons (λ x. str_eq x.type t) id sm m,
        );
        scopes = λ t. omega (
          arith,
          k.scopes t,
          tally-increment mem.scope t c.by_scope,
          counting-cons (λ x. str_eq x.scope t) id sm m,
        );
        tiers = λ t. omega (
          arith,
          k.tiers t,
          tally-increment (tier_of mem.reinforced_count) t c.reinforcement_tiers,
          counting-cons (λ x. str_eq (tier_of x.reinforced_count) t) id sm m,
        );
        conflicts =
            omega
              (arith, k.conflicts, counting-cons (λ x. str_eq x.conflict_status "active") id sm m);
        pending = omega (arith, k.pending, counting-cons (is_pending now) id sm m);
        total = k.total;
      }

  counting_same :
      (p q : Memory F → Bool) (m : Map (Stored F))
      → ((x : Memory F) → p x ≡ q x)
      → counting p m ≡ counting q m
  unfolding values
  counting_same p q [] h = refl
  counting_same p q ((id, sm) ∷ m) h =
      counting-cons p id sm m
      ∙ rw (h sm.memory, counting_same p q m h) refl
      ∙ sym (counting-cons q id sm m)

  -- A memory of scope ttl whose ValidUntil is set and before the end of the 24 hours from now.
  abbrev pub ends_in_a_day : ℕ → Memory F → Bool
  ends_in_a_day now x =
      str_eq x.scope "ttl"
      && not (x.valid_until == 0)
      && ltb x.valid_until (now + 24 * 60 * 60 * 1000000000)

  -- The statistics count, for every type and scope, the stored memories that have it; for the tiers
  -- 0, 1-3, 4-10 and 10+ the memories reinforced as many times; the active conflicts; the memories
  -- of scope ttl whose ValidUntil is set and before the end of the next 24 hours; and all memories.
  pub stats-counts :
      (preview : String → String) (now : ℕ) (s : MockStore F) (t : String)
      → let c = stats preview now s in
        (tally t c.by_type ≡ counting (λ x. str_eq x.type t) s.memories)
        × (tally t c.by_scope ≡ counting (λ x. str_eq x.scope t) s.memories)
        × (tally "0" c.reinforcement_tiers ≡ counting (λ x. x.reinforced_count == 0) s.memories)
        × (tally "1-3" c.reinforcement_tiers
            ≡ counting (λ x. leb 1 x.reinforced_count && leb x.reinforced_count 3) s.memories)
        × (tally "4-10" c.reinforcement_tiers
            ≡ counting (λ x. leb 4 x.reinforced_count && leb x.reinforced_count 10) s.memories)
        × (tally "10+" c.reinforcement_tiers ≡ counting (λ x. leb 11 x.reinforced_count) s.memories)
        × (c.active_conflicts ≡ counting (λ x. str_eq x.conflict_status "active") s.memories)
        × (c.pending_ttl_expiry ≡ counting (ends_in_a_day now) s.memories)
        × (c.total_memories ≡ length s.memories)
  unfolding stats lookup
  stats-counts preview now s t =
      let k = add_memories-Counts now s.memories _ in
      let m = s.memories in
      (
        omega (arith, k.types t),
        omega (arith, k.scopes t),
        omega (arith, k.tiers "0", counting_same _ _ m (λ x. tier_0 x.reinforced_count)),
        omega (arith, k.tiers "1-3", counting_same _ _ m (λ x. tier_1_3 x.reinforced_count)),
        omega (arith, k.tiers "4-10", counting_same _ _ m (λ x. tier_4_10 x.reinforced_count)),
        omega (arith, k.tiers "10+", counting_same _ _ m (λ x. tier_11 x.reinforced_count)),
        omega (arith, k.conflicts),
        omega (arith, k.pending, counting_same (is_pending now) (ends_in_a_day now) m (λ x. refl)),
        k.total,
      )
