-- ===== src/Lifecycle.antt =====
-- internal/lifecycle/lifecycle.go: the manager's phases over a store, without logs and metrics.
pub mod Pages
pub mod Ttl
pub mod Sweep
pub mod Conflicts
pub mod Consolidation
pub mod Manager
mod Tests
use openclaw_cortex.Base.{
  ℕ, zero, suc, ◌+◌, ◌-◌, ◌*◌, ◌%◌, ◌^◌, String, Bool, true, false, not, ◌&&◌, ◌||◌, Option, none,
  some, List, [], ◌∷◌, ◌++◌, map, ltb, leb, ◌==◌, if◌then◌else◌, length, take, any, Map, lookup,
  insert, str_eq,
}
use openclaw_cortex.Base.Float.{Float}
use openclaw_cortex.Base.Int.{ℤ, pos, negsuc}
use openclaw_cortex.Models.{Memory}
use openclaw_cortex.Store.Filters.{SearchFilters, no_filters}
use openclaw_cortex.Store.Mock.{cosine_similarity}

-- The methods of store.Store that the manager calls, on states of type `S`. `none` and `false` are
-- errors.
pub record Access (F : Type 0) (S : Type 0) : Type 0 where
  pub list : Option SearchFilters → ℕ → String → S → Option (List (Memory F) × String)
  pub delete : String → S → S × Bool
  pub update_conflict_fields : String → String → String → S → S × Bool

pub record Report : Type 0 where
  pub expired : ℕ
  pub decayed : ℕ
  pub consolidated : ℕ
  pub retired : ℕ
  pub conflicts_resolved : ℕ

abbrev pub page_size : ℕ
page_size = 500

abbrev pub max_list_all_memories : ℕ
max_list_all_memories = 50000

abbrev pub second : ℕ
second = 1000000000

-- time.Duration(ttl) * time.Second in 64 bits, read as unsigned.
unfoldable pub ttl_bits : ℕ → ℕ
ttl_bits n = (n * second) % 2 ^ 64

-- now.After(created.Add(d)): bits from 2 ^ 63 on are the negative duration `d - 2 ^ 64`.
unfoldable pub ttl_over : ℕ → ℕ → ℤ → Bool
unfolding ttl_bits
ttl_over now created (negsuc n) = false
ttl_over now created (pos n) =
    if n == 0
    then false
    else (if ltb (ttl_bits n) (2 ^ 63)
        then ltb (created + ttl_bits n) now
        else ltb (created + ttl_bits n) (now + 2 ^ 64))

abbrev pub day : ℕ
day = 24 * 3600 * second

-- now.Sub(lastAccess) > 24h; Sub stops at 292 years, which changes no comparison with a day.
unfoldable session_over : {F : Type 0} → ℕ → Memory F → Bool
session_over now m =
    ltb ((if m.last_accessed == 0 then m.created_at else m.last_accessed) + day) now

unfoldable pub fact_over : {F : Type 0} → ℕ → Memory F → Bool
fact_over now m = not (m.valid_until == 0) && ltb m.valid_until now

abbrev pub scoped : String → Option SearchFilters
scoped scope = some (record no_filters { scope = some scope })

module _ {F S : Type 0} (access : Access F S) where
  -- `none` when the fuel runs out, `some none` when List fails. `all` is what is loaded.
  unfoldable pub pages :
      ℕ → Option SearchFilters → List (Memory F) → String → S → Option (Option (List (Memory F)))
  pages zero f all cursor s = none
  pages (suc fuel) f all cursor s = elim (access.list f page_size cursor s) [
    | none ↦ some none
    | some (p, next) ↦ elim (leb max_list_all_memories (length (all ++ p))) [
      | true ↦ some (some (take max_list_all_memories (all ++ p)))
      | false ↦ elim (str_eq next "") [
        | true ↦ some (some (all ++ p))
        | false ↦ pages fuel f (all ++ p) next s
      ]
    ]
  ]

  -- A page with a cursor has at least one memory, so the cap ends the loop within this fuel.
  unfoldable pub list_all : Option SearchFilters → S → Option (Option (List (Memory F)))
  unfolding pages
  list_all f s = pages (suc max_list_all_memories) f [] "" s

  -- The loop that the three deleting phases share: a delete that fails is not counted.
  unfoldable pub sweep : (Memory F → Bool) → Bool → List (Memory F) → S → S × ℕ
  sweep due dry_run [] s = (s, 0)
  sweep due dry_run (m ∷ ms) s = elim (due m) [
    | false ↦ sweep due dry_run ms s
    | true ↦ elim dry_run [
      | true ↦ (let (t, n) = sweep due dry_run ms s in (t, suc n))
      | false ↦
          (let (s', ok) = access.delete m.id s in
            let (t, n) = sweep due dry_run ms s' in (t, if ok then suc n else n))
    ]
  ]

  -- A phase that sweeps a scope: `false` reports that listing failed.
  unfoldable pub sweep_scope : String → (Memory F → Bool) → Bool → S → S × ℕ × Bool
  unfolding list_all sweep
  sweep_scope scope due dry_run s = elim (list_all (scoped scope) s) [
    | some (some ms) ↦ (let (t, n) = sweep due dry_run ms s in (t, n, true))
    | _ ↦ (s, 0, false)
  ]

  unfoldable pub expire_ttl : ℕ → Bool → S → S × ℕ × Bool
  unfolding sweep_scope ttl_over
  expire_ttl now = sweep_scope "ttl" (λ m. ttl_over now m.created_at m.ttl_seconds)

  unfoldable pub decay_sessions : ℕ → Bool → S → S × ℕ × Bool
  unfolding sweep_scope session_over
  decay_sessions now = sweep_scope "session" (session_over now)

  -- Permanent memories, then project ones; a failed listing keeps the count so far.
  unfoldable pub retire_expired_facts : ℕ → Bool → S → S × ℕ × Bool
  unfolding sweep_scope fact_over
  retire_expired_facts now dry_run s =
      let (s1, n1, ok1) = sweep_scope "permanent" (fact_over now) dry_run s in
      if ok1
      then (let (s2, n2, ok2) = sweep_scope "project" (fact_over now) dry_run s1 in
          (s2, n1 + n2, ok2))
      else (s1, n1, false)
