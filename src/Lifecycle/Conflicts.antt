-- ===== src/Lifecycle/Conflicts.antt =====
-- internal/lifecycle/lifecycle.go `resolveConflicts`. `sort` is sort.Slice, whose order of equals Go
-- leaves open.
pub mod Laws
use openclaw_cortex.Base.{
  ℕ, zero, suc, ◌+◌, String, Bool, true, false, not, ◌&&◌, ◌||◌, Option, none, some, List, [], ◌∷◌,
  ◌++◌, map, ltb, ◌==◌, if◌then◌else◌, length, any, Map, lookup, insert, str_eq,
}
use openclaw_cortex.Base.Float.{Float}
use openclaw_cortex.Models.{Memory}
use openclaw_cortex.Store.Filters.{no_filters}
use openclaw_cortex.Lifecycle.{Access, list_all}

module _ {F : Type 0} where
  -- groups[g] = append(groups[g], m)
  unfoldable pub grouped : List (Memory F) → Map (List (Memory F)) → Map (List (Memory F))
  grouped [] groups = groups
  grouped (m ∷ ms) groups =
      if str_eq m.conflict_group_id ""
      then grouped ms groups
      else grouped ms (
          insert m.conflict_group_id
            ((elim (lookup m.conflict_group_id groups) [ none ↦ [] | some g ↦ g ]) ++ m ∷ [])
            groups)

module _ {F S : Type 0} (access : Access F S) where
  -- The members behind the winner: the count is of those marked.
  unfoldable pub mark_losers : String → List (Memory F) → S → S × ℕ
  mark_losers group_id [] s = (s, 0)
  mark_losers group_id (m ∷ ms) s =
      let (s', ok) = access.update_conflict_fields m.id group_id "resolved" s in
      let (t, n) = mark_losers group_id ms s' in (t, if ok then suc n else n)

module _ {S : Type 0} (fl : Float) (access : Access (fl.Number) S) where
  open fl use {Number, lit, minus, lt}

  abbrev abs : Number → Number
  abs x = if lt x (lit 0 0) then minus (lit 0 0) x else x

  unfoldable pub wins : Memory Number → Memory Number → Bool
  wins a b =
      if lt (lit 1 2) (abs (minus a.confidence b.confidence))
      then lt b.confidence a.confidence
      else ltb b.created_at a.created_at

  unfoldable pub resolve_group : Bool → String → List (Memory Number) → S → S × ℕ
  unfolding mark_losers
  resolve_group dry_run group_id [] s = (s, 0)
  resolve_group dry_run group_id (winner ∷ losers) s =
      if dry_run
      then (s, length losers)
      else mark_losers access group_id losers
          (access.update_conflict_fields winner.id group_id "resolved" s).0

  abbrev pub Sorting : Type 0
  Sorting = (Memory Number → Memory Number → Bool) → List (Memory Number) → List (Memory Number)

  unfoldable pub resolve_groups : Sorting → Bool → Map (List (Memory Number)) → S → S × ℕ
  unfolding resolve_group wins
  resolve_groups sort dry_run [] s = (s, 0)
  resolve_groups sort dry_run ((g, ms) ∷ groups) s =
      let (s', n) =
        if ltb (length ms) 2 then (s, 0) else resolve_group dry_run g (sort wins ms) s in
      let (t, k) = resolve_groups sort dry_run groups s' in (t, n + k)

  unfoldable pub resolve_conflicts : Sorting → Bool → S → S × ℕ × Bool
  unfolding list_all grouped resolve_groups
  resolve_conflicts sort dry_run s =
      elim (list_all access (some (record no_filters { conflict_status = some "active" })) s) [
        | some (some ms) ↦
            (let (t, n) = resolve_groups sort dry_run (grouped ms []) s in (t, n, true))
        | _ ↦ (s, 0, false)
      ]
