-- ===== src/Lifecycle/Manager.antt =====
-- internal/lifecycle/lifecycle.go `Run`.
pub mod DryRun
use openclaw_cortex.Base.{
  ℕ, zero, suc, ◌+◌, String, Bool, true, false, not, ◌&&◌, ◌||◌, Option, none, some, List, [], ◌∷◌,
  ◌++◌, map, ltb, ◌==◌, if◌then◌else◌, length, any, Map, lookup, insert, str_eq,
}
use openclaw_cortex.Base.Float.{Float}
use openclaw_cortex.Models.{Memory}
use openclaw_cortex.Lifecycle.{Access, Report, expire_ttl, decay_sessions, retire_expired_facts}
use openclaw_cortex.Lifecycle.Conflicts.{Sorting, resolve_conflicts}
use openclaw_cortex.Lifecycle.Consolidation.{consolidate}

module _ {S : Type 0} (fl : Float) (access : Access (fl.Number) S) where
  open fl use {Number, lit, minus, lt}

  -- `Run`: every phase runs, whatever failed before it. The times are those the phases read.
  unfoldable pub run :
      Option (List String → Option (List (List Number)))
      → Sorting fl access
      → ℕ
      → ℕ
      → ℕ
      → Bool
      → S
      → S × Report × Bool
  unfolding expire_ttl decay_sessions consolidate retire_expired_facts resolve_conflicts
  run emb sort t1 t2 t4 dry_run s =
      let (s1, expired, ok1) = expire_ttl access t1 dry_run s in
      let (s2, decayed, ok2) = decay_sessions access t2 dry_run s1 in
      let (s3, consolidated, ok3) = consolidate fl access emb dry_run s2 in
      let (s4, retired, ok4) = retire_expired_facts access t4 dry_run s3 in
      let (s5, resolved, ok5) = resolve_conflicts fl access sort dry_run s4 in
      (
        s5,
        record {
          expired = expired;
          decayed = decayed;
          consolidated = consolidated;
          retired = retired;
          conflicts_resolved = resolved;
        },
        ok1 && ok2 && ok3 && ok4 && ok5,
      )
