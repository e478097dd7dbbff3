-- ===== src/Lifecycle/Manager/DryRun.antt =====
-- internal/lifecycle/lifecycle.go: what the flag dryRun leaves out.
use openclaw_cortex.Base.{
  ℕ, suc, String, Bool, true, Option, none, some, List, [], ◌∷◌, ◌≡◌, refl, ◌∙◌, inl, inr, arith,
  Map, map, if◌then◌else◌, ltb, length, Bool-cases, Option-cases,
}
use openclaw_cortex.Base.Float.{Float}
use openclaw_cortex.Models.{Memory}
use openclaw_cortex.Store.Filters.{no_filters}
use openclaw_cortex.Lifecycle.{
  Access, list_all, scoped, fact_over, sweep, sweep_scope, expire_ttl, decay_sessions,
  retire_expired_facts,
}
use openclaw_cortex.Lifecycle.Conflicts.{
  Sorting, wins, grouped, resolve_group, resolve_groups, resolve_conflicts,
}
use openclaw_cortex.Lifecycle.Consolidation.{Embedded, zip, merge_with, merge_all, consolidate}
use openclaw_cortex.Lifecycle.Manager.{run}

module _ {F S : Type 0} (access : Access F S) where
  sweep_dry :
      (due : Memory F → Bool) (ms : List (Memory F)) (s : S) → (sweep access due true ms s).0 ≡ s
  unfolding sweep
  sweep_dry due [] s = refl
  sweep_dry due (m ∷ ms) s = elim (Bool-cases (due m)) [
    | inl e ↦ rw (e, sweep) (sweep_dry due ms s)
    | inr e ↦ rw (e, sweep) (sweep_dry due ms s)
  ]

  sweep_scope_dry :
      (scope : String) (due : Memory F → Bool) (s : S) → (sweep_scope access scope due true s).0 ≡ s
  unfolding sweep_scope
  sweep_scope_dry scope due s = elim (Option-cases (list_all access (scoped scope) s)) [
    | inl e ↦ rw (e, sweep_scope) refl
    | inr (none, e) ↦ rw (e, sweep_scope) refl
    | inr (some ms, e) ↦ rw (e, sweep_scope) (sweep_dry due ms s)
  ]

module _ {S : Type 0} (fl : Float) (access : Access (fl.Number) S) where
  open fl use {Number}

  merge_with_dry :
      (a : Embedded fl access) (bs : List (Embedded fl access)) (deleted : List String) (n : ℕ)
      (s : S)
      → (merge_with fl access true a bs deleted n s).0 ≡ s
  unfolding merge_with
  merge_with_dry a [] deleted n s = refl
  merge_with_dry a (b ∷ bs) deleted n s =
      ground
        (arith, merge_with_dry a bs deleted n s, merge_with_dry a bs (b.0.id ∷ deleted) (suc n) s)

  merge_all_dry :
      (bs : List (Embedded fl access)) (deleted : List String) (n : ℕ) (s : S)
      → (merge_all fl access true bs deleted n s).0 ≡ s
  unfolding merge_all
  merge_all_dry [] deleted n s = refl
  merge_all_dry (a ∷ bs) deleted n s =
      let (s', d', n') = merge_with fl access true a bs deleted n s in
      ground (
        arith,
        merge_with_dry a bs deleted n s,
        merge_all_dry bs deleted n s,
        merge_all_dry bs d' n' s',
      )

  consolidate_dry :
      (emb : Option (List String → Option (List (List Number)))) (s : S)
      → (consolidate fl access emb true s).0 ≡ s
  unfolding consolidate
  consolidate_dry none s = refl
  consolidate_dry (some embed_batch) s =
      elim (Option-cases (list_all access (scoped "permanent") s)) [
        | inl e ↦ rw (e, consolidate) refl
        | inr (none, e) ↦ rw (e, consolidate) refl
        | inr (some [], e) ↦ rw (e, consolidate) refl
        | inr (some (m ∷ ms), e) ↦
            elim (Option-cases (embed_batch (map (λ m. m.content) (m ∷ ms)))) [
              | inl k ↦ rw (e, consolidate) (rw k refl)
              | inr (vecs, k) ↦
                  rw (e, consolidate)
                    (rw k (ground (arith, merge_all_dry (zip fl access (m ∷ ms) vecs) [] 0 s)))
            ]
      ]

  resolve_group_dry :
      (g : String) (ms : List (Memory Number)) (s : S) → (resolve_group fl access true g ms s).0 ≡ s
  unfolding resolve_group
  resolve_group_dry g [] s = refl
  resolve_group_dry g (m ∷ ms) s = refl

  group_dry :
      (sort : Sorting fl access) (g : String) (ms : List (Memory Number)) (s : S)
      → (if ltb (length ms) 2
          then (s, 0)
          else resolve_group fl access true g (sort (wins fl access) ms) s).0
        ≡ s
  group_dry sort g ms s = elim (Bool-cases (ltb (length ms) 2)) [
    | inl e ↦ rw e refl
    | inr e ↦ rw e (resolve_group_dry g _ s)
  ]

  resolve_groups_dry :
      (sort : Sorting fl access) (groups : Map (List (Memory Number))) (s : S)
      → (resolve_groups fl access sort true groups s).0 ≡ s
  unfolding resolve_groups resolve_group
  resolve_groups_dry sort [] s = refl
  resolve_groups_dry sort ((g, ms) ∷ groups) s =
      resolve_groups_dry sort groups _ ∙ group_dry sort g ms s

  resolve_conflicts_dry :
      (sort : Sorting fl access) (s : S) → (resolve_conflicts fl access sort true s).0 ≡ s
  unfolding resolve_conflicts
  resolve_conflicts_dry sort s =
      elim (Option-cases
        (list_all access (some (record no_filters { conflict_status = some "active" })) s)) [
          | inl e ↦ rw (e, resolve_conflicts) refl
          | inr (none, e) ↦ rw (e, resolve_conflicts) refl
          | inr (some ms, e) ↦ rw (e, resolve_conflicts) (resolve_groups_dry sort (grouped ms []) s)
        ]

  retire_dry : (now : ℕ) (s : S) → (retire_expired_facts access now true s).0 ≡ s
  unfolding retire_expired_facts
  retire_dry now s =
      let first = sweep_scope_dry access "permanent" (fact_over now) s in
      elim (Bool-cases (sweep_scope access "permanent" (fact_over now) true s).2) [
        | inl e ↦
            rw (e, retire_expired_facts)
              (sweep_scope_dry access "project" (fact_over now) _ ∙ first)
        | inr e ↦ rw (e, retire_expired_facts) first
      ]

  -- Run with dryRun leaves the store as it is, also where phases fail.
  pub dry_run_changes_nothing :
      (emb : Option (List String → Option (List (List Number)))) (sort : Sorting fl access)
      (t1 t2 t4 : ℕ) (s : S)
      → (run fl access emb sort t1 t2 t4 true s).0 ≡ s
  unfolding run expire_ttl decay_sessions
  dry_run_changes_nothing emb sort t1 t2 t4 s =
      resolve_conflicts_dry sort _
      ∙ retire_dry t4 _
      ∙ consolidate_dry emb _
      ∙ sweep_scope_dry access "session" _ _
      ∙ sweep_scope_dry access "ttl" _ s
