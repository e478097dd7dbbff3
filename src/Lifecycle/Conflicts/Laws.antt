-- ===== src/Lifecycle/Conflicts/Laws.antt =====
-- internal/lifecycle/lifecycle.go `resolveConflicts`: the groups, and what the store holds after it.
use mathlib.Core.List.{append-nil, append_assoc}
use openclaw_cortex.Base.{
  String, Bool, true, false, Option, none, some, List, [], ◌∷◌, ◌++◌, ◌≡◌, refl, sym, ap, subst,
  ◌∙◌, inl, inr, arith, if◌then◌else◌, keep, any, Bool-cases, Option-cases, Map, lookup, insert,
  lookup-insert, str_eq, eq_iff,
}
use openclaw_cortex.Base.Float.{Float}
use openclaw_cortex.Models.{Memory}
use openclaw_cortex.Store.Mock.{Stored, MockStore, modify, update_conflict_fields}
use openclaw_cortex.Store.Mock.Laws.{lookup-modify, lookup-modify_same, modify_gone}
use openclaw_cortex.Lifecycle.Conflicts.{grouped, mark_losers, resolve_group}
use openclaw_cortex.Lifecycle.Pages.InMemory.{in_memory}

module _ {F : Type 0} where
  abbrev pub members : String → Map (List (Memory F)) → List (Memory F)
  members g groups = elim (lookup g groups) [ none ↦ [] | some ms ↦ ms ]

  abbrev of_group : String → Memory F → Bool
  of_group g m = str_eq m.conflict_group_id g

  members-insert_same :
      (g h : String) (ms : List (Memory F)) (groups : Map (List (Memory F)))
      → str_eq h g ≡ true
      → members g (insert h ms groups) ≡ ms
  members-insert_same g h ms groups e = ground (arith, lookup-insert h g ms groups)

  members-insert_other :
      (g h : String) (ms : List (Memory F)) (groups : Map (List (Memory F)))
      → str_eq h g ≡ false
      → members g (insert h ms groups) ≡ members g groups
  members-insert_other g h ms groups n = ground (arith, lookup-insert h g ms groups)

  keep_same :
      (g : String) (m : Memory F) (ms : List (Memory F))
      → of_group g m ≡ true
      → keep (of_group g) (m ∷ ms) ≡ m ∷ keep (of_group g) ms
  keep_same g m ms e = ground (arith, e)

  keep_other :
      (g : String) (m : Memory F) (ms : List (Memory F))
      → of_group g m ≡ false
      → keep (of_group g) (m ∷ ms) ≡ keep (of_group g) ms
  keep_other g m ms e = ground (arith, e)

  grouped_step :
      (g : String) (m : Memory F) (ms : List (Memory F)) (groups : Map (List (Memory F)))
      → members g (insert m.conflict_group_id (members m.conflict_group_id groups ++ m ∷ []) groups)
          ++ keep (of_group g) ms
        ≡ members g groups ++ keep (of_group g) (m ∷ ms)
  grouped_step g m ms groups = elim (Bool-cases (of_group g m)) [
    | inl e ↦
        ap (λ l. l ++ keep (of_group g) ms) (members-insert_same g m.conflict_group_id _ groups e)
        ∙ append_assoc (members m.conflict_group_id groups) (m ∷ []) (keep (of_group g) ms)
        ∙ ap (λ k. members k groups ++ m ∷ keep (of_group g) ms)
            ((eq_iff m.conflict_group_id g).0 e)
        ∙ ap (λ l. members g groups ++ l) (sym (keep_same g m ms e))
    | inr e ↦
        ap (λ l. l ++ keep (of_group g) ms) (members-insert_other g m.conflict_group_id _ groups e)
        ∙ ap (λ l. members g groups ++ l) (sym (keep_other g m ms e))
  ]

  -- The members of a conflict group are the memories that carry its id, in the order of the
  -- listing.
  grouped-keep :
      (g : String) (ms : List (Memory F)) (groups : Map (List (Memory F)))
      → str_eq g "" ≡ false
      → members g (grouped ms groups) ≡ members g groups ++ keep (of_group g) ms
  unfolding grouped
  grouped-keep g [] groups h = sym (append-nil (members g groups))
  grouped-keep g (m ∷ ms) groups h = elim (Bool-cases (str_eq m.conflict_group_id "")) [
    | inl e ↦
        rw (e, grouped)
          (grouped-keep g ms groups h
            ∙ ap (λ l. members g groups ++ l)
                (sym (
                  keep_other g m ms (
                    ground (
                      arith,
                      h,
                      (eq_iff m.conflict_group_id "").0 e,
                      eq_iff m.conflict_group_id g,
                    )))))
    | inr e ↦ rw (e, grouped) (grouped-keep g ms _ h ∙ grouped_step g m ms groups)
  ]

  abbrev pub resolved : String → Memory F → Memory F
  resolved g m = record m { conflict_group_id = g; conflict_status = "resolved" }

  abbrev mark : String → Option (Stored F) → Option (Stored F)
  mark g none = none
  mark g (some sm) = some (record sm { memory = resolved g sm.memory })

  mark_twice : (g : String) (o : Option (Stored F)) → mark g (mark g o) ≡ mark g o
  mark_twice g none = refl
  mark_twice g (some sm) = refl

  update_same :
      (id g : String) (s : MockStore F)
      → lookup id (modify id (resolved g) s).0.memories ≡ mark g (lookup id s.memories)
  update_same id g s = elim (Option-cases (lookup id s.memories)) [
    | inl gone ↦
        ap (λ r. lookup id r.0.memories) (modify_gone id (resolved g) s gone)
        ∙ gone
        ∙ ap (mark g) (sym gone)
    | inr (sm, here) ↦ lookup-modify_same id (resolved g) s sm here ∙ ap (mark g) (sym here)
  ]

  lookup-update :
      (id g : String) (s : MockStore F) (j : String)
      → lookup j (update_conflict_fields id g "resolved" s).0.memories
        ≡ (if str_eq id j then mark g (lookup j s.memories) else lookup j s.memories)
  unfolding update_conflict_fields
  lookup-update id g s j = elim (Bool-cases (str_eq id j)) [
    | inr n ↦ lookup-modify id (resolved g) s j n ∙ ground (arith, n)
    | inl e ↦
        subst (λ k. lookup k (modify id (resolved g) s).0.memories ≡ mark g (lookup k s.memories))
          ((eq_iff id j).0 e) (update_same id g s)
        ∙ ground (arith, e)
  ]

  lookup-mark_losers :
      (id_less : String → String → Bool) (g : String) (ms : List (Memory F)) (s : MockStore F)
      (j : String)
      → lookup j (mark_losers (in_memory id_less) g ms s).0.memories ≡ (
          if any (λ m. str_eq m.id j) ms then mark g (lookup j s.memories) else lookup j s.memories)
  unfolding mark_losers
  lookup-mark_losers id_less g [] s j = refl
  lookup-mark_losers id_less g (m ∷ ms) s j =
      lookup-mark_losers id_less g ms (update_conflict_fields m.id g "resolved" s).0 j
      ∙ ground (arith, lookup-update m.id g s j, mark_twice g (lookup j s.memories))

-- Resolving a group marks each of its stored members as resolved and changes no other memory.
resolve_group-marks :
    (fl : Float) (id_less : String → String → Bool) (g : String) (winner : Memory (fl.Number))
    (losers : List (Memory (fl.Number))) (s : MockStore (fl.Number)) (j : String)
    → lookup j (resolve_group fl (in_memory id_less) false g (winner ∷ losers) s).0.memories ≡ (
        if any (λ m. str_eq m.id j) (winner ∷ losers)
        then mark g (lookup j s.memories)
        else lookup j s.memories)
unfolding resolve_group
resolve_group-marks fl id_less g winner losers s j =
    lookup-mark_losers id_less g (winner ∷ losers) s j
