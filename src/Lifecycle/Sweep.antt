-- ===== src/Lifecycle/Sweep.antt =====
-- internal/lifecycle/lifecycle.go: what the deleting loops leave in the store of mock_store.go.
use openclaw_cortex.Base.{
  suc, String, Bool, true, false, ◌&&◌, none, some, List, [], ◌∷◌, ◌≡◌, refl, sym, ap, ◌∙◌, inl,
  inr, arith, if◌then◌else◌, any, All, Bool-cases, lookup, lookup-erase, str_eq, eq_iff,
}
use openclaw_cortex.Models.{Memory}
use openclaw_cortex.Store.Mock.{Stored, MockStore, delete}
use openclaw_cortex.Lifecycle.{sweep}
use openclaw_cortex.Lifecycle.Pages.InMemory.{in_memory, is_ok, Identified}

module _ {F : Type 0} (id_less : String → String → Bool) (due : Memory F → Bool) where
  -- `m` stands under its id.
  abbrev Present : MockStore F → Memory F → Type 0
  Present s m = (sm : Stored F) × (lookup m.id s.memories ≡ some sm)

  lookup-delete :
      (id j : String) (s : MockStore F)
      → lookup j (delete id s).0.memories ≡ (if str_eq id j then none else lookup j s.memories)
  unfolding delete
  lookup-delete id j s = ground (arith, lookup-erase id j s.memories, eq_iff id j)

  delete-Present : (m : Memory F) (s : MockStore F) → Present s m → is_ok (delete m.id s).1 ≡ true
  unfolding delete
  delete-Present m s (sm, e) = ground (arith, e)

  sweep_kept :
      (dry_run : Bool) (m : Memory F) (ms : List (Memory F)) (s : MockStore F)
      → due m ≡ false
      → sweep (in_memory id_less) due dry_run (m ∷ ms) s
        ≡ sweep (in_memory id_less) due dry_run ms s
  unfolding sweep
  sweep_kept dry_run m ms s e = rw (e, sweep) refl

  sweep_due :
      (m : Memory F) (ms : List (Memory F)) (s : MockStore F)
      → due m ≡ true
      → sweep (in_memory id_less) due false (m ∷ ms) s ≡ (
        (sweep (in_memory id_less) due false ms (delete m.id s).0).0,
        if is_ok (delete m.id s).1
            then suc (sweep (in_memory id_less) due false ms (delete m.id s).0).1
            else (sweep (in_memory id_less) due false ms (delete m.id s).0).1,
      )
  unfolding sweep
  sweep_due m ms s e = rw (e, sweep) refl

  sweep_foretold :
      (m : Memory F) (ms : List (Memory F)) (s : MockStore F)
      → due m ≡ true
      → (sweep (in_memory id_less) due true (m ∷ ms) s).1
        ≡ suc (sweep (in_memory id_less) due true ms s).1
  unfolding sweep
  sweep_foretold m ms s e = rw (e, sweep) refl

  -- After the deleting loop exactly the due memories are gone from the store in memory.
  sweep-removes :
      (ms : List (Memory F)) (s : MockStore F) (j : String)
      → lookup j (sweep (in_memory id_less) due false ms s).0.memories
        ≡ (if any (λ m. due m && str_eq m.id j) ms then none else lookup j s.memories)
  unfolding sweep
  sweep-removes [] s j = refl
  sweep-removes (m ∷ ms) s j = elim (Bool-cases (due m)) [
    | inr e ↦
        ap (λ r. lookup j r.0.memories) (sweep_kept false m ms s e)
        ∙ sweep-removes ms s j
        ∙ ground (arith, e)
    | inl e ↦
        ap (λ r. lookup j r.0.memories) (sweep_due m ms s e)
        ∙ sweep-removes ms (delete m.id s).0 j
        ∙ ground (arith, e, lookup-delete m.id j s)
  ]

  dry_count :
      (ms : List (Memory F)) (s t : MockStore F)
      → (sweep (in_memory id_less) due true ms s).1 ≡ (sweep (in_memory id_less) due true ms t).1
  unfolding sweep
  dry_count [] s t = refl
  dry_count (m ∷ ms) s t = elim (Bool-cases (due m)) [
    | inr e ↦ rw (e, sweep) (dry_count ms s t)
    | inl e ↦ rw (e, sweep) (ap suc (dry_count ms s t))
  ]

  still-Present :
      (m : Memory F) (s : MockStore F) (ms : List (Memory F))
      → All (λ n. str_eq m.id n.id ≡ false) ms
      → All (Present s) ms
      → All (Present (delete m.id s).0) ms
  still-Present m s [] d p = tt
  still-Present m s (n ∷ ms) d p =
      ((p.0.0, lookup-delete m.id n.id s ∙ rw (d.0) (p.0.1)), still-Present m s ms d.1 p.1)

  -- Where the listed memories are stored and their ids stand once, a real sweep counts as many
  -- memories as the dry run.
  dry_run_foretells :
      (ms : List (Memory F)) (s : MockStore F)
      → Identified ms
      → All (Present s) ms
      → (sweep (in_memory id_less) due false ms s).1 ≡ (sweep (in_memory id_less) due true ms s).1
  unfolding sweep
  dry_run_foretells [] s h p = refl
  dry_run_foretells (m ∷ ms) s h p = elim (Bool-cases (due m)) [
    | inr e ↦
        ap (λ r. r.1) (sweep_kept false m ms s e)
        ∙ dry_run_foretells ms s h.2 p.1
        ∙ sym (ap (λ r. r.1) (sweep_kept true m ms s e))
    | inl e ↦
        ap (λ r. r.1) (sweep_due m ms s e)
        ∙ rw (delete-Present m s p.0) (
            ap suc (
              dry_run_foretells ms (delete m.id s).0 h.2 (still-Present m s ms h.1 p.1)
              ∙ dry_count ms (delete m.id s).0 s))
        ∙ sym (sweep_foretold m ms s e)
  ]
