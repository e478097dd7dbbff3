-- ===== src/Store/Mock/Laws.antt =====
-- internal/store/mock_store.go: what the writing methods leave for the reading ones.
use openclaw_cortex.Base.{
  ℕ, String, false, Option, none, some, List, ◌≡◌, refl, sym, ap, ◌∙◌, inl, inr, arith,
  if◌then◌else◌, Bool-cases, Option-cases, lookup, insert, lookup-insert, lookup-erase, str_eq,
  eq_iff,
}
use openclaw_cortex.Models.{Memory}
use openclaw_cortex.Store.Filters.{
  is_none, no_filters, matches_filters, hidden, valid_now, in_window,
}
use openclaw_cortex.Store.Mock.{
  Stored, MockStore, Reply, ok, not_found, modify, invalidated, supersede, stamped, upsert, get,
  delete, invalidate_memory, update_access_metadata, update_conflict_fields,
}
use openclaw_cortex.Store.Mock.Chain.{IsKeyed}

module _ {F : Type 0} where
  abbrev shown : Option (Stored F) → Reply (Memory F)
  shown none = not_found
  shown (some sm) = ok (record (sm.memory) { is_current_version = is_none sm.memory.valid_to })

  get-shown : (id : String) (s : MockStore F) → get id s ≡ shown (lookup id s.memories)
  unfolding get
  get-shown id s = ground arith

  get-ap :
      (id j : String) (s t : MockStore F)
      → lookup id s.memories ≡ lookup j t.memories
      → get id s ≡ get j t
  get-ap id j s t e = get-shown id s ∙ ap shown e ∙ sym (get-shown j t)

  pub modify_gone :
      (id : String) (f : Memory F → Memory F) (s : MockStore F)
      → lookup id s.memories ≡ none
      → modify id f s ≡ (s, not_found)
  unfolding modify
  modify_gone id f s h = ground arith

  modify_here :
      (id : String) (f : Memory F → Memory F) (s : MockStore F) (sm : Stored F)
      → lookup id s.memories ≡ some sm
      → modify id f s
        ≡ (record s { memories = insert id (record sm { memory = f sm.memory }) s.memories }, ok tt)
  unfolding modify
  modify_here id f s sm h = ground arith

  -- A method that changes one memory through its pointer changes it by its function, fails only on
  -- an unknown id, and leaves every other memory and every entity.
  pub lookup-modify :
      (id : String) (f : Memory F → Memory F) (s : MockStore F) (j : String)
      → str_eq id j ≡ false
      → lookup j (modify id f s).0.memories ≡ lookup j s.memories
  lookup-modify id f s j n = elim (Option-cases (lookup id s.memories)) [
    | inl gone ↦ ap (λ r. lookup j r.0.memories) (modify_gone id f s gone)
    | inr (sm, here) ↦
        ap (λ r. lookup j r.0.memories) (modify_here id f s sm here)
        ∙ ground (arith, lookup-insert id j (record sm { memory = f sm.memory }) s.memories)
  ]

  pub lookup-modify_same :
      (id : String) (f : Memory F → Memory F) (s : MockStore F) (sm : Stored F)
      → lookup id s.memories ≡ some sm
      → lookup id (modify id f s).0.memories ≡ some (record sm { memory = f sm.memory })
  lookup-modify_same id f s sm here =
      ap (λ r. lookup id r.0.memories) (modify_here id f s sm here)
      ∙ ground
          (arith, eq_iff id id, lookup-insert id id (record sm { memory = f sm.memory }) s.memories)

  lookup-supersede :
      (now : ℕ) (id : String) (s : MockStore F) (j : String)
      → str_eq id j ≡ false
      → lookup j (supersede now id s).memories ≡ lookup j s.memories
  unfolding supersede
  lookup-supersede now id s j n = ground (arith, lookup-modify id (invalidated now) s j n)

  -- An upserted memory is read back as it was stamped.
  pub get-upsert :
      (now : ℕ) (m : Memory F) (v : List F) (s : MockStore F)
      → get m.id (upsert now m v s) ≡ ok (stamped now m)
  unfolding upsert stamped
  get-upsert now m v s =
      get-shown m.id (upsert now m v s)
      ∙ ap shown (lookup-insert m.id m.id _ (supersede now m.supersedes_id s).memories)
      ∙ ground (arith, eq_iff m.id m.id)

  lookup-upsert_superseded :
      (now : ℕ) (m : Memory F) (v : List F) (s : MockStore F) (sm : Stored F)
      → lookup m.supersedes_id s.memories ≡ some sm
      → str_eq m.supersedes_id "" ≡ false
      → str_eq m.id m.supersedes_id ≡ false
      → lookup m.supersedes_id (upsert now m v s).memories
        ≡ some (record sm { memory = invalidated now sm.memory })
  unfolding upsert supersede
  lookup-upsert_superseded now m v s sm here k n =
      lookup-insert m.id m.supersedes_id _ (supersede now m.supersedes_id s).memories
      ∙ ground (arith, lookup-modify_same m.supersedes_id (invalidated now) s sm here)

  not_current :
      (now : ℕ) (m : Memory F)
      → (matches_filters (invalidated now m) none ≡ false)
        × (matches_filters (invalidated now m) (some no_filters) ≡ false)
  unfolding matches_filters hidden valid_now in_window
  not_current now m = (ground arith, ground arith)

  -- An upsert leaves the stored memory that it supersedes invalid from the time of the call and out
  -- of every unfiltered result.
  pub get-upsert_superseded :
      (now : ℕ) (m : Memory F) (v : List F) (s : MockStore F) (sm : Stored F)
      → lookup m.supersedes_id s.memories ≡ some sm
      → str_eq m.supersedes_id "" ≡ false
      → str_eq m.id m.supersedes_id ≡ false
      → (get m.supersedes_id (upsert now m v s) ≡ ok (invalidated now sm.memory))
        × (matches_filters (invalidated now sm.memory) none ≡ false)
        × (matches_filters (invalidated now sm.memory) (some no_filters) ≡ false)
  get-upsert_superseded now m v s sm here k n = (
    get-shown m.supersedes_id (upsert now m v s)
        ∙ ap shown (lookup-upsert_superseded now m v s sm here k n),
    (not_current now sm.memory).0,
    (not_current now sm.memory).1,
  )

  -- An upsert changes what Get returns for no id but its own and the superseded one.
  get-upsert_other :
      (now : ℕ) (m : Memory F) (v : List F) (s : MockStore F) (j : String)
      → str_eq m.id j ≡ false
      → str_eq m.supersedes_id j ≡ false
      → get j (upsert now m v s) ≡ get j s
  unfolding upsert
  get-upsert_other now m v s j n k = get-ap j j (upsert now m v s) s (
      lookup-insert m.id j _ (supersede now m.supersedes_id s).memories
      ∙ ground (arith, lookup-supersede now m.supersedes_id s j k))

  lookup-delete :
      (id j : String) (s : MockStore F)
      → lookup j (delete id s).0.memories ≡ (if str_eq id j then none else lookup j s.memories)
  unfolding delete
  lookup-delete id j s = ground (arith, lookup-erase id j s.memories, eq_iff id j)

  delete_gone :
      (id : String) (s : MockStore F) → lookup id s.memories ≡ none → (delete id s).1 ≡ not_found
  unfolding delete
  delete_gone id s h = ground arith

  -- After a delete the id is not found, a second delete says so, and other ids are read as before.
  delete_once :
      (id j : String) (s : MockStore F)
      → (get j (delete id s).0 ≡ (if str_eq id j then not_found else get j s))
        × ((delete id (delete id s).0).1 ≡ not_found)
  delete_once id j s =
      let gone : lookup id (delete id s).0.memories ≡ none =
        lookup-delete id id s ∙ ground (arith, eq_iff id id) in
      (
        elim (Bool-cases (str_eq id j)) [
          | inl e ↦
              (let lost : lookup j (delete id s).0.memories ≡ none =
                  lookup-delete id j s ∙ ground (arith, e) in
                rw e (get-shown j (delete id s).0 ∙ ap shown lost))
          | inr e ↦ rw e (get-ap j j (delete id s).0 s (lookup-delete id j s ∙ ground (arith, e)))
        ],
        delete_gone id (delete id s).0 gone,
      )

  modify-IsKeyed :
      (id : String) (f : Memory F → Memory F) (s : MockStore F)
      → ((m : Memory F) → (f m).id ≡ m.id)
      → IsKeyed s
      → IsKeyed (modify id f s).0
  modify-IsKeyed id f s same k j sm e = elim (Bool-cases (str_eq id j)) [
    | inr n ↦ k j sm (sym (lookup-modify id f s j n) ∙ e)
    | inl h ↦ elim (Option-cases (lookup id s.memories)) [
      | inl gone ↦ k j sm (sym (ap (λ r. lookup j r.0.memories) (modify_gone id f s gone)) ∙ e)
      | inr (old, here) ↦
          let same_key = (eq_iff id j).0 h in
          let stored = lookup-modify_same id f s old here in
          ground (arith, stored, same (old.memory), k id old here, e, same_key)
    ]
  ]

  supersede-IsKeyed :
      (now : ℕ) (id : String) (s : MockStore F) → IsKeyed s → IsKeyed (supersede now id s)
  unfolding supersede
  supersede-IsKeyed now id s k = elim (Bool-cases (str_eq id "")) [
    | inl e ↦ rw e k
    | inr n ↦ rw n (modify-IsKeyed id (invalidated now) s (λ m. refl) k)
  ]

  insert-IsKeyed :
      (id : String) (new : Stored F) (s : MockStore F)
      → new.memory.id ≡ id
      → IsKeyed s
      → IsKeyed (record s { memories = insert id new s.memories })
  insert-IsKeyed id new s own k j sm e =
      ground (arith, lookup-insert id j new s.memories, k j sm, eq_iff id j)

  -- The writing methods keep every memory under its own id.
  keeps-IsKeyed :
      (now : ℕ) (m : Memory F) (v : List F) (id group_id status : String) (s : MockStore F)
      → IsKeyed s
      → IsKeyed (upsert now m v s)
        × IsKeyed (delete id s).0
        × IsKeyed (invalidate_memory id now s).0
        × IsKeyed (update_access_metadata now id s).0
        × IsKeyed (update_conflict_fields id group_id status s).0
  unfolding invalidate_memory update_access_metadata update_conflict_fields upsert stamped
  keeps-IsKeyed now m v id group_id status s k = (
    insert-IsKeyed m.id _ (supersede now m.supersedes_id s) refl
        (supersede-IsKeyed now m.supersedes_id s k),
    λ j sm e. k j sm (ground (arith, e, lookup-delete id j s)),
    modify-IsKeyed id _ s (λ m. refl) k,
    modify-IsKeyed id _ s (λ m. refl) k,
    modify-IsKeyed id _ s (λ m. refl) k,
  )
