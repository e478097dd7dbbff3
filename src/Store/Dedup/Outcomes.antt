-- ===== src/Store/Dedup/Outcomes.antt =====
-- internal/store/dedup.go over the store in memory: what each outcome leaves.
use openclaw_cortex.Base.{
  ℕ, ◌<◌, ◌≤◌, ◌⊎◌, inl, inr, String, true, false, some, List, ◌∷◌, leb, ◌≡◌, refl, ap, ◌∙◌, arith,
  lookup, str_eq, Bool-cases, ◌==◌, if◌then◌else◌,
}
use openclaw_cortex.Base.Float.{Float}
use openclaw_cortex.Models.{Memory, SearchResult}
use openclaw_cortex.Store.Filters.{is_none}
use openclaw_cortex.Store.Mock.{
  Stored, MockStore, ok, get, upsert, find_duplicates, stamped, invalidated,
}
use openclaw_cortex.Store.Mock.Laws.{get-upsert, get-upsert_superseded}
use openclaw_cortex.Store.Dedup.{
  DedupStore, Sorting, closer, handle_match, check_and_handle_duplicate,
}

module _ (fl : Float) (len : String → ℕ) where
  open fl use {Number}

  abbrev pub in_memory_dedup : DedupStore Number (MockStore Number)
  in_memory_dedup = record {
    find_duplicates = λ vec threshold s. some (find_duplicates fl vec threshold s);
    upsert = λ now m vec s. (upsert now m vec s, true);
  }

  abbrev pub richer : ℕ → String → Memory Number → Memory Number
  richer now new_content best = record best { content = new_content; updated_at = now }

  -- The memory with new content at a time: UpdatedAt is the time, a ValidFrom that is zero becomes
  -- CreatedAt, or the time where that is zero too, and the version flag follows ValidTo.
  abbrev pub updated : ℕ → String → Memory Number → Memory Number
  updated now new_content best = record best {
    content = new_content;
    updated_at = now;
    valid_from =
        if best.valid_from == 0
        then (if best.created_at == 0 then now else best.created_at)
        else best.valid_from;
    is_current_version = is_none best.valid_to;
  }

  module _ (sort : Sorting fl in_memory_dedup len) (now : ℕ) (vec : List Number)
      (new_content : String) (threshold : Number) (s : MockStore Number)
      (d best : SearchResult Number) (ds rest : List (SearchResult Number))
      (found : find_duplicates fl vec threshold s ≡ d ∷ ds)
      (sorted : sort (closer fl in_memory_dedup len) (d ∷ ds) ≡ best ∷ rest) where
    checked :
        check_and_handle_duplicate fl in_memory_dedup len sort now vec new_content threshold s
        ≡ handle_match fl in_memory_dedup len now vec new_content best.memory s
    unfolding check_and_handle_duplicate
    checked = rw (found, check_and_handle_duplicate) (rw sorted refl)

    skips :
        leb (len new_content) (len best.memory.content) ≡ true
        → check_and_handle_duplicate fl in_memory_dedup len sort now vec new_content threshold s ≡ (
          s,
          some (record { is_duplicate = true; is_updated = false; existing_id = best.memory.id }),
        )
    unfolding handle_match
    skips short = checked ∙ rw (short, handle_match) refl

    updates :
        leb (len new_content) (len best.memory.content) ≡ false
        → check_and_handle_duplicate fl in_memory_dedup len sort now vec new_content threshold s ≡ (
          upsert now (richer now new_content best.memory) vec s,
          some (record { is_duplicate = false; is_updated = true; existing_id = best.memory.id }),
        )
    unfolding handle_match
    updates long = checked ∙ rw (long, handle_match) refl

    -- Over the store in memory, with best the first of the duplicates after sorting: new content
    -- that is no longer than that of best leaves the store as it is and reports a duplicate; longer
    -- content is read back in best and an update is reported. Of the other fields of best,
    -- UpdatedAt becomes the time of the call, a zero ValidFrom becomes CreatedAt or, if that is
    -- zero, the time of the call, the version flag follows ValidTo, and the rest is kept.
    pub dedup_outcome :
        let (t, r) =
          check_and_handle_duplicate fl in_memory_dedup len sort now vec new_content threshold s in
        ((t ≡ s)
          × (len new_content ≤ len best.memory.content)
          × (r
              ≡ some (record {
                is_duplicate = true;
                is_updated = false;
                existing_id = best.memory.id;
              })))
        ⊎ ((get best.memory.id t ≡ ok (updated now new_content best.memory))
            × (len best.memory.content < len new_content)
            × (r
                ≡ some (record {
                  is_duplicate = false;
                  is_updated = true;
                  existing_id = best.memory.id;
                })))
    unfolding stamped
    dedup_outcome = elim (Bool-cases (leb (len new_content) (len best.memory.content))) [
      | inl short ↦
          inl (ap (λ p. p.0) (skips short), ground (arith, short), ap (λ p. p.1) (skips short))
      | inr long ↦ inr (
        ap (λ p. get best.memory.id p.0) (updates long)
            ∙ get-upsert now (richer now new_content best.memory) vec s,
        ground (arith, long),
        ap (λ p. p.1) (updates long),
      )
    ]

    -- An update in place of a memory that supersedes another, stored one moves the end of the
    -- superseded version to the time of the check, whatever it was before.
    dedup_moves_history :
        (sm : Stored Number)
        → len best.memory.content < len new_content
        → lookup best.memory.supersedes_id s.memories ≡ some sm
        → str_eq best.memory.supersedes_id "" ≡ false
        → str_eq best.memory.id best.memory.supersedes_id ≡ false
        → get best.memory.supersedes_id
            (check_and_handle_duplicate fl in_memory_dedup len sort now vec new_content threshold
              s).0
          ≡ ok (invalidated now sm.memory)
    dedup_moves_history sm longer here named other =
        ap (λ p. get best.memory.supersedes_id p.0) (updates (ground (arith, longer)))
        ∙ (get-upsert_superseded now (richer now new_content best.memory) vec s sm here named
            other).0
