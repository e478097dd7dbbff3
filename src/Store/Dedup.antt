-- ===== src/Store/Dedup.antt =====
-- internal/store/dedup.go: the duplicate check before a memory is stored. `len` is the length of a
-- string in bytes and `sort` is sort.Slice, whose order of equals Go leaves open.
pub mod Outcomes
use openclaw_cortex.Base.{
  ℕ, String, Bool, true, false, Option, none, some, List, [], ◌∷◌, leb, if◌then◌else◌,
}
use openclaw_cortex.Base.Float.{Float}
use openclaw_cortex.Models.{Memory, SearchResult}

pub record DedupResult : Type 0 where
  pub is_duplicate : Bool
  pub is_updated : Bool
  pub existing_id : String

abbrev no_duplicate : DedupResult
no_duplicate = record { is_duplicate = false; is_updated = false; existing_id = "" }

-- The methods of the store that the check calls; `none` and `false` are errors.
pub record DedupStore (F : Type 0) (S : Type 0) : Type 0 where
  pub find_duplicates : List F → F → S → Option (List (SearchResult F))
  pub upsert : ℕ → Memory F → List F → S → S × Bool

module _ {S : Type 0} (fl : Float) (st : DedupStore (fl.Number) S) (len : String → ℕ) where
  open fl use {Number, lt}

  abbrev pub Sorting : Type 0
  Sorting =
      (SearchResult Number → SearchResult Number → Bool)
      → List (SearchResult Number)
      → List (SearchResult Number)

  abbrev pub closer : SearchResult Number → SearchResult Number → Bool
  closer a b = lt b.score a.score

  -- What happens to the closest match.
  unfoldable pub handle_match :
      ℕ → List Number → String → Memory Number → S → S × Option DedupResult
  handle_match now vec new_content best s =
      if leb (len new_content) (len best.content)
      then (s, some (record { is_duplicate = true; is_updated = false; existing_id = best.id }))
      else (let (t, ok) =
            st.upsert now (record best { content = new_content; updated_at = now }) vec s in
          (
            t,
            if ok
                then some
                    (record { is_duplicate = false; is_updated = true; existing_id = best.id })
                else none,
          ))

  unfoldable pub check_and_handle_duplicate :
      Sorting → ℕ → List Number → String → Number → S → S × Option DedupResult
  unfolding handle_match
  check_and_handle_duplicate sort now vec new_content threshold s =
      elim (st.find_duplicates vec threshold s) [
        | none ↦ (s, none)
        | some [] ↦ (s, some no_duplicate)
        | some (d ∷ ds) ↦ elim (sort closer (d ∷ ds)) [
          | [] ↦ (s, some no_duplicate)
          | best ∷ rest ↦ handle_match now vec new_content best.memory s
        ]
      ]
