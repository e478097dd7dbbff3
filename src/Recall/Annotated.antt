-- ===== src/Recall/Annotated.antt =====
-- internal/recall/recall.go `FormatWithConflictAnnotations`: the memories as lines, with the short
-- ids of those that they conflict with, as long as the budget lasts. `len` is the length in bytes,
-- `short` the first eight bytes of an id, and `annotated` the line with its note, from
-- fmt.Sprintf and strings.Join.
use openclaw_cortex.Base.{
  ℕ, ◌/◌, String, Bool, not, ◌&&◌, List, map, keep, leb, ltb, if◌then◌else◌, length, str_eq,
}
use openclaw_cortex.Base.Budget.{within, Longest, within-Longest}
use openclaw_cortex.Models.{Memory}
use openclaw_cortex.Recall.{RecallResult}

module _ {F : Type 0} (len : String → ℕ) (short : String → String)
    (annotated : String → List String → String) where
  abbrev in_conflict : Memory F → Bool
  in_conflict m = not (str_eq m.conflict_group_id "") && str_eq m.conflict_status "active"

  -- groupMembers[group]
  unfoldable group_members : List (RecallResult F) → String → List String
  group_members results group =
      map (λ rr. rr.memory.id)
        (keep (λ rr. in_conflict rr.memory && str_eq rr.memory.conflict_group_id group) results)

  unfoldable pub others : List (RecallResult F) → Memory F → List String
  unfolding group_members
  others results mem = map short (
      keep (λ id. not (str_eq id mem.id) && leb 8 (len id))
        (group_members results mem.conflict_group_id))

  unfoldable line_of : List (RecallResult F) → Memory F → String
  unfolding others
  line_of results mem =
      let peers = others results mem in
      if in_conflict mem && ltb 0 (length peers) then annotated mem.content peers else mem.content

  -- The lines that are written, each behind "- " and before a line feed.
  unfoldable format_with_conflict_annotations : List (RecallResult F) → ℕ → List String
  unfolding line_of within
  format_with_conflict_annotations results budget =
      within (λ line. len line / 4) budget 0 (map (λ rr. line_of results rr.memory) results)

module _ {F : Type 0} (len : String → ℕ) (short : String → String)
    (annotated : String → List String → String) where
  format_with_conflict_annotations-Longest :
      (results : List (RecallResult F)) (budget : ℕ)
      → Longest
          (λ line. len line / 4)
          budget
          (map (λ rr. line_of len short annotated results rr.memory) results)
          (format_with_conflict_annotations len short annotated results budget)
  unfolding format_with_conflict_annotations
  format_with_conflict_annotations-Longest results budget =
      within-Longest (λ line. len line / 4) budget
        (map (λ rr. line_of len short annotated results rr.memory) results)
