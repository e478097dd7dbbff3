-- ===== src/Capture/Contradiction/Filter.antt =====
-- internal/capture/contradiction.go, the second stage: the heuristics on words.
use openclaw_cortex.Base.{
  ℕ, ◌+◌, ◌/◌, String, Bool, not, ◌&&◌, List, [], ◌∷◌, map, keep, any, length, ltb, leb,
  if◌then◌else◌, str_eq,
}
use openclaw_cortex.Base.Strings.{Strings}
use openclaw_cortex.Models.{Memory, Fact}

-- The length in bytes and strings.Trim of the punctuation around a word.
pub record Words : Type 0 where
  pub len : String → ℕ
  pub trim : String → String

abbrev pub exclusive_pairs : List String
exclusive_pairs =
    "WORKS_AT" ∷ "HAS_ROLE" ∷ "LOCATED_IN" ∷ "MARRIED_TO" ∷ "REPORTS_TO" ∷ "EMPLOYED_BY"
    ∷ "LIVES_IN" ∷ "BASED_IN" ∷ "CEO_OF" ∷ "LEADS" ∷ []

abbrev pub is_one_of : List String → String → Bool
is_one_of names s = any (λ n. str_eq n s) names

unfoldable pub exclusive_predicate_signals : String → List String
exclusive_predicate_signals rel_type =
    if is_one_of ("WORKS_AT" ∷ "EMPLOYED_BY" ∷ []) rel_type
    then "works at" ∷ "employed at" ∷ "employed by" ∷ "joined" ∷ "started at" ∷ "job at" ∷ []
    else if is_one_of ("HAS_ROLE" ∷ "POSITION_AT" ∷ "TITLE_AT" ∷ []) rel_type
    then "role is" ∷ "position is" ∷ "title is" ∷ "works as" ∷ "his role" ∷ "her role"
      ∷ "their role" ∷ []
    else if is_one_of ("LOCATED_IN" ∷ "LIVES_IN" ∷ "BASED_IN" ∷ []) rel_type
    then "lives in" ∷ "located in" ∷ "based in" ∷ "moved to" ∷ "relocated to" ∷ []
    else if str_eq rel_type "MARRIED_TO"
    then "married to" ∷ "spouse is" ∷ "wife is" ∷ "husband is" ∷ "partner is" ∷ []
    else if str_eq rel_type "REPORTS_TO"
    then "reports to" ∷ "manager is" ∷ "boss is" ∷ []
    else if is_one_of ("CEO_OF" ∷ "LEADS" ∷ []) rel_type
    then "ceo of" ∷ "leads " ∷ "leading " ∷ "head of" ∷ []
    else []

abbrev stop_words : List String
stop_words =
    "the" ∷ "and" ∷ "for" ∷ "that" ∷ "this" ∷ "with" ∷ "from" ∷ "have" ∷ "been" ∷ "they" ∷ []

module _ (st : Strings) (words : Words) where
  open st use {to_lower, to_upper, fields, contains}

  unfoldable pub significant_words : String → List String
  significant_words s =
      keep (λ w. leb 4 (words.len w) && not (is_one_of stop_words w))
        (map (words.trim) (fields (to_lower s)))

  -- Whether a content, in lower case, has one of the signals of a relation.
  unfoldable pub has_signal : String → String → Bool
  unfolding exclusive_predicate_signals
  has_signal content_lower rel_type =
      any (λ sig. contains content_lower sig) (exclusive_predicate_signals rel_type)

  -- A signal is there, and fewer than half of the words of the fact.
  unfoldable pub content_suggests_conflict : {F : Type 0} → String → String → Fact F → Bool
  unfolding has_signal significant_words
  content_suggests_conflict new_lower rel_type f =
      let fact_words = significant_words f.fact_text in
      let match_count = length (keep (λ w. contains new_lower w) fact_words) in
      has_signal new_lower rel_type
      && ltb 0 (length fact_words)
      && ltb match_count ((length fact_words + 1) / 2)

  unfoldable pub fact_conflicts : {F : Type 0} → String → Fact F → Bool
  unfolding content_suggests_conflict
  fact_conflicts new_lower f =
      let norm_rel = to_upper f.relation_type in
      is_one_of exclusive_pairs norm_rel && content_suggests_conflict new_lower norm_rel f

  -- The loop of hasExclusivePredicateConflict over the facts of a candidate.
  unfoldable pub exclusive_conflict : {F : Type 0} → String → List (Fact F) → Bool
  unfolding fact_conflicts
  exclusive_conflict new_lower facts = any (fact_conflicts new_lower) facts

  -- keywordHeuristicFilter on one candidate: both contents have a signal of the same relation.
  unfoldable pub keyword_conflict : {F : Type 0} → String → Memory F → Bool
  unfolding has_signal
  keyword_conflict new_content cand =
      any (λ rel. has_signal (to_lower new_content) rel && has_signal (to_lower cand.content) rel)
        exclusive_pairs
