-- ===== src/Hooks/PreTurn.antt =====
-- internal/hooks/hooks.go `PreTurnHook.Execute`: search, rank, re-rank and format for a turn.
pub mod Shown
use openclaw_cortex.Base.{
  ℕ, zero, suc, String, Bool, true, false, ◌&&◌, Option, none, some, List, [], ◌∷◌, map,
  if◌then◌else◌, ◌==◌, length, take, str_eq,
}
use openclaw_cortex.Base.Int.{ℤ}
use openclaw_cortex.Base.Float.{Float}
use openclaw_cortex.Base.Strings.{Strings}
use openclaw_cortex.Models.{Memory, SearchResult}
use openclaw_cortex.Store.Filters.{SearchFilters, no_filters}
use openclaw_cortex.Recall.{RecallResult, Recaller, should_rerank}
use openclaw_cortex.Recall.Scores.{Sorting, rank}
use openclaw_cortex.Recall.Reasoner.{re_rank}
use openclaw_cortex.Tokenizer.{estimate_tokens, format_memories_with_budget}

pub record PreTurnInput : Type 0 where
  pub message : String
  pub project : String
  pub token_budget : ℕ

-- `context` is the list of contents that are joined by the separator.
pub record PreTurnOutput (F : Type 0) : Type 0 where
  pub memories : List (RecallResult F)
  pub memory_count : ℕ
  pub context : List String

-- The language model of the reasoner: its answer about the candidates, and the JSON parser.
pub record Reasoner (F : Type 0) : Type 0 where
  pub complete : List (RecallResult F) → Option String
  pub unmarshal : String → Option (List ℤ)

-- The calls of the hook; `none` is an error. A failing UpdateAccessMetadata is logged and no more.
pub record PreTurnHook (F S : Type 0) : Type 0 where
  pub embed : String → Option (List F)
  pub search : List F → ℕ → Option SearchFilters → S → Option (List (SearchResult F))
  pub update_access_metadata : String → S → S
  pub recaller : Recaller F
  pub reasoner : Option (Reasoner F)
  pub score_spread_threshold : F

abbrev pub pre_turn_search_limit : ℕ
pre_turn_search_limit = 50

abbrev pub project_filter : String → Option SearchFilters
project_filter project =
    if str_eq project "" then none else some (record no_filters { project = some project })

abbrev pub budget_or_default : ℕ → ℕ
budget_or_default budget = if budget == 0 then 2000 else budget

module _ (fl : Float) (st : Strings) (len : String → ℕ) (truncated : fl.Number → ℕ)
    (hours_between : ℕ → ℕ → fl.Number) (now : ℕ) (sort : Sorting fl) {S : Type 0}
    (h : PreTurnHook (fl.Number) S) where
  open fl use {Number}

  -- The ranked results, re-ranked where their scores are close.
  unfoldable pub ranked : PreTurnInput → List (SearchResult Number) → List (RecallResult Number)
  ranked input results =
      let by_score =
        rank fl st hours_between now h.recaller input.project input.message sort results in
      elim h.reasoner [
        | none ↦ by_score
        | some r ↦
            if should_rerank fl by_score h.score_spread_threshold
            then re_rank r.complete r.unmarshal by_score 0
            else by_score
      ]

  unfoldable pub update_all : List (RecallResult Number) → S → S
  update_all [] s = s
  update_all (rr ∷ rrs) s = update_all rrs (h.update_access_metadata rr.memory.id s)

  abbrev pub shown : PreTurnInput → List (RecallResult Number) → List String
  shown input rrs =
      format_memories_with_budget fl len (st.fields) truncated (map (λ rr. rr.memory.content) rrs)
        (budget_or_default input.token_budget)

  unfoldable pub format_turn :
      PreTurnInput → List (RecallResult Number) → S → S × PreTurnOutput Number
  unfolding update_all
  format_turn input rrs s =
      let context = shown input rrs in
      let count = length context in
      (
        update_all (take count rrs) s,
        record { memories = take count rrs; memory_count = count; context = context },
      )

  unfoldable pub execute : PreTurnInput → S → S × Option (PreTurnOutput Number)
  unfolding ranked format_turn
  execute input s = elim (h.embed input.message) [
    | none ↦ (s, none)
    | some vec ↦ elim (h.search vec pre_turn_search_limit (project_filter input.project) s) [
      | none ↦ (s, none)
      | some results ↦
          let (t, output) = format_turn input (ranked input results) s in (t, some output)
    ]
  ]
