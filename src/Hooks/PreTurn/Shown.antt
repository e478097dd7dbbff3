-- ===== src/Hooks/PreTurn/Shown.antt =====
-- internal/hooks/hooks.go over the store of mock_store.go: what an agent is shown before its turn.
use mathlib.Core.List.{Permᴰ}
use openclaw_cortex.Base.{
  ℕ, zero, suc, String, Bool, true, Option, none, some, List, [], ◌∷◌, map, keep, take, values, ◌≡◌,
  refl, sym, ap, ◌∙◌, All, All-map, All-mono, not, ◌&&◌, ◌||◌, str_eq, arith, Bool-cases,
  Option-cases, inl, inr,
}
use openclaw_cortex.Base.Budget.{Longest}
use openclaw_cortex.Base.Float.{Float}
use openclaw_cortex.Base.Strings.{Strings}
use openclaw_cortex.Base.Sort.Laws.{All-perm, exchange_sort-perm}
use openclaw_cortex.Models.{Memory, SearchResult}
use openclaw_cortex.Store.Filters.{
  SearchFilters, is_none, hidden, valid_now, in_window, matches_filters,
}
use openclaw_cortex.Store.Mock.{MockStore, search, scored, update_access_metadata}
use openclaw_cortex.Recall.{RecallResult, Recaller, should_rerank}
use openclaw_cortex.Recall.Scores.{Sorting, higher, rank, rank_one, rank_with_graph_proximity}
use openclaw_cortex.Recall.Reasoner.Laws.{re_rank-perm}
use openclaw_cortex.Tokenizer.{memory_tokens, format_memories_with_budget-Longest}
use openclaw_cortex.Hooks.PreTurn.{
  PreTurnInput, PreTurnOutput, PreTurnHook, Reasoner, ranked, update_all, format_turn, execute,
  project_filter, budget_or_default, pre_turn_search_limit,
}

module _ {A : Type 0} where
  All-take : (P : A → Type 0) (n : ℕ) (xs : List A) → All P xs → All P (take n xs)
  All-take P zero xs h = tt
  All-take P (suc n) [] h = tt
  All-take P (suc n) (x ∷ xs) h = (h.0, All-take P n xs h.1)

  All-keep : (p : A → Bool) (xs : List A) → All (λ x. p x ≡ true) (keep p xs)
  All-keep p [] = tt
  All-keep p (x ∷ xs) = elim (Bool-cases (p x)) [
    | inl e ↦ rw e (e, All-keep p xs)
    | inr e ↦ rw e (All-keep p xs)
  ]

  map-take : {B : Type 0} (f : A → B) (n : ℕ) (xs : List A) → map f (take n xs) ≡ take n (map f xs)
  map-take f zero xs = refl
  map-take f (suc n) [] = refl
  map-take f (suc n) (x ∷ xs) = ap (◌∷◌ (f x)) (map-take f n xs)

-- Of the agent's project, if it has one, not sensitive and still valid.
abbrev pub allowed : {F : Type 0} → String → Memory F → Bool
allowed project m =
    (str_eq project "" || str_eq m.project project)
    && not (str_eq m.visibility "sensitive")
    && is_none m.valid_to

matches_filters-allowed :
    {F : Type 0} (project : String) (m : Memory F)
    → matches_filters m (project_filter project) ≡ true
    → allowed project m ≡ true
unfolding matches_filters hidden valid_now in_window
matches_filters-allowed project m h = elim (Bool-cases (str_eq project "")) [
  | inl e ↦ ground (arith, e, h)
  | inr e ↦ ground (arith, e, h)
]

module _ (fl : Float) where
  open fl use {Number}

  -- Every result of a search matches its filters.
  search-matches :
      (vec : List Number) (limit : ℕ) (f : Option SearchFilters) (s : MockStore Number)
      → All (λ sr. matches_filters sr.memory f ≡ true) (search fl vec limit f s)
  unfolding search
  search-matches vec limit f s =
      let found = keep (λ sm. matches_filters sm.memory f) (values s.memories) in
      All-take _ limit _ (
        All-perm (λ a b. fl.lt b.score a.score) _
          (exchange_sort-perm (λ a b. fl.lt b.score a.score) (map (scored fl vec) found))
          (All-map (λ sr. matches_filters sr.memory f ≡ true) (scored fl vec) found
            (All-keep (λ sm. matches_filters sm.memory f) (values s.memories))))

module _ (fl : Float) (st : Strings) (len : String → ℕ) (truncated : fl.Number → ℕ)
    (hours_between : ℕ → ℕ → fl.Number) (now : ℕ) (sort : Sorting fl)
    (permutes : (xs : List (RecallResult (fl.Number))) → Permᴰ (sort (higher fl) xs) xs) where
  open fl use {Number}

  ranked-matches :
      {S : Type 0} (h : PreTurnHook Number S) (input : PreTurnInput) (f : Option SearchFilters)
      (results : List (SearchResult Number))
      → All (λ sr. matches_filters sr.memory f ≡ true) results
      → All
          (λ rr. matches_filters rr.memory f ≡ true)
          (ranked fl st len truncated hours_between now sort h input results)
  unfolding ranked rank rank_with_graph_proximity rank_one
  ranked-matches h input f results m =
      let by_score =
        rank fl st hours_between now h.recaller input.project input.message sort results in
      let one =
        rank_one fl st hours_between now h.recaller input.project input.message results none in
      let good : All (λ rr. matches_filters rr.memory f ≡ true) by_score =
        All-perm (higher fl) _ (permutes (map one results))
          (All-map (λ rr. matches_filters rr.memory f ≡ true) one results m) in
      elim (Option-cases (h.reasoner)) [
        | inl e ↦ rw (e, ranked) good
        | inr (r, e) ↦ elim (Bool-cases (should_rerank fl by_score h.score_spread_threshold)) [
          | inl k ↦
              rw (e, ranked)
                (rw k
                  (All-perm (higher fl) _ (re_rank-perm r.complete r.unmarshal by_score 0) good))
          | inr k ↦ rw (e, ranked) (rw k good)
        ]
      ]

  -- What an agent is shown of the ranked memories, under the filter of its project.
  pub record Fitting (input : PreTurnInput) (rrs : List (RecallResult Number))
      (output : PreTurnOutput Number) : Type 0 where
    pub filtered : All (λ rr. allowed input.project rr.memory ≡ true) output.memories
    pub first : output.memories ≡ take (output.memory_count) rrs
    pub contents : output.context ≡ map (λ rr. rr.memory.content) output.memories
    pub longest :
        Longest
          (memory_tokens fl len (st.fields) truncated)
          (budget_or_default input.token_budget)
          (map (λ rr. rr.memory.content) rrs)
          output.context

  format_turn-Fitting :
      {S : Type 0} (h : PreTurnHook Number S) (input : PreTurnInput)
      (rrs : List (RecallResult Number)) (s : S)
      → All (λ rr. matches_filters rr.memory (project_filter input.project) ≡ true) rrs
      → Fitting input rrs (format_turn fl st len truncated hours_between now sort h input rrs s).1
  unfolding format_turn
  format_turn-Fitting h input rrs s m =
      let all = map (λ rr. rr.memory.content) rrs in
      let fits =
        format_memories_with_budget-Longest fl len (st.fields) truncated all
          (budget_or_default input.token_budget) in
      record {
        filtered =
            All-mono (λ rr. matches_filters-allowed input.project rr.memory) _ (All-take _ _ rrs m);
        first = refl;
        contents = sym (map-take (λ rr. rr.memory.content) _ rrs ∙ fits.0);
        longest = fits;
      }

  -- The hook over the store in memory.
  abbrev pub in_memory_hook :
      (String → Option (List Number))
      → Recaller Number
      → Option (Reasoner Number)
      → Number
      → PreTurnHook Number (MockStore Number)
  in_memory_hook embed recaller reasoner threshold = record {
    embed = embed;
    search = λ vec limit f s. some (search fl vec limit f s);
    update_access_metadata = λ id s. (update_access_metadata now id s).0;
    recaller = recaller;
    reasoner = reasoner;
    score_spread_threshold = threshold;
  }

  pub record Turn (h : PreTurnHook Number (MockStore Number)) (input : PreTurnInput)
      (vec : List Number) (s t : MockStore Number) (output : PreTurnOutput Number) : Type 0 where
    pub fitting :
        Fitting input
          (ranked fl st len truncated hours_between now sort h input
            (search fl vec pre_turn_search_limit (project_filter input.project) s))
          output
    pub touched : t ≡ update_all fl st len truncated hours_between now sort h output.memories s

  -- If the message is embedded, Execute over the store in memory succeeds and shows the first of
  -- the ranked memories that the budget covers, each of which is of the input's project, if it has
  -- one, not sensitive and still valid, and UpdateAccessMetadata is called for exactly these. It
  -- needs that sort.Slice permutes.
  pub execute-Turn :
      (embed : String → Option (List Number)) (recaller : Recaller Number)
      (reasoner : Option (Reasoner Number)) (threshold : Number) (input : PreTurnInput)
      (vec : List Number) (s : MockStore Number)
      → embed input.message ≡ some vec
      → let h = in_memory_hook embed recaller reasoner threshold in
        (t : MockStore Number) × (output : PreTurnOutput Number) × (execute fl st len truncated
            hours_between now sort h input s
          ≡ (t, some output))
        × Turn h input vec s t output
  unfolding execute format_turn
  execute-Turn embed recaller reasoner threshold input vec s e =
      let h = in_memory_hook embed recaller reasoner threshold in
      let results = search fl vec pre_turn_search_limit (project_filter input.project) s in
      let rrs = ranked fl st len truncated hours_between now sort h input results in
      let turn = format_turn fl st len truncated hours_between now sort h input rrs s in
      (
        turn.0,
        turn.1,
        rw (e, execute) refl,
        record {
          fitting = format_turn-Fitting h input rrs s (
              ranked-matches h input (project_filter input.project) results
                (search-matches fl vec pre_turn_search_limit (project_filter input.project) s));
          touched = refl;
        },
      )
