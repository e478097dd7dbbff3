-- ===== src/Recall/Scores.antt =====
-- internal/recall/recall.go: the component scores, and the ranking by their weighted sum.
use openclaw_cortex.Base.{
  ℕ, String, Bool, not, ◌&&◌, Option, none, some, List, map, any, all, keep, length, leb, ◌==◌,
  if◌then◌else◌, Map, lookup, str_eq,
}
use openclaw_cortex.Base.Float.{Float}
use openclaw_cortex.Base.Strings.{Strings}
use openclaw_cortex.Models.{Memory, MemoryType, SearchResult}
use openclaw_cortex.Recall.{RecallResult, Recaller}

-- `hours_between now t` is now.Sub(t).Hours() of the package time.
module _ (fl : Float) (hours_between : ℕ → ℕ → fl.Number) where
  open fl use {Number, lit, times, divide, exp, neg, lt}

  unfoldable pub recency_score : ℕ → ℕ → Number
  recency_score last_accessed now =
      let hours_ago = hours_between now last_accessed in
      let hours_ago' = if lt hours_ago (lit 0 0) then lit 0 0 else hours_ago in
      if last_accessed == 0
      then lit 1 1
      else exp (divide (times (neg (lit 693 3)) hours_ago') (lit 168 0))

module _ (fl : Float) where
  open fl use {Number, lit, of_nat, plus, times, divide, log2, lt}

  -- math.Min on numbers that are not NaN.
  unfoldable pub frequency_score : ℕ → Number
  frequency_score access_count =
      let scaled = divide (log2 (plus (of_nat access_count) (lit 1 0))) (lit 10 0) in
      if access_count == 0 then lit 0 0 else if lt scaled (lit 1 0) then scaled else lit 1 0

  abbrev pub type_priority : MemoryType → Number
  type_priority mt =
      if str_eq mt "rule"
      then lit 15 1
      else if str_eq mt "procedure"
      then lit 13 1
      else if str_eq mt "fact"
      then lit 10 1
      else if str_eq mt "episode"
      then lit 8 1
      else if str_eq mt "preference"
      then lit 7 1
      else lit 10 1

  unfoldable pub type_boost_score : MemoryType → Number
  type_boost_score mt = divide (type_priority mt) (lit 15 1)

  unfoldable pub scope_boost_score : Memory Number → String → Number
  scope_boost_score mem project =
      divide
        (if str_eq project ""
          then lit 10 1
          else if str_eq mem.scope "project" && str_eq mem.project project
          then lit 15 1
          else if str_eq mem.scope "permanent"
          then lit 10 1
          else lit 8 1)
        (lit 15 1)

  unfoldable pub confidence_score : Memory Number → Number
  confidence_score mem = if lt mem.confidence (lit 1 2) then lit 7 1 else mem.confidence

  unfoldable pub reinforcement_score : Memory Number → Number
  reinforcement_score mem =
      let score = divide (log2 (plus (of_nat mem.reinforced_count) (lit 1 0))) (lit 5 0) in
      if mem.reinforced_count == 0 then lit 0 0 else if lt (lit 1 0) score then lit 1 0 else score

  -- The id is one that another result supersedes.
  unfoldable pub is_superseded : List (SearchResult Number) → String → Bool
  is_superseded results id =
      any (λ sr. not (str_eq sr.memory.supersedes_id "") && str_eq sr.memory.supersedes_id id)
        results

  -- proximityMap[id], which is 0 on a missing id and a nil map.
  unfoldable pub proximity : Option (Map Number) → String → Number
  proximity none id = lit 0 0
  proximity (some m) id = elim (lookup id m) [ none ↦ lit 0 0 | some x ↦ x ]

  abbrev pub similarity_of : SearchResult Number → Number
  similarity_of sr = elim sr.original_similarity [ none ↦ sr.score | some x ↦ x ]

  abbrev pub Sorting : Type 0
  Sorting =
      (RecallResult Number → RecallResult Number → Bool)
      → List (RecallResult Number)
      → List (RecallResult Number)

  abbrev pub higher : RecallResult Number → RecallResult Number → Bool
  higher a b = lt b.final_score a.final_score

  module _ (st : Strings) where
    open st use {to_lower, fields}

    -- A tag of at most one word is one of the query's words itself; all words of a longer one are.
    unfoldable pub tag_matches : List String → String → Bool
    tag_matches query_words tag =
        let tag_words = fields (to_lower tag) in
        if leb (length tag_words) 1
        then any (λ w. str_eq w (to_lower tag)) query_words
        else all (λ tw. any (λ w. str_eq w tw) query_words) tag_words

    unfoldable pub tag_affinity_score : Memory Number → String → Number
    unfolding tag_matches
    tag_affinity_score mem query =
        if length mem.tags == 0
        then lit 0 0
        else divide (of_nat (length (keep (tag_matches (fields (to_lower query))) mem.tags)))
            (of_nat (length mem.tags))

    module _ (hours_between : ℕ → ℕ → Number) (now : ℕ) (r : Recaller Number)
        (project query : String) where
      unfoldable pub rank_one :
          List (SearchResult Number)
          → Option (Map Number)
          → SearchResult Number
          → RecallResult Number
      unfolding is_superseded proximity
      rank_one results proximity_map sr =
          let mem = sr.memory in
          let sim = similarity_of sr in
          let recency = recency_score fl hours_between mem.last_accessed now in
          let frequency = frequency_score mem.access_count in
          let type_boost = type_boost_score mem.type in
          let scope_boost = scope_boost_score mem project in
          let confidence = confidence_score mem in
          let reinforcement = reinforcement_score mem in
          let tag_affinity = tag_affinity_score mem query in
          let near = proximity proximity_map mem.id in
          let superseded = if is_superseded results mem.id then lit 3 1 else lit 1 0 in
          let conflict = if str_eq mem.conflict_status "active" then lit 8 1 else lit 1 0 in
          let w = r.weights in
          let weighted_sum =
            plus
              (plus
                (plus
                  (plus
                    (plus
                      (plus
                        (plus (plus (times w.similarity sim) (times w.recency recency))
                          (times w.frequency frequency))
                        (times w.type_boost type_boost))
                      (times w.scope_boost scope_boost))
                    (times w.confidence confidence))
                  (times w.reinforcement reinforcement))
                (times w.tag_affinity tag_affinity))
              (times w.graph_proximity near) in
          record {
            memory = mem;
            similarity_score = sim;
            recency_score = recency;
            frequency_score = frequency;
            type_boost = type_boost;
            scope_boost = scope_boost;
            confidence_score = confidence;
            reinforcement_score = reinforcement;
            tag_affinity_score = tag_affinity;
            graph_proximity_score = near;
            supersession_penalty = superseded;
            conflict_penalty = conflict;
            final_score = times (times weighted_sum superseded) conflict;
          }

      -- RankWithGraphProximity; `sort` is sort.Slice, whose order of equals Go leaves open.
      unfoldable pub rank_with_graph_proximity :
          Sorting → List (SearchResult Number) → Option (Map Number) → List (RecallResult Number)
      unfolding rank_one
      rank_with_graph_proximity sort results proximity_map =
          sort higher (map (rank_one results proximity_map) results)

      unfoldable pub rank : Sorting → List (SearchResult Number) → List (RecallResult Number)
      unfolding rank_with_graph_proximity
      rank sort results = rank_with_graph_proximity sort results none
