-- ===== src/Recall.antt =====
-- internal/recall/recall.go: the weights, the ranked result and the recaller.
pub mod Scores
pub mod Fusion
pub mod Merge
pub mod Annotated
pub mod Reasoner
mod Tests
use openclaw_cortex.Base.{
  ℕ, String, Bool, true, false, not, ◌&&◌, ◌||◌, Option, none, some, List, [], ◌∷◌, any, leb, ltb,
  if◌then◌else◌, Map,
}
use openclaw_cortex.Base.Int.{ℤ, pos, negsuc}
use openclaw_cortex.Base.Float.{Float}
use openclaw_cortex.Models.{Memory}
use openclaw_cortex.Graph.EntityResolver.{EntityResult}

pub record Weights (F : Type 0) : Type 0 where
  pub similarity : F
  pub recency : F
  pub frequency : F
  pub type_boost : F
  pub scope_boost : F
  pub confidence : F
  pub reinforcement : F
  pub tag_affinity : F
  pub graph_proximity : F

pub record RecallResult (F : Type 0) : Type 0 where
  pub memory : Memory F
  pub similarity_score : F
  pub recency_score : F
  pub frequency_score : F
  pub type_boost : F
  pub scope_boost : F
  pub confidence_score : F
  pub reinforcement_score : F
  pub tag_affinity_score : F
  pub graph_proximity_score : F
  pub supersession_penalty : F
  pub conflict_penalty : F
  pub final_score : F

-- What the type switch of RecallWithGraph finds, with the call it makes of the client: on the depth
-- for the two optional interfaces. The query, its embedding, the limit of 50 and the deadline are
-- the same in each; `none` is an error, and a nil map of hops is a `none` beside the ids.
pub data GraphRecall : Type 0 where
  with_hops : (ℤ → Option (List String × Option (Map ℤ))) → GraphRecall
  with_depth : (ℤ → Option (List String)) → GraphRecall
  base : Option (List String) → GraphRecall

-- The graph client's other answers to a recall: IsMageAvailable (false without that interface),
-- SearchEntities on the query, GetCommunitiesForEntity and GetMemoriesForCommunity.
pub record GraphClient (F : Type 0) : Type 0 where
  pub recall : GraphRecall
  pub is_mage_available : Bool
  pub search_entities : String → Option (List (EntityResult F))
  pub get_communities_for_entity : String → Option (List ℤ)
  pub get_memories_for_community : ℤ → Option (List String)

-- `get` is the store's Get, with `none` for every error.
pub record Recaller (F : Type 0) : Type 0 where
  pub weights : Weights F
  pub graph_client : Option (GraphClient F)
  pub get : String → Option (Memory F)
  pub graph_depth : ℤ
  pub vector_weight : F
  pub graph_weight : F

abbrev pub positive : ℤ → Bool
positive (pos n) = ltb 0 n
positive (negsuc n) = false

-- graphDepthOrDefault
unfoldable pub graph_depth_or_default : {F : Type 0} → Recaller F → ℤ
graph_depth_or_default r = if positive r.graph_depth then r.graph_depth else pos 2

unfoldable set_graph_depth : {F : Type 0} → ℤ → Recaller F → Recaller F
set_graph_depth depth r = if positive depth then record r { graph_depth = depth } else r

module _ (fl : Float) where
  open fl use {Number, lit, plus, minus, lt, eq}

  abbrev default_weights : Weights Number
  default_weights = record {
    similarity = lit 45 2;
    recency = lit 8 2;
    frequency = lit 5 2;
    type_boost = lit 10 2;
    scope_boost = lit 8 2;
    confidence = lit 7 2;
    reinforcement = lit 7 2;
    tag_affinity = lit 5 2;
    graph_proximity = lit 5 2;
  }

  unfoldable weight_sum : Weights Number → Number
  weight_sum w =
      plus
        (plus
          (plus
            (plus
              (plus (plus (plus (plus w.similarity w.recency) w.frequency) w.type_boost)
                w.scope_boost)
              w.confidence)
            w.reinforcement)
          w.tag_affinity)
        w.graph_proximity

  abbrev weight_fields : Weights Number → List Number
  weight_fields w =
      w.similarity ∷ w.recency ∷ w.frequency ∷ w.type_boost ∷ w.scope_boost ∷ w.confidence
      ∷ w.reinforcement ∷ w.tag_affinity ∷ w.graph_proximity ∷ []

  -- Validate: whether it returns no error.
  unfoldable pub validate : Weights Number → Bool
  unfolding weight_sum
  validate w =
      not (any (λ v. lt v (lit 0 0)) (weight_fields w))
      && not (lt (weight_sum w) (lit 99 2) || lt (lit 101 2) (weight_sum w))

  unfoldable new_recaller : Weights Number → (String → Option (Memory Number)) → Recaller Number
  unfolding validate
  new_recaller w get = record {
    weights = if validate w then w else default_weights;
    graph_client = none;
    get = get;
    graph_depth = pos 0;
    vector_weight = lit 0 0;
    graph_weight = lit 0 0;
  }

  unfoldable set_graph_client :
      GraphClient Number → (String → Option (Memory Number)) → Recaller Number → Recaller Number
  set_graph_client gc get r = record r { graph_client = some gc; get = get }

  -- `vectorWeight >= 0 && graphWeight >= 0`, where `>=` is above or equal.
  unfoldable set_graph_weights : Number → Number → Recaller Number → Recaller Number
  set_graph_weights vw gw r =
      if (lt (lit 0 0) vw || eq vw (lit 0 0)) && (lt (lit 0 0) gw || eq gw (lit 0 0))
      then record r { vector_weight = vw; graph_weight = gw }
      else r

  unfoldable pub graph_vector_weight : Recaller Number → Number
  graph_vector_weight r = if lt (lit 0 0) r.vector_weight then r.vector_weight else lit 6 1

  unfoldable pub graph_graph_weight : Recaller Number → Number
  graph_graph_weight r = if lt (lit 0 0) r.graph_weight then r.graph_weight else lit 4 1

  -- ShouldRerank
  unfoldable pub should_rerank : List (RecallResult Number) → Number → Bool
  should_rerank (a ∷ b ∷ c ∷ d ∷ rest) threshold =
      let spread = minus a.final_score d.final_score in
      not (lt threshold (lit 0 0) || eq threshold (lit 0 0))
      && (lt spread threshold || eq spread threshold)
  should_rerank _ threshold = false
