-- ===== src/Samples.antt =====
-- Concrete memories and numbers for the tests.
use openclaw_cortex.Base.{
  ℕ, ◌+◌, ◌-◌, ◌*◌, ◌/◌, ◌^◌, String, Option, true, none, some, [], ◌∷◌, List, ltb, ◌==◌,
  if◌then◌else◌, str_eq,
}
use openclaw_cortex.Base.Int.{pos}
use openclaw_cortex.Base.Float.{Float}
use openclaw_cortex.Base.Strings.{Strings}
use openclaw_cortex.Models.{Memory, SearchResult, Entity, Fact}
use openclaw_cortex.Recall.{Weights, GraphClient, Recaller, with_hops}
use openclaw_cortex.Base.Sort.{exchange_sort}
use openclaw_cortex.Serving.{Machine}
use openclaw_cortex.Api.{Texts}
use openclaw_cortex.Store.Mock.{Stored, MockStore}

-- Whole numbers in place of floating-point ones.
abbrev pub whole : Float
whole = record {
  Number = ℕ;
  lit = λ n k. n / 10 ^ k;
  of_nat = λ n. n;
  plus = λ a b. a + b;
  minus = λ a b. a - b;
  times = λ a b. a * b;
  divide = λ a b. a / b;
  neg = λ a. a;
  sqrt = λ a. a;
  exp = λ a. a;
  log2 = λ a. a;
  lt = ltb;
  eq = λ a b. a == b;
}

abbrev pub memory_a : Memory ℕ
memory_a = record {
  id = "a";
  type = "fact";
  scope = "ttl";
  visibility = "private";
  content = "text";
  confidence = 5;
  source = "s";
  tags = [];
  project = "p";
  user_id = "u";
  ttl_seconds = pos 60;
  created_at = 1;
  updated_at = 1;
  last_accessed = 0;
  access_count = 0;
  reinforced_at = 0;
  reinforced_count = 0;
  metadata = [];
  supersedes_id = "";
  valid_until = 0;
  valid_from = 1;
  valid_to = none;
  is_current_version = true;
  conflict_group_id = "g";
  conflict_status = "active";
  has_embedding = true;
}

-- A later version of `a`, of less confidence.
abbrev pub memory_b : Memory ℕ
memory_b = record memory_a { id = "b"; supersedes_id = "a"; confidence = 3; valid_from = 2 }

abbrev pub stored_a : Stored ℕ
stored_a = record { memory = memory_a; vector = 1 ∷ [] }

-- `a` alone.
abbrev pub store_a : MockStore ℕ
store_a = record { memories = ("a", stored_a) ∷ []; entities = [] }

abbrev pub entity_e : Entity ℕ
entity_e = record {
  id = "e";
  name = "Ann";
  type = "person";
  aliases = [];
  memory_ids = [];
  created_at = 1;
  updated_at = 1;
  metadata = [];
  project = "p";
  summary = "";
  name_embedding = [];
  community_id = "";
}

abbrev pub fact_f : Fact ℕ
fact_f = record {
  id = "f";
  source_entity_id = "e";
  target_entity_id = "h";
  relation_type = "KNOWS";
  fact_text = "text";
  fact_embedding = [];
  created_at = 1;
  expired_at = none;
  valid_at = none;
  invalid_at = none;
  source_memory_ids = [];
  episodes = [];
  confidence = 1;
}

-- Texts of one word, in lower case.
abbrev pub words : Strings
words = record {
  to_lower = λ s. s;
  to_upper = λ s. s;
  fields = λ s. s ∷ [];
  contains = λ s t. str_eq s t;
  trim_space = λ s. s;
}

abbrev pub found_a : SearchResult ℕ
found_a = record { memory = memory_a; score = 5; original_similarity = none }

-- The graph leads to `a` and `b`, by one and two hops.
abbrev pub client_ab : GraphClient ℕ
client_ab = record {
  recall = with_hops (λ depth. some ("a" ∷ "b" ∷ [], some (("a", pos 1) ∷ ("b", pos 2) ∷ [])));
  is_mage_available = true;
  search_entities = λ query. some [];
  get_communities_for_entity = λ id. none;
  get_memories_for_community = λ id. none;
}

abbrev pub weights_s : Weights ℕ
weights_s = record {
  similarity = 1;
  recency = 0;
  frequency = 0;
  type_boost = 0;
  scope_boost = 0;
  confidence = 0;
  reinforcement = 0;
  tag_affinity = 0;
  graph_proximity = 0;
}

-- The store has `b`.
abbrev pub get_b : String → Option (Memory ℕ)
get_b id = if str_eq id "b" then some memory_b else none

abbrev pub recaller_b : Recaller ℕ
recaller_b = record {
  weights = weights_s;
  graph_client = some client_ab;
  get = get_b;
  graph_depth = pos 0;
  vector_weight = 1;
  graph_weight = 1;
}

abbrev pub machine : Machine whole
machine = record {
  now = 9;
  fresh_id = "x";
  hours_between = λ a b. b - a;
  sort = λ less xs. exchange_sort less xs;
  len = λ s. 4;
  truncated = λ n. n;
}

abbrev pub texts : Texts
texts = record {
  parse_uint = λ s. none;
  atoi = λ s. none;
  parse_int = λ s. pos 0;
  format_int = λ x. "0";
  cut_bearer = λ s. if str_eq s "Bearer token" then some "token" else none;
  split_comma = λ s. s ∷ [];
  bytes = λ s. [];
  mac = λ secret payload. payload;
  encode = λ bytes. "text";
  decode = λ s. none;
}

abbrev pub embed_one : String → Option (List ℕ)
embed_one text = some (1 ∷ [])
