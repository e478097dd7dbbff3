-- ===== src/Config.antt =====
-- internal/config/config.go: Validate, over the settings that it reads.
use openclaw_cortex.Base.{
  ℕ, ◌<◌, String, Bool, true, false, not, ◌||◌, Option, none, some, ◌≡◌, refl, arith, ltb, leb,
  if◌then◌else◌, str_eq,
}
use openclaw_cortex.Base.Int.{ℤ, pos, negsuc}
use openclaw_cortex.Base.Float.{Float}

pub record Config (F : Type 0) : Type 0 where
  pub memgraph_uri : String
  pub ollama_base_url : String
  pub chunk_size : ℤ
  pub chunk_overlap : ℤ
  pub dedup_threshold : F
  pub dedup_threshold_hook : F
  pub vector_dimension : ℤ
  pub default_ttl_hours : ℤ
  pub async_disabled : Bool
  pub worker_count : ℤ
  pub queue_capacity : ℤ
  pub max_retries : ℤ
  pub retry_delay_seconds : ℤ
  pub embedder_provider : String
  pub lmstudio_model : String

-- `x < 0`, `x < 1` and `x >= y`
abbrev is_negative : ℤ → Bool
is_negative (pos n) = false
is_negative (negsuc n) = true

abbrev below_one : ℤ → Bool
below_one (pos n) = ltb n 1
below_one (negsuc n) = true

abbrev pub at_least : ℤ → ℤ → Bool
at_least (pos m) (pos n) = leb n m
at_least (pos m) (negsuc n) = true
at_least (negsuc m) (pos n) = false
at_least (negsuc m) (negsuc n) = leb m n

abbrev first_error : Option String → Option String → Option String
first_error none later = later
first_error (some text) later = some text

module _ (fl : Float) where
  open fl use {Number, lit, lt, eq}

  abbrev out_of_range : Number → Bool
  out_of_range v = (lt v (lit 0 0) || eq v (lit 0 0)) || lt (lit 1 0) v

  unfoldable validate_memory : Config Number → Option String
  validate_memory c =
      if below_one c.chunk_size
      then some "memory.chunk_size must be greater than 0"
      else (if is_negative c.chunk_overlap
          then some "memory.chunk_overlap must be >= 0"
          else (if at_least c.chunk_overlap c.chunk_size
              then some "memory.chunk_overlap must be less than memory.chunk_size"
              else (if out_of_range c.dedup_threshold
                  then some "memory.dedup_threshold must be in range (0, 1]"
                  else (if out_of_range c.dedup_threshold_hook
                      then some "memory.dedup_threshold_hook must be in range (0, 1]"
                      else (if below_one c.vector_dimension
                          then some "memory.vector_dimension must be greater than 0"
                          else (if is_negative c.default_ttl_hours
                              then some "memory.default_ttl_hours must be >= 0"
                              else none))))))

  unfoldable validate_async : Config Number → Option String
  validate_async c =
      if c.async_disabled
      then none
      else (if below_one c.worker_count
          then some "async.worker_count must be >= 1"
          else (if below_one c.queue_capacity
              then some "async.queue_capacity must be >= 1"
              else (if is_negative c.max_retries
                  then some "async.max_retries must be >= 0"
                  else (if is_negative c.retry_delay_seconds
                      then some "async.retry_delay_seconds must be >= 0"
                      else none))))

  unfoldable validate_embedder : Config Number → Option String
  validate_embedder c =
      if str_eq c.embedder_provider "ollama" || str_eq c.embedder_provider ""
      then none
      else (if not (str_eq c.embedder_provider "lmstudio")
          then some "embedder.provider must be ollama or lmstudio"
          else (if str_eq c.lmstudio_model ""
              then some "embedder.lmstudio.model must not be empty when provider is lmstudio"
              else none))

  unfoldable pub validate : Config Number → Option String
  unfolding validate_memory validate_async validate_embedder
  validate c =
      if str_eq c.memgraph_uri ""
      then some "memgraph.uri must not be empty"
      else (if str_eq c.ollama_base_url ""
          then some "ollama.base_url must not be empty"
          else first_error (validate_memory c)
              (first_error (validate_async c) (validate_embedder c)))

sizes :
    (x y : ℤ)
    → below_one x ≡ false
    → is_negative y ≡ false
    → at_least y x ≡ false
    → (size overlap : ℕ) × (x ≡ pos size) × (y ≡ pos overlap) × (overlap < size)
sizes (pos m) (pos n) a b c = (m, n, refl, refl, ground (arith, c))
sizes (pos m) (negsuc n) a b c = cc
sizes (negsuc m) y a b c = cc

module _ (fl : Float) where
  open fl use {Number}

  first_error-none : (a b : Option String) → first_error a b ≡ none → a ≡ none
  first_error-none none b h = refl
  first_error-none (some text) b h = cc

  validate_memory-none : (c : Config Number) → validate fl c ≡ none → validate_memory fl c ≡ none
  unfolding validate
  validate_memory-none c h =
      first_error-none (validate_memory fl c)
        (first_error (validate_async fl c) (validate_embedder fl c)) (ground (arith, h))

  -- The sizes of a valid configuration are numbers from 0, and the overlap is the smaller one.
  validate_sizes :
      (c : Config Number)
      → validate fl c ≡ none
      → (size overlap : ℕ) × (c.chunk_size ≡ pos size)
        × (c.chunk_overlap ≡ pos overlap)
        × (overlap < size)
  unfolding validate_memory
  validate_sizes c h =
      let valid = validate_memory-none c h in
      sizes c.chunk_size c.chunk_overlap (ground (arith, valid)) (ground (arith, valid))
        (ground (arith, valid))
