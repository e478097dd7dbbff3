-- ===== src/Hooks/RerankCache.antt =====
-- internal/hooks/rerank_cache.go: the ranked results of a session on the disk.
use openclaw_cortex.Base.{
  ℕ, ◌-◌, ◌*◌, ◌≤◌, String, Bool, true, false, Option, none, some, List, ◌≡◌, refl, sym, subst, ◌∙◌,
  arith, ltb, if◌then◌else◌, Map, lookup, insert, erase, lookup-insert, eq_iff,
}
use openclaw_cortex.Recall.{RecallResult}

pub record RerankCacheEntry (F : Type 0) : Type 0 where
  pub session_id : String
  pub ranked_at : ℕ
  pub results : List (RecallResult F)

-- encoding/json, and filepath.Join of the home directory, the cache's and the session's file.
pub record CacheFiles (F : Type 0) : Type 0 where
  pub marshal : RerankCacheEntry F → Option String
  pub unmarshal : String → Option (RerankCacheEntry F)
  pub path : String → String → String

abbrev rerank_cache_ttl : ℕ
rerank_cache_ttl = 5 * 60 * 1000000000

module _ {F : Type 0} (io : CacheFiles F) where
  -- The disk is a map from paths to contents; `written` is whether os.WriteFile succeeds, which the
  -- caller does not learn.
  unfoldable write_rerank_cache :
      Bool → ℕ → String → String → List (RecallResult F) → Map String → Map String
  write_rerank_cache written now home session_id results disk =
      elim (io.marshal (record { session_id = session_id; ranked_at = now; results = results })) [
        | none ↦ disk
        | some text ↦ if written then insert (io.path home session_id) text disk else disk
      ]

  -- `none` is the nil slice.
  unfoldable read_rerank_cache :
      ℕ → String → String → Map String → Map String × Option (List (RecallResult F))
  read_rerank_cache now home session_id disk =
      let path = io.path home session_id in
      elim (lookup path disk) [
        | none ↦ (disk, none)
        | some text ↦ elim (io.unmarshal text) [
          | none ↦ (disk, none)
          | some entry ↦
              if ltb rerank_cache_ttl (now - entry.ranked_at)
              then (erase path disk, none)
              else (disk, some entry.results)
        ]
      ]

  -- What was written is read for five minutes.
  read-write_rerank_cache :
      (now later : ℕ) (home session_id text : String) (results : List (RecallResult F))
      (disk : Map String)
      → io.marshal (record { session_id = session_id; ranked_at = now; results = results })
        ≡ some text
      → io.unmarshal text
        ≡ some (record { session_id = session_id; ranked_at = now; results = results })
      → later - now ≤ 300000000000
      → let written = write_rerank_cache true now home session_id results disk in
        read_rerank_cache later home session_id written ≡ (written, some results)
  unfolding read_rerank_cache write_rerank_cache
  read-write_rerank_cache now later home session_id text results disk m u fresh =
      let path = io.path home session_id in
      let found : lookup path (insert path text disk) ≡ some text =
        lookup-insert path path text disk ∙ ground (arith, eq_iff path path) in
      let on_time : ltb rerank_cache_ttl (later - now) ≡ false = ground (arith, fresh) in
      let stored : write_rerank_cache true now home session_id results disk
          ≡ insert path text disk =
        rw (m, write_rerank_cache) refl in
      subst (λ w. read_rerank_cache later home session_id w ≡ (w, some results)) (sym stored)
        (rw (found, read_rerank_cache) (rw (u, read_rerank_cache) (rw on_time refl)))
