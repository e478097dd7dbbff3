-- ===== src/Indexer/Files/Again.antt =====
-- internal/indexer/indexer.go over internal/store/mock_store.go: a file that is indexed twice.
use openclaw_cortex.Base.{
  ℕ, suc, ◌≤◌, String, Bool, true, false, ◌||◌, Option, none, some, List, [], ◌∷◌, map, ◌≡◌, refl,
  sym, ap, subst, ◌∙◌, arith, if◌then◌else◌, keep, any, All, Map, lookup, insert, values,
  lookup-insert, str_eq, eq_iff, Bool-cases, inl, inr,
}
use openclaw_cortex.Base.Float.{Float}
use openclaw_cortex.Store.Mock.{
  Stored, MockStore, upsert, supersede, find_duplicates, scored, cosine_similarity,
}
use openclaw_cortex.Indexer.Files.{
  Chunk, FileText, Outside, indexed, memory_of_chunk, has_any, index_chunk, index_chunks,
  chunk_text, embed_chunks, index_file,
}

-- The files on the disk, the embedder, the ids that uuid.New gives one after the other, and the time.
pub record Around (F : Type 0) : Type 0 where
  pub files : String → Option String
  pub entries : String → Option (List (String × Bool))
  pub embed : String → List F
  pub ids : ℕ → String
  pub time : ℕ

-- The store, and the number of ids given.
abbrev Inside : Type 0 → Type 0
Inside F = MockStore F × ℕ

abbrev pub in_memory_outside :
    (fl : Float) → Around (fl.Number) → Outside (fl.Number) (Inside (fl.Number))
in_memory_outside fl a = record {
  is_done = λ s. (s, false);
  now = λ s. (s, a.time);
  new_id = λ s. ((s.0, suc s.1), a.ids s.1);
  read_file = λ path s. (s, a.files path);
  walk_dir = λ dir s. (s, a.entries dir);
  embed_batch = λ texts s. (s, some (map a.embed texts));
  find_duplicates = λ vec threshold s. (s, some (find_duplicates fl vec threshold s.0));
  upsert = λ m vec s. ((upsert a.time m vec s.0, s.1), true);
}

module _ (fl : Float) where
  open fl use {Number, lit, lt, eq}

  -- The vector counts as a duplicate of the first.
  abbrev pub is_close : List Number → List Number → Bool
  is_close vec other =
      let score = cosine_similarity fl vec other in lt (lit 95 2) score || eq (lit 95 2) score

  abbrev near : List Number → Stored Number → Bool
  near vec sm = is_close vec sm.vector

  abbrev is_near : List Number → MockStore Number → Bool
  is_near vec s = any (near vec) (values s.memories)

  has_any-keep :
      (vec : List Number) (sms : List (Stored Number))
      → has_any fl (
          some
            (keep (λ r. lt (lit 95 2) r.score || eq (lit 95 2) r.score) (map (scored fl vec) sms)))
        ≡ any (near vec) sms
  has_any-keep vec [] = refl
  has_any-keep vec (sm ∷ sms) = elim (Bool-cases (near vec sm)) [
    | inl e ↦ rw e refl
    | inr e ↦ rw e (has_any-keep vec sms)
  ]

any-values-insert :
    {V : Type 0} (p : V → Bool) (k : String) (v : V) (m : Map V)
    → lookup k m ≡ none
    → any p (values (insert k v m)) ≡ (any p (values m) || p v)
unfolding lookup insert values
any-values-insert p k v [] h = ground arith
any-values-insert p k v ((j, w) ∷ m) h = ground (arith, any-values-insert p k v m)

module _ (fl : Float) (ft : FileText) (a : Around (fl.Number)) (chunk_size chunk_overlap : ℕ) where
  open fl use {Number}

  abbrev outside : Outside Number (Inside Number)
  outside = in_memory_outside fl a

  -- The ids that are still to come are not in the store.
  abbrev Ready : Inside Number → Type 0
  Ready (s, n) = (k : ℕ) → n ≤ k → lookup (a.ids k) s.memories ≡ none

  abbrev stored : Chunk → List Number → Inside Number → Inside Number
  stored c vec (s, n) = (upsert a.time (memory_of_chunk fl (a.ids n) a.time c) vec s, suc n)

  index_chunk-is_near :
      (c : Chunk) (vec : List Number) (s : Inside Number)
      → index_chunk fl ft outside chunk_size chunk_overlap c vec s
        ≡ (if is_near fl vec s.0 then (s, false) else (stored c vec s, true))
  unfolding index_chunk find_duplicates
  index_chunk-is_near c vec s =
      ap (λ b. if b then (s, false) else (stored c vec s, true))
        (has_any-keep fl vec (values s.0.memories))

  is_near-stored :
      (w vec : List Number) (c : Chunk) (s : Inside Number)
      → Ready s
      → is_near fl w (stored c vec s).0 ≡ (is_near fl w s.0 || is_close fl w vec)
  unfolding upsert memory_of_chunk supersede
  is_near-stored w vec c (s, n) r =
      any-values-insert (near fl w) (a.ids n) _ s.memories (r n (omega arith))

  Ready-stored :
      ((i j : ℕ) → a.ids i ≡ a.ids j → i ≡ j)
      → (c : Chunk) (vec : List Number) (s : Inside Number) → Ready s
      → Ready (stored c vec s)
  unfolding upsert memory_of_chunk supersede
  Ready-stored apart c vec (s, n) r k h =
      lookup-insert (a.ids n) (a.ids k) _ s.memories
      ∙ (elim (Bool-cases (str_eq (a.ids n) (a.ids k))) [
        | inl e ↦ absurd (omega (arith, h, apart n k ((eq_iff (a.ids n) (a.ids k)).0 e)))
        | inr e ↦ rw e (r k (omega arith))
      ])

  abbrev vectors : List Chunk → List (List Number)
  vectors chunks = map a.embed (map (λ c. c.content) chunks)

  abbrev Indexed : Chunk → Inside Number → Type 0
  Indexed c s = is_near fl (a.embed c.content) s.0 ≡ true

  -- All chunks are in the store: nothing is stored.
  index_chunks_again :
      (chunks : List Chunk) (n : ℕ) (s : Inside Number)
      → All (λ c. Indexed c s) chunks
      → index_chunks fl ft outside chunk_size chunk_overlap chunks (vectors chunks) n s
        ≡ (s, indexed n)
  unfolding index_chunks
  index_chunks_again [] n s h = refl
  index_chunks_again (c ∷ chunks) n s (h, hs) =
      let skipped : index_chunk fl ft outside chunk_size chunk_overlap c (a.embed c.content) s
          ≡ (s, false) =
        index_chunk-is_near c (a.embed c.content) s ∙ rw h refl in
      rw skipped (index_chunks_again chunks n s hs)

  abbrev finish : List Chunk → ℕ → Inside Number → Inside Number
  finish chunks n s =
      (index_chunks fl ft outside chunk_size chunk_overlap chunks (vectors chunks) n s).0

  -- What is near stays near.
  index_chunks_keeps :
      ((i j : ℕ) → a.ids i ≡ a.ids j → i ≡ j)
      → (w : List Number) (chunks : List Chunk) (n : ℕ) (s : Inside Number) → Ready s
      → is_near fl w s.0 ≡ true
      → is_near fl w (finish chunks n s).0 ≡ true
  unfolding index_chunks
  index_chunks_keeps apart w [] n s r h = h
  index_chunks_keeps apart w (c ∷ chunks) n s r h =
      let vec = a.embed c.content in
      elim (Bool-cases (is_near fl vec s.0)) [
        | inl e ↦ rw (index_chunk-is_near c vec s, e) (index_chunks_keeps apart w chunks n s r h)
        | inr e ↦
            rw (index_chunk-is_near c vec s, e)
              (index_chunks_keeps apart w chunks (suc n) (stored c vec s)
                (Ready-stored apart c vec s r) (is_near-stored w vec c s r ∙ rw h refl))
      ]

  index_chunks-Indexed :
      ((i j : ℕ) → a.ids i ≡ a.ids j → i ≡ j)
      → (chunks : List Chunk) (n : ℕ) (s : Inside Number) → Ready s
      → All (λ c. is_close fl (a.embed c.content) (a.embed c.content) ≡ true) chunks
      → All (λ c. Indexed c (finish chunks n s)) chunks
  unfolding index_chunks
  index_chunks-Indexed apart [] n s r own = tt
  index_chunks-Indexed apart (c ∷ chunks) n s r (own, owns) =
      let vec = a.embed c.content in
      elim (Bool-cases (is_near fl vec s.0)) [
        | inl e ↦
            (let same : finish (c ∷ chunks) n s ≡ finish chunks n s =
                rw (index_chunk-is_near c vec s, e) refl in
              subst (λ t. All (λ d. Indexed d t) (c ∷ chunks)) (sym same)
                (
                  index_chunks_keeps apart vec chunks n s r e,
                  index_chunks-Indexed apart chunks n s r owns,
                ))
        | inr e ↦
            (let ready = Ready-stored apart c vec s r in
              let same : finish (c ∷ chunks) n s ≡ finish chunks (suc n) (stored c vec s) =
                rw (index_chunk-is_near c vec s, e) refl in
              subst (λ t. All (λ d. Indexed d t) (c ∷ chunks)) (sym same)
                (
                  index_chunks_keeps apart vec chunks (suc n) (stored c vec s) ready
                      (is_near-stored vec vec c s r ∙ ground (own, arith)),
                  index_chunks-Indexed apart chunks (suc n) (stored c vec s) ready owns,
                ))
      ]

  embed_chunks-index_chunks :
      (chunks : List Chunk) (s : Inside Number)
      → embed_chunks fl ft outside chunk_size chunk_overlap chunks s
        ≡ index_chunks fl ft outside chunk_size chunk_overlap chunks (vectors chunks) 0 s
  unfolding embed_chunks index_chunks
  embed_chunks-index_chunks [] s = refl
  embed_chunks-index_chunks (c ∷ chunks) s = refl

  index_file-index_chunks :
      (path text : String) (s : Inside Number)
      → a.files path ≡ some text
      → let chunks = chunk_text ft chunk_size chunk_overlap path text in
        index_file fl ft outside chunk_size chunk_overlap path s
        ≡ index_chunks fl ft outside chunk_size chunk_overlap chunks (vectors chunks) 0 s
  unfolding index_file
  index_file-index_chunks path text s found =
      rw found (embed_chunks-index_chunks (chunk_text ft chunk_size chunk_overlap path text) s)

  -- Over the store in memory, indexing a file a second time stores nothing, returns 0 and leaves
  -- the store as it is, if the file reads the same, the embedder is a function, a chunk's vector
  -- passes the duplicate threshold against itself, and fresh ids differ and are not in the store.
  pub index_file_again :
      ((i j : ℕ) → a.ids i ≡ a.ids j → i ≡ j)
      → (path text : String) (s : Inside Number) → a.files path ≡ some text
      → Ready s
      → All
          (λ c. is_close fl (a.embed c.content) (a.embed c.content) ≡ true)
          (chunk_text ft chunk_size chunk_overlap path text)
      → let (t, _) = index_file fl ft outside chunk_size chunk_overlap path s in
        index_file fl ft outside chunk_size chunk_overlap path t ≡ (t, indexed 0)
  index_file_again apart path text s found r own =
      let chunks = chunk_text ft chunk_size chunk_overlap path text in
      let first = index_file-index_chunks path text s found in
      let t = finish chunks 0 s in
      let again : index_file fl ft outside chunk_size chunk_overlap path t ≡ (t, indexed 0) =
        index_file-index_chunks path text t found
        ∙ index_chunks_again chunks 0 t (index_chunks-Indexed apart chunks 0 s r own) in
      subst (λ u. index_file fl ft outside chunk_size chunk_overlap path u ≡ (u, indexed 0))
        (ap (λ p. p.0) (sym first)) again
