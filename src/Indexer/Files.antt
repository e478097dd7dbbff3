-- ===== src/Indexer/Files.antt =====
-- internal/indexer/indexer.go: from a file to the memories of its chunks.
pub mod Chunks
pub mod Again
use openclaw_cortex.Base.{
  ℕ, zero, suc, ◌+◌, String, Bool, true, false, not, ◌||◌, Option, none, some, List, [], ◌∷◌, ◌++◌,
  map, ltb, if◌then◌else◌, keep, length, get_elem?, Map, ◌<>◌, str_eq,
}
use openclaw_cortex.Base.Int.{pos}
use openclaw_cortex.Base.Float.{Float}
use openclaw_cortex.Models.{zero_memory, Memory, SearchResult}
use openclaw_cortex.Indexer.Tree.{SectionNode, LineText, parse_markdown_tree, walk}
use openclaw_cortex.Indexer.Split.{Splitting, split_by_size}

pub record Chunk : Type 0 where
  pub content : String
  pub source : String
  pub heading : String
  pub section_path : String
  pub section_depth : ℕ
  pub tags : List String
  pub metadata : Map String

-- The packages strings and filepath as they are called here: `split_lines` is
-- strings.Split(content, "\n"), `trim_marks` strings.Trim with the punctuation marks, `base` and `ext`
-- are filepath's. `number` is a number as a value of the metadata.
pub record FileText : Type 0 where
  pub lines : LineText
  pub split_lines : String → List String
  pub len : String → ℕ
  pub join_words : List String → String
  pub to_lower : String → String
  pub trim_marks : String → String
  pub base : String → String
  pub ext : String → String
  pub trim_suffix : String → String → String
  pub has_suffix : String → String → Bool
  pub number : ℕ → String

-- The outside: the context, the clock, uuid.New, the files, the embedder and the store. `none` and
-- `false` are errors; the files of a directory are given with whether they are directories.
pub record Outside (F S : Type 0) : Type 0 where
  pub is_done : S → S × Bool
  pub now : S → S × ℕ
  pub new_id : S → S × String
  pub read_file : String → S → S × Option String
  pub walk_dir : String → S → S × Option (List (String × Bool))
  pub embed_batch : List String → S → S × Option (List (List F))
  pub find_duplicates : List F → F → S → S × Option (List (SearchResult F))
  pub upsert : Memory F → List F → S → S × Bool

-- A count without and with an error, or the panic of an index that is out of range.
pub data Outcome : Type 0 where
  indexed : ℕ → Outcome
  failed : ℕ → Outcome
  panicked : Outcome

abbrev splitting_of : FileText → Splitting
splitting_of ft = record { len = ft.len; fields = ft.lines.fields; join_words = ft.join_words }

module _ (ft : FileText) where
  unfoldable heading_tags : List String → List String
  heading_tags [] = []
  heading_tags (word ∷ words) =
      let rest = heading_tags words in
      let w = ft.trim_marks word in if ltb 2 (ft.len w) then w ∷ rest else rest

  unfoldable extract_tags : String → String → List String
  unfolding heading_tags
  extract_tags heading file_path =
      let base = ft.base file_path in
      let name = ft.trim_suffix base (ft.ext base) in
      (if str_eq name "" then [] else name ∷ [])
      ++ (if str_eq heading "" then [] else heading_tags (ft.lines.fields (ft.to_lower heading)))

  unfoldable pub section_chunks : ℕ → ℕ → String → SectionNode → List Chunk
  unfolding extract_tags split_by_size
  section_chunks chunk_size chunk_overlap file_path n =
      if str_eq n.content ""
      then []
      else map
          (λ text. record {
            content = text;
            source = file_path;
            heading = n.title;
            section_path = n.path;
            section_depth = n.depth;
            tags = extract_tags n.title file_path;
            metadata =
                ("heading", n.title)
                ∷ ("section_path", n.path)
                ∷ ("section_depth", ft.number n.depth)
                ∷ ("word_count", ft.number n.word_count)
                ∷ ("file_path", file_path)
                ∷ [];
          })
          (split_by_size (splitting_of ft) n.content chunk_size chunk_overlap)

  -- What a visit gives, for every node that the walk visits.
  unfoldable pub visited :
      {A : Type 0} → (SectionNode → List A) → List SectionNode → List ℕ → List A
  visited visit nodes [] = []
  visited visit nodes (i ∷ ids) =
      (elim (get_elem? nodes i) [ none ↦ [] | some n ↦ visit n ]) ++ visited visit nodes ids

  -- After the file was read.
  unfoldable pub chunk_text : ℕ → ℕ → String → String → List Chunk
  unfolding visited section_chunks walk parse_markdown_tree
  chunk_text chunk_size chunk_overlap file_path text =
      let (nodes, roots) = parse_markdown_tree (ft.lines) (ft.split_lines text) in
      visited (section_chunks chunk_size chunk_overlap file_path) nodes
        (walk nodes (length nodes) roots)

  abbrev is_markdown : String × Bool → Bool
  is_markdown (path, is_dir) =
      if is_dir then false else (ft.has_suffix path ".md" || ft.has_suffix path ".markdown")

  unfoldable pub markdown_files : List (String × Bool) → List String
  markdown_files entries = map (λ entry. entry.0) (keep is_markdown entries)

module _ (fl : Float) where
  open fl use {Number, lit}

  abbrev pub dedup_threshold : Number
  dedup_threshold = lit 95 2

  abbrev default_indexed_confidence : Number
  default_indexed_confidence = lit 8 1

  unfoldable pub memory_of_chunk : String → ℕ → Chunk → Memory Number
  memory_of_chunk id now chunk = record (zero_memory default_indexed_confidence) {
    id = id;
    type = "fact";
    scope = "permanent";
    visibility = "shared";
    content = chunk.content;
    source = "file:" <> chunk.source;
    tags = chunk.tags;
    created_at = now;
    updated_at = now;
    last_accessed = now;
    metadata = chunk.metadata;
  }

  abbrev pub has_any : Option (List (SearchResult Number)) → Bool
  has_any none = false
  has_any (some []) = false
  has_any (some (d ∷ ds)) = true

module _ (fl : Float) (ft : FileText) {S : Type 0} (o : Outside (fl.Number) S)
    (chunk_size chunk_overlap : ℕ) where
  open fl use {Number}

  -- Whether the chunk was stored. A failed check for duplicates does not stop it.
  unfoldable pub index_chunk : Chunk → List Number → S → S × Bool
  unfolding memory_of_chunk
  index_chunk chunk vec s =
      let (s1, dupes) = o.find_duplicates vec (dedup_threshold fl) s in
      if has_any fl dupes
      then (s1, false)
      else (let (s2, at) = o.now s1 in
          let (s3, id) = o.new_id s2 in o.upsert (memory_of_chunk fl id at chunk) vec s3)

  unfoldable pub index_chunks : List Chunk → List (List Number) → ℕ → S → S × Outcome
  unfolding index_chunk
  index_chunks [] vecs count s = (s, indexed count)
  index_chunks (chunk ∷ chunks) vecs count s =
      let (s1, done) = o.is_done s in
      if done then (s1, failed count) else (elim vecs [
        | [] ↦ (s1, panicked)
        | vec ∷ rest ↦
            let (s2, stored) = index_chunk chunk vec s1 in
            index_chunks chunks rest (if stored then suc count else count) s2
      ])

  unfoldable pub embed_chunks : List Chunk → S → S × Outcome
  unfolding index_chunks
  embed_chunks [] s = (s, indexed 0)
  embed_chunks (chunk ∷ chunks) s =
      let (s1, vecs) = o.embed_batch (map (λ c. c.content) (chunk ∷ chunks)) s in
      elim vecs [ none ↦ (s1, failed 0) | some vs ↦ index_chunks (chunk ∷ chunks) vs 0 s1 ]

  unfoldable pub index_file : String → S → S × Outcome
  unfolding embed_chunks chunk_text
  index_file file_path s =
      let (s1, data_read) = o.read_file file_path s in
      elim data_read [
        | none ↦ (s1, failed 0)
        | some text ↦ embed_chunks (chunk_text ft chunk_size chunk_overlap file_path text) s1
      ]

  -- A file that fails is skipped, and so is what it stored before it failed.
  unfoldable index_files : List String → ℕ → S → S × Outcome
  unfolding index_file
  index_files [] total s = (s, indexed total)
  index_files (file ∷ files) total s =
      let (s1, done) = o.is_done s in
      if done
      then (s1, failed total)
      else (let (s2, outcome) = index_file file s1 in
          elim outcome [
            | indexed n ↦ index_files files (total + n) s2
            | failed n ↦ index_files files total s2
            | panicked ↦ (s2, panicked)
          ])

  unfoldable index_directory : String → S → S × Outcome
  unfolding index_files markdown_files
  index_directory dir s =
      let (s1, entries) = o.walk_dir dir s in
      elim entries [ none ↦ (s1, failed 0) | some es ↦ index_files (markdown_files ft es) 0 s1 ]
