-- ===== src/Indexer/Tests.antt =====
-- internal/indexer: the theorems at concrete documents.
use openclaw_cortex.Base.{
  ℕ, String, true, ◌&&◌, ◌<>◌, zero, suc, ap, ◌∙◌, Option, none, some, List, [], ◌∷◌, ◌≡◌, refl,
  arith, length, lookup, All, if◌then◌else◌, str_eq, map,
}
use Prim.Native.String.{count}
use text.Mathlib.TextLemmas.{length-append}
use openclaw_cortex.Samples.{whole}
use openclaw_cortex.Store.Mock.{new_mock_store, cosine_similarity, sums}
use openclaw_cortex.Indexer.Tree.{LineText, parse_markdown_tree}
use openclaw_cortex.Indexer.Tree.Forest.{Spans}
use openclaw_cortex.Indexer.Tree.Walked.{parse_markdown_tree-Spans}
use openclaw_cortex.Indexer.Tree.Headings.{
  sections_of, section, outline, preambled, parse_markdown_tree-outline,
}
use openclaw_cortex.Indexer.Split.{Splitting, split_by_size}
use openclaw_cortex.Indexer.Split.Cuts.{Cuts, split_by_size-Cuts}
use openclaw_cortex.Indexer.Files.{Chunk, FileText, chunk_text, section_chunks, indexed, index_file}
use openclaw_cortex.Indexer.Files.Chunks.{each, chunk_text-each}
use openclaw_cortex.Indexer.Files.Again.{Around, in_memory_outside, is_close, index_file_again}

-- Two headings, one below the other.
abbrev headings : String → String → Option String
headings line prefix =
    if str_eq line "# top" && str_eq prefix "# "
    then some "top"
    else (if str_eq line "## sub" && str_eq prefix "## " then some "sub" else none)

abbrev first_of : List String → String
first_of [] = ""
first_of (s ∷ ss) = s

-- Texts of one word.
abbrev plain : LineText
plain = record {
  cut_prefix = headings;
  trim_space = λ s. s;
  fields = λ s. s ∷ [];
  join_lines = first_of;
}

abbrev document : List String
document = "early" ∷ "# top" ∷ "text" ∷ "## sub" ∷ "more" ∷ []

parse_markdown_tree-Spans_example :
    let (nodes, roots) = parse_markdown_tree plain document in Spans nodes 0 roots 0 (length nodes)
parse_markdown_tree-Spans_example = parse_markdown_tree-Spans plain document

parse_markdown_tree-outline_example :
    let (nodes, _) = parse_markdown_tree plain document in
    let (early, headed) = outline plain document in
    sections_of nodes ≡ map (section plain) (preambled early headed)
parse_markdown_tree-outline_example = parse_markdown_tree-outline plain document

-- Three words of four bytes each.
abbrev three_words : Splitting
three_words = record {
  len = λ s. if str_eq s "long" then 14 else 4;
  fields = λ s. "word" ∷ "word" ∷ "last" ∷ [];
  join_words = first_of;
}

split_by_size-Cuts_example :
    Cuts three_words 16 [] ("word" ∷ "word" ∷ "last" ∷ []) (split_by_size three_words "long" 10 5)
split_by_size-Cuts_example =
    split_by_size-Cuts three_words "long" 10 5 5 16 "word" ("word" ∷ "last" ∷ []) (omega arith) refl
      (omega arith, (omega arith, (omega arith, tt))) (omega arith) (omega arith)

abbrev file_text : FileText
file_text = record {
  lines = plain;
  split_lines = λ s. document;
  len = λ s. 4;
  join_words = first_of;
  to_lower = λ s. s;
  trim_marks = λ s. s;
  base = λ s. s;
  ext = λ s. s;
  trim_suffix = λ s t. s;
  has_suffix = λ s t. true;
  number = λ n. "number";
}

chunk_text-each_example :
    let (nodes, _) = parse_markdown_tree plain document in
    chunk_text file_text 10 5 "notes.md" "text"
    ≡ each (section_chunks file_text 10 5 "notes.md") nodes
chunk_text-each_example = chunk_text-each file_text 10 5 "notes.md" "text"

-- The ids are as long as their numbers.
abbrev unary : ℕ → String
unary zero = "a"
unary (suc n) = "a" <> unary n

count-unary : (n : ℕ) → count (unary n) ≡ suc n
count-unary zero = refl
count-unary (suc n) = length-append "a" (unary n) ∙ omega (arith, count-unary n)

unary_apart : (i j : ℕ) → unary i ≡ unary j → i ≡ j
unary_apart i j e = omega (arith, ap count e, count-unary i, count-unary j)

abbrev disk : Around ℕ
disk = record {
  files = λ path. some "text";
  entries = λ dir. none;
  embed = λ text. 1 ∷ [];
  ids = unary;
  time = 9;
}

own_vector :
    (chunks : List Chunk)
    → All (λ c. is_close whole (disk.embed c.content) (disk.embed c.content) ≡ true) chunks
unfolding cosine_similarity sums
own_vector [] = tt
own_vector (c ∷ chunks) = (refl, own_vector chunks)

index_file_again_example :
    let (t, _) =
      index_file whole file_text
        (in_memory_outside whole disk)
        10
        5
        "notes.md"
        (new_mock_store, 0) in
    index_file whole file_text (in_memory_outside whole disk) 10 5 "notes.md" t ≡ (t, indexed 0)
unfolding lookup
index_file_again_example =
    index_file_again whole file_text disk 10 5 unary_apart "notes.md" "text" (new_mock_store, 0)
      refl (λ k h. refl) (own_vector (chunk_text file_text 10 5 "notes.md" "text"))
