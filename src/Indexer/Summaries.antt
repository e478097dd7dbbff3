-- ===== src/Indexer/Summaries.antt =====
-- internal/indexer/summarizer.go: a memory for what a model says of a section.
pub mod Sections
use openclaw_cortex.Base.{
  ℕ, zero, suc, ◌+◌, String, Bool, true, false, Option, none, some, List, [], ◌∷◌, map, ltb,
  if◌then◌else◌, length, get_elem?, ◌<>◌, str_eq,
}
use openclaw_cortex.Base.Int.{pos}
use openclaw_cortex.Base.Float.{Float}
use openclaw_cortex.Models.{zero_memory, Memory}
use openclaw_cortex.Indexer.Tree.{SectionNode, parse_markdown_tree, walk}
use openclaw_cortex.Indexer.Files.{
  FileText, Outside, Outcome, indexed, failed, panicked, markdown_files,
}

-- The model, by its prompt, and the embedder of one text; `none` is an error.
pub record Model (F S : Type 0) : Type 0 where
  pub complete : String → S → S × Option String
  pub embed : String → S → S × Option (List F)

-- A memory, none, or an error.
pub data Summary (F : Type 0) : Type 0 where
  summary : Memory F → Summary F
  no_summary : Summary F
  no_answer : Summary F

abbrev summary_min_words : ℕ
summary_min_words = 20

abbrev pub prompt : SectionNode → String
prompt n =
    "Summarize the following document section in one concise sentence (max 25 words). Output ONLY the sentence.\n\nSection: "
    <> n.title <> "\nContent: " <> n.content

module _ (fl : Float) (ft : FileText) where
  open fl use {Number, lit}

  unfoldable memory_of_summary : String → ℕ → SectionNode → String → String → Memory Number
  memory_of_summary id now n text source = record (zero_memory (lit 95 2)) {
    id = id;
    type = "fact";
    scope = "permanent";
    visibility = "shared";
    content = "[Summary] " <> n.path <> ": " <> text;
    source = "file:" <> source;
    tags = "summary" ∷ "section-summary" ∷ [];
    created_at = now;
    updated_at = now;
    last_accessed = now;
    metadata =
        ("section_path", n.path)
        ∷ ("section_depth", ft.number n.depth)
        ∷ ("is_summary", "true")
        ∷ ("source_file", source)
        ∷ [];
  }

module _ (fl : Float) (ft : FileText) {S : Type 0} (o : Outside (fl.Number) S)
    (m : Model (fl.Number) S) where
  open fl use {Number}

  unfoldable pub summarize_node : SectionNode → String → S → S × Summary Number
  unfolding memory_of_summary
  summarize_node n source s =
      if ltb n.word_count summary_min_words
      then (s, no_summary)
      else (let (s1, answer) = m.complete (prompt n) s in
          elim answer [
            | none ↦ (s1, no_answer)
            | some text ↦
                if str_eq (ft.lines.trim_space text) ""
                then (s1, no_summary)
                else (let (s2, at) = o.now s1 in
                    let (s3, id) = o.new_id s2 in
                    (
                      s3,
                      summary (memory_of_summary fl ft id at n (ft.lines.trim_space text) source),
                    ))
          ])

  abbrev pub with_summary : Summary Number → List (Memory Number) → List (Memory Number)
  with_summary (summary memory) memories = memory ∷ memories
  with_summary no_summary memories = memories
  with_summary no_answer memories = memories

  -- Over the nodes in the order of the walk; `false` is the error of the context.
  unfoldable pub summarize_nodes :
      List SectionNode → String → List ℕ → S → S × List (Memory Number) × Bool
  unfolding summarize_node
  summarize_nodes nodes source [] s = (s, [], true)
  summarize_nodes nodes source (i ∷ ids) s =
      let (s1, done) = o.is_done s in
      if done then (s1, [], false) else (elim (get_elem? nodes i) [
        | none ↦ (s1, [], false)
        | some n ↦
            let (s2, made) = summarize_node n source s1 in
            let (s3, memories, all) = summarize_nodes nodes source ids s2 in
            (s3, with_summary made memories, all)
      ])

  unfoldable pub summarize_tree :
      List SectionNode → List ℕ → String → S → S × List (Memory Number) × Bool
  unfolding summarize_nodes walk
  summarize_tree nodes roots source = summarize_nodes nodes source (walk nodes (length nodes) roots)

  unfoldable store_summaries : List (Memory Number) → ℕ → S → S × ℕ
  store_summaries [] stored s = (s, stored)
  store_summaries (memory ∷ memories) stored s =
      let (s1, vec) = m.embed memory.content s in
      elim vec [
        | none ↦ store_summaries memories stored s1
        | some v ↦
            let (s2, ok) = o.upsert memory v s1 in
            store_summaries memories (if ok then suc stored else stored) s2
      ]

  -- Without its summaries, where the context ended.
  unfoldable summarize_file : String → S → S × Outcome
  unfolding summarize_tree store_summaries parse_markdown_tree
  summarize_file file_path s =
      let (s1, data_read) = o.read_file file_path s in
      elim data_read [
        | none ↦ (s1, failed 0)
        | some text ↦
            let (nodes, roots) = parse_markdown_tree (ft.lines) (ft.split_lines text) in
            let (s2, memories, all) = summarize_tree nodes roots file_path s1 in
            if all
            then (let (s3, n) = store_summaries memories 0 s2 in (s3, indexed n))
            else (s2, failed 0)
      ]

  unfoldable summarize_files : List String → ℕ → S → S × Outcome
  unfolding summarize_file
  summarize_files [] total s = (s, indexed total)
  summarize_files (file ∷ files) total s =
      let (s1, done) = o.is_done s in
      if done
      then (s1, failed total)
      else (let (s2, outcome) = summarize_file file s1 in
          elim outcome [
            | indexed n ↦ summarize_files files (total + n) s2
            | failed n ↦ summarize_files files total s2
            | panicked ↦ (s2, panicked)
          ])

  unfoldable summarize_directory : String → S → S × Outcome
  unfolding summarize_files markdown_files
  summarize_directory dir s =
      let (s1, entries) = o.walk_dir dir s in
      elim entries [ none ↦ (s1, failed 0) | some es ↦ summarize_files (markdown_files ft es) 0 s1 ]
