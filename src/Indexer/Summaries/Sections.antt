-- ===== src/Indexer/Summaries/Sections.antt =====
-- internal/indexer/summarizer.go: the order of the sections that are asked for.
use openclaw_cortex.Base.{
  String, Bool, true, false, List, [], ◌∷◌, ◌++◌, ◌≡◌, refl, ap, ◌∙◌, if◌then◌else◌, length,
}
use openclaw_cortex.Base.Float.{Float}
use openclaw_cortex.Models.{Memory}
use openclaw_cortex.Indexer.Tree.{SectionNode, parse_markdown_tree}
use openclaw_cortex.Indexer.Tree.Walked.{count_from, walk-parse_markdown_tree}
use openclaw_cortex.Indexer.Files.{FileText, Outside}
use openclaw_cortex.Indexer.Files.Chunks.{at_end, one_further}
use openclaw_cortex.Indexer.Summaries.{
  Model, summarize_node, with_summary, summarize_nodes, summarize_tree,
}

module _ (fl : Float) (ft : FileText) {S : Type 0} (o : Outside (fl.Number) S)
    (m : Model (fl.Number) S) (source : String) where
  open fl use {Number}

  -- The sections one after the other, without the tree.
  unfoldable one_by_one : List SectionNode → S → S × List (Memory Number) × Bool
  one_by_one [] s = (s, [], true)
  one_by_one (n ∷ nodes) s =
      let (s1, done) = o.is_done s in
      if done
      then (s1, [], false)
      else (let (s2, made) = summarize_node fl ft o m n source s1 in
          let (s3, memories, all) = one_by_one nodes s2 in
          (s3, with_summary fl ft o m made memories, all))

  summarize_nodes-one_by_one :
      (before nodes : List SectionNode) (s : S)
      → summarize_nodes fl ft o m
          (before ++ nodes)
          source
          (count_from (length before) (length nodes))
          s
        ≡ one_by_one nodes s
  unfolding summarize_nodes one_by_one
  summarize_nodes-one_by_one before [] s = refl
  summarize_nodes-one_by_one before (n ∷ nodes) s =
      let (s1, done) = o.is_done s in
      let (s2, made) = summarize_node fl ft o m n source s1 in
      let later =
        one_further (λ l k. summarize_nodes fl ft o m l source (count_from k (length nodes)) s2)
          before n nodes
        ∙ summarize_nodes-one_by_one (before ++ n ∷ []) nodes s2 in
      rw (at_end before n nodes, later) refl

  -- The recursion over the tree asks for the sections one after the other, in the order of the document.
  summarize_tree-one_by_one :
      (lines : List String) (s : S)
      → let (nodes, roots) = parse_markdown_tree (ft.lines) lines in
        summarize_tree fl ft o m nodes roots source s ≡ one_by_one nodes s
  unfolding summarize_tree
  summarize_tree-one_by_one lines s =
      let (nodes, roots) = parse_markdown_tree (ft.lines) lines in
      ap (λ ids. summarize_nodes fl ft o m nodes source ids s)
        (walk-parse_markdown_tree (ft.lines) lines)
      ∙ summarize_nodes-one_by_one [] nodes s
