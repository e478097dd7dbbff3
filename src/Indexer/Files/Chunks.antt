-- ===== src/Indexer/Files/Chunks.antt =====
-- internal/indexer/indexer.go: the chunks of a file against its sections.
use mathlib.Core.List.{append_assoc}
use openclaw_cortex.Base.{
  ℕ, suc, String, none, some, List, [], ◌∷◌, ◌++◌, ◌≡◌, refl, sym, ap, ◌∙◌, arith, length,
  length-append, get_elem?,
}
use openclaw_cortex.Indexer.Tree.{SectionNode, parse_markdown_tree, walk}
use openclaw_cortex.Indexer.Tree.Walked.{count_from, walk-parse_markdown_tree}
use openclaw_cortex.Indexer.Files.{FileText, section_chunks, visited, chunk_text}

-- What a visit gives, for every node of the document.
abbrev pub each : {A : Type 0} → (SectionNode → List A) → List SectionNode → List A
each visit [] = []
each visit (n ∷ nodes) = visit n ++ each visit nodes

pub at_end :
    (before : List SectionNode) (n : SectionNode) (nodes : List SectionNode)
    → get_elem? (before ++ n ∷ nodes) (length before) ≡ some n
at_end [] n nodes = refl
at_end (b ∷ before) n nodes = at_end before n nodes

-- The same list and the same place, with one more node before it.
pub one_further :
    {A : Type 0} (f : List SectionNode → ℕ → A) (before : List SectionNode) (n : SectionNode)
    (nodes : List SectionNode)
    → f (before ++ n ∷ nodes) (suc (length before))
      ≡ f ((before ++ n ∷ []) ++ nodes) (length (before ++ n ∷ []))
one_further f before n nodes =
    let one_more : length (before ++ n ∷ []) ≡ suc (length before) =
      length-append before (n ∷ []) ∙ omega arith in
    ap (λ l. f l (suc (length before))) (sym (append_assoc before (n ∷ []) nodes))
    ∙ ap (f ((before ++ n ∷ []) ++ nodes)) (sym one_more)

module _ (ft : FileText) {A : Type 0} (visit : SectionNode → List A) where
  visited-count_from :
      (before nodes : List SectionNode)
      → visited ft visit (before ++ nodes) (count_from (length before) (length nodes))
        ≡ each visit nodes
  unfolding visited
  visited-count_from before [] = refl
  visited-count_from before (n ∷ nodes) =
      ap
        (λ o.
          (elim o [ none ↦ [] | some n ↦ visit n ])
          ++ visited ft visit (before ++ n ∷ nodes)
              (count_from (suc (length before)) (length nodes)))
        (at_end before n nodes)
      ∙ ap (λ l. visit n ++ l)
          (one_further (λ l k. visited ft visit l (count_from k (length nodes))) before n nodes
            ∙ visited-count_from (before ++ n ∷ []) nodes)

  -- The recursion over the children gives the nodes of the document in their order.
  visited-walk :
      (lines : List String)
      → let (nodes, roots) = parse_markdown_tree (ft.lines) lines in
        visited ft visit nodes (walk nodes (length nodes) roots) ≡ each visit nodes
  visited-walk lines =
      let (nodes, roots) = parse_markdown_tree (ft.lines) lines in
      ap (visited ft visit nodes) (walk-parse_markdown_tree (ft.lines) lines)
      ∙ visited-count_from [] nodes

-- The walk over the section tree gives the chunks of every section once, in the order of the
-- document, for any text.
pub chunk_text-each :
    (ft : FileText) (chunk_size chunk_overlap : ℕ) (file_path text : String)
    → let (nodes, _) = parse_markdown_tree (ft.lines) (ft.split_lines text) in
      chunk_text ft chunk_size chunk_overlap file_path text
      ≡ each (section_chunks ft chunk_size chunk_overlap file_path) nodes
unfolding chunk_text
chunk_text-each ft chunk_size chunk_overlap file_path text =
    visited-walk ft (section_chunks ft chunk_size chunk_overlap file_path) (ft.split_lines text)
