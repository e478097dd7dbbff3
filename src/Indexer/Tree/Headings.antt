-- ===== src/Indexer/Tree/Headings.antt =====
-- internal/indexer/tree.go: the sections of a document, read line by line and without pointers, and
-- that the nodes are these.
use mathlib.Core.List.{append-nil, append_assoc}
use openclaw_cortex.Base.{
  ℕ, zero, suc, String, none, some, List, [], ◌∷◌, ◌++◌, ◌≡◌, refl, sym, ap, ◌∙◌, map, length,
  Option-cases, inl, inr,
}
use openclaw_cortex.Indexer.Tree.{
  SectionNode, Parser, LineText, modify_at, pop_to, parse_header, flush, filled, with_child, attach,
  add_heading, read_line, read_lines, no_sections, parse_markdown_tree,
}

-- What a reader sees of a section: depth, title, text and number of words.
abbrev Section : Type 0
Section = ℕ × String × String × ℕ

abbrev section_of : SectionNode → Section
section_of n = (n.depth, n.title, n.content, n.word_count)

abbrev pub sections_of : List SectionNode → List Section
sections_of = map section_of

-- A heading with the lines below it.
abbrev Headed : Type 0
Headed = ℕ × String × List String

module _ (lt : LineText) where
  abbrev pub section : Headed → Section
  section (depth, title, lines) =
      let body = lt.trim_space (lt.join_lines lines) in
      (depth, title, body, length (lt.fields body))

  -- The lines before the first heading, and the headings.
  unfoldable pub outline : List String → List String × List Headed
  outline [] = ([], [])
  outline (line ∷ lines) =
      let (early, headed) = outline lines in
      elim (parse_header lt line) [
        | none ↦ (line ∷ early, headed)
        | some (depth, title) ↦ ([], (depth, title, early) ∷ headed)
      ]

-- The early lines join those of the first heading.
abbrev pub preambled : List String → List Headed → List Headed
preambled early [] = []
preambled early ((depth, title, lines) ∷ headed) = (depth, title, early ++ lines) ∷ headed

with_child-section : (i : ℕ) (n : SectionNode) → section_of (with_child i n) ≡ section_of n
with_child-section i n = refl

sections_of-modify_at :
    (parent i : ℕ) (nodes : List SectionNode)
    → sections_of (modify_at parent (with_child i) nodes) ≡ sections_of nodes
unfolding modify_at
sections_of-modify_at parent i [] = refl
sections_of-modify_at zero i (n ∷ nodes) = refl
sections_of-modify_at (suc parent) i (n ∷ nodes) =
    ap (◌∷◌ (section_of n)) (sections_of-modify_at parent i nodes)

sections_of-append :
    (xs ys : List SectionNode) → sections_of (xs ++ ys) ≡ sections_of xs ++ sections_of ys
sections_of-append [] ys = refl
sections_of-append (x ∷ xs) ys = ap (◌∷◌ (section_of x)) (sections_of-append xs ys)

length-sections_of : (nodes : List SectionNode) → length (sections_of nodes) ≡ length nodes
length-sections_of [] = refl
length-sections_of (n ∷ nodes) = ap suc (length-sections_of nodes)

abbrev take_one : List Section → List Section
take_one [] = []
take_one (x ∷ xs) = x ∷ []

abbrev drop_one : List Section → List Section
drop_one [] = []
drop_one (x ∷ xs) = xs

-- The last section, which is the current one.
record Last (before : List Section) (last : Section) (p : Parser) : Type 0 where
  sections : sections_of p.nodes ≡ before ++ last ∷ []
  at : p.current ≡ some (length before)

attach-Last :
    (depth : ℕ) (title : String) (stack : List ℕ) (p : Parser)
    → Last (sections_of p.nodes) (depth, title, "", 0) (attach depth title stack p)
unfolding attach
attach-Last depth title [] p = record {
  sections = sections_of-append p.nodes _;
  at = ap some (sym (length-sections_of p.nodes));
}
attach-Last depth title (parent ∷ stack) p = record {
  sections =
      sections_of-append (modify_at parent (with_child (length p.nodes)) p.nodes) _
      ∙ ap (λ l. l ++ (depth, title, "", 0) ∷ [])
          (sections_of-modify_at parent (length p.nodes) p.nodes);
  at = ap some (sym (length-sections_of p.nodes));
}

attach-body_lines :
    (depth : ℕ) (title : String) (stack : List ℕ) (p : Parser)
    → (attach depth title stack p).body_lines ≡ p.body_lines
unfolding attach
attach-body_lines depth title [] p = refl
attach-body_lines depth title (parent ∷ stack) p = refl

module _ (lt : LineText) where
  abbrev with_lines : List String → Section → Section
  with_lines lines (depth, title, _, _) = section lt (depth, title, lines)

  last_filled :
      (before : List Section) (last : Section) (lines : List String) (nodes : List SectionNode)
      → sections_of nodes ≡ before ++ last ∷ []
      → sections_of (modify_at (length before) (filled lt lines) nodes)
        ≡ before ++ with_lines lines last ∷ []
  unfolding modify_at
  last_filled [] last lines [] h = cc
  last_filled (x ∷ before) last lines [] h = cc
  last_filled [] last lines (n ∷ nodes) h =
      ap (λ l. map (with_lines lines) (take_one l) ++ drop_one l) h
  last_filled (x ∷ before) last lines (n ∷ nodes) h =
      ap (λ l. take_one l ++ sections_of (modify_at (length before) (filled lt lines) nodes)) h
      ∙ ap (◌∷◌ x) (last_filled before last lines nodes (ap drop_one h))

  flush-Last :
      (before : List Section) (last : Section) (p : Parser)
      → Last before last p
      → sections_of (flush lt p).nodes ≡ before ++ with_lines p.body_lines last ∷ []
  unfolding flush
  flush-Last before last p k =
      rw (k.at, flush) (last_filled before last p.body_lines p.nodes (k.sections))

  flush-body_lines :
      (before : List Section) (last : Section) (p : Parser)
      → Last before last p
      → (flush lt p).body_lines ≡ []
  unfolding flush
  flush-body_lines before last p k = rw (k.at, flush) refl

  read_lines-Last :
      (lines : List String) (before : List Section) (last : Section) (p : Parser)
      → Last before last p
      → let (early, headed) = outline lt lines in
        sections_of (flush lt (read_lines lt lines p)).nodes
        ≡ before ++ with_lines (p.body_lines ++ early) last ∷ map (section lt) headed
  unfolding read_lines read_line add_heading outline
  read_lines-Last [] before last p k =
      flush-Last before last p k
      ∙ ap (λ l. before ++ with_lines l last ∷ []) (sym (append-nil p.body_lines))
  read_lines-Last (line ∷ lines) before last p k =
      let q = flush lt p in
      let (early, headed) = outline lt lines in
      elim (Option-cases (parse_header lt line)) [
        | inl e ↦
            rw (e, read_line, outline)
              (read_lines-Last lines before last
                  (record p { body_lines = p.body_lines ++ line ∷ [] })
                  (record { sections = k.sections; at = k.at })
                ∙ ap (λ l. before ++ with_lines l last ∷ map (section lt) headed)
                    (append_assoc p.body_lines (line ∷ []) early))
        | inr ((depth, title), e) ↦
            rw (e, read_line, outline)
              (let added = attach depth title (pop_to q.nodes depth q.stack) q in
                let cleared : added.body_lines ≡ [] =
                  attach-body_lines depth title (pop_to q.nodes depth q.stack) q
                  ∙ flush-body_lines before last p k in
                read_lines-Last lines (sections_of q.nodes) (depth, title, "", 0) added
                  (attach-Last depth title (pop_to q.nodes depth q.stack) q)
                ∙ ap
                    (λ l.
                      sections_of q.nodes
                      ++ section lt (depth, title, l ++ early) ∷ map (section lt) headed)
                    cleared
                ∙ ap (λ l. l ++ section lt (depth, title, early) ∷ map (section lt) headed)
                    (flush-Last before last p k)
                ∙ append_assoc before (with_lines p.body_lines last ∷ []) _
                ∙ ap
                    (λ l.
                      before
                      ++ with_lines l last
                        ∷ section lt (depth, title, early)
                        ∷ map (section lt) headed)
                    (sym (append-nil p.body_lines)))
      ]

  flush-none : (p : Parser) → p.current ≡ none → flush lt p ≡ p
  unfolding flush
  flush-none p a = simp (flush, a)

  -- Before the first heading no node is made.
  read_lines_early :
      (lines : List String) (p : Parser)
      → p.current ≡ none
      → p.nodes ≡ []
      → let (early, headed) = outline lt lines in
        sections_of (flush lt (read_lines lt lines p)).nodes
        ≡ map (section lt) (preambled (p.body_lines ++ early) headed)
  unfolding read_lines read_line add_heading outline flush
  read_lines_early [] p a b = rw (a, flush) (ap sections_of b)
  read_lines_early (line ∷ lines) p a b =
      let (early, headed) = outline lt lines in
      elim (Option-cases (parse_header lt line)) [
        | inl e ↦
            rw (e, read_line, outline)
              (read_lines_early lines (record p { body_lines = p.body_lines ++ line ∷ [] }) a b
                ∙ ap (λ l. map (section lt) (preambled l headed))
                    (append_assoc p.body_lines (line ∷ []) early))
        | inr ((depth, title), e) ↦
            rw (e, read_line, outline)
              (let kept = pop_to p.nodes depth p.stack in
                let added = attach depth title kept p in
                ap
                  (λ q.
                    sections_of
                      (flush lt (
                        read_lines lt lines
                          (attach depth title (pop_to q.nodes depth q.stack) q))).nodes)
                  (flush-none p a)
                ∙ read_lines-Last lines (sections_of p.nodes) (depth, title, "", 0) added
                    (attach-Last depth title kept p)
                ∙ ap
                    (λ l.
                      l
                      ++ section lt (depth, title, added.body_lines ++ early)
                        ∷ map (section lt) headed)
                    (ap sections_of b)
                ∙ ap (λ l. section lt (depth, title, l ++ early) ∷ map (section lt) headed)
                    (attach-body_lines depth title kept p ∙ sym (append-nil p.body_lines)))
      ]

  -- The nodes, read as depth, title, text and number of words, are the headings of the document in
  -- order, each with the lines up to the next heading; the lines before the first heading are put
  -- in front of its lines, and without a heading there is no node.
  pub parse_markdown_tree-outline :
      (lines : List String)
      → let (nodes, _) = parse_markdown_tree lt lines in
        let (early, headed) = outline lt lines in
        sections_of nodes ≡ map (section lt) (preambled early headed)
  unfolding parse_markdown_tree
  parse_markdown_tree-outline lines = read_lines_early lines no_sections refl refl
