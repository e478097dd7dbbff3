-- ===== src/Indexer/Tree/Walked.antt =====
-- internal/indexer/tree.go and indexer.go: the walk over a parsed document.
use mathlib.Core.List.{reverse, reverse-append, reverse-cons, append_assoc}
use openclaw_cortex.Base.{
  ℕ, zero, suc, ◌+◌, ◌-◌, ◌≤◌, ◌<◌, String, Option, none, some, List, [], ◌∷◌, ◌++◌, ◌≡◌, refl, sym,
  ap, subst, ◌∙◌, arith, length, length-append, get_elem?, Option-cases, inl, inr, ◌<>◌,
}
use openclaw_cortex.Indexer.Tree.{
  SectionNode, Parser, LineText, modify_at, depth_at, path_at, pop_to, parse_header, flush,
  new_node, with_child, attach, add_heading, read_line, read_lines, no_sections,
  parse_markdown_tree, walk,
}
use openclaw_cortex.Indexer.Tree.Forest.{
  shape_of, Spans, none_left, node, Open, done, Spans-le, Open-Spans, Open-prefix, Open-last,
}
use openclaw_cortex.Indexer.Tree.Parsed.{
  Forested, flush-Forested, grown, grown_chain, rooted_chain, pop_to_suffix, pop_to_top,
  length-modify_at,
}

-- lo, lo + 1, … as many as the second says.
abbrev pub count_from : ℕ → ℕ → List ℕ
count_from lo zero = []
count_from lo (suc n) = lo ∷ count_from (suc lo) n

count_from-add : (lo m n : ℕ) → count_from lo (m + n) ≡ count_from lo m ++ count_from (lo + m) n
count_from-add lo zero n =
    let one : 0 + n ≡ n = omega arith in
    let two : lo + 0 ≡ lo = omega arith in
    ap (count_from lo) one ∙ sym (ap (λ l. count_from l n) two)
count_from-add lo (suc m) n =
    let one : suc m + n ≡ suc (m + n) = omega arith in
    let two : suc lo + m ≡ lo + suc m = omega arith in
    ap (count_from lo) one
    ∙ ap (◌∷◌ lo)
        (count_from-add (suc lo) m n ∙ ap (λ l. count_from (suc lo) m ++ count_from l n) two)

count_from_none : (lo hi : ℕ) → hi ≤ lo → [] ≡ count_from lo (hi - lo)
count_from_none lo hi h =
    let none_left : hi - lo ≡ 0 = omega arith in sym (ap (count_from lo) none_left)

children_of_shape :
    (o : Option SectionNode) (depth : ℕ) (children : List ℕ) (visit : List ℕ → List ℕ)
    → shape_of o ≡ some (depth, children)
    → (elim o [ none ↦ [] | some n ↦ visit n.children ]) ≡ visit children
children_of_shape none depth children visit h = cc
children_of_shape (some n) depth children visit h = cc

-- The walk visits what the pointers span, in order.
walk-Spans :
    (nodes : List SectionNode) (fuel : ℕ) {above lo hi : ℕ} {ids : List ℕ}
    → Spans nodes above ids lo hi
    → hi ≤ lo + fuel
    → walk nodes fuel ids ≡ count_from lo (hi - lo)
unfolding walk
walk-Spans nodes zero {lo = lo} {hi = hi} s h = count_from_none lo hi (omega arith)
walk-Spans nodes (suc fuel) {lo = lo} {hi = hi} (none_left e) h =
    count_from_none lo hi (omega arith)
walk-Spans nodes (suc fuel) {lo = lo} {hi = hi}
      (node {i = i} {ids = ids} depth mid children e s a below rest) h =
    let under = Spans-le below in
    let over = Spans-le rest in
    let size : hi - lo ≡ suc ((mid - suc i) + (hi - mid)) = omega arith in
    let at_mid : suc i + (mid - suc i) ≡ mid = omega arith in
    ap (◌∷◌ i) (
      ap (λ l. l ++ walk nodes fuel ids)
        (children_of_shape (get_elem? nodes i) depth children (walk nodes fuel) s
          ∙ walk-Spans nodes fuel below (omega arith))
      ∙ ap (λ l. count_from (suc i) (mid - suc i) ++ l)
          (walk-Spans nodes fuel rest (omega arith)
            ∙ sym (ap (λ l. count_from l (hi - mid)) at_mid))
      ∙ sym (count_from-add (suc i) (mid - suc i) (hi - mid)))
    ∙ ap (λ l. l ∷ count_from (suc l) ((mid - suc i) + (hi - mid))) e
    ∙ sym (ap (count_from lo) size)

attach-Forested :
    (depth : ℕ) (title : String) (stack : List ℕ) (p : Parser)
    → 0 < depth
    → Open p.nodes 0 p.roots 0 (reverse stack) (length p.nodes)
    → ((parent : ℕ) (rest : List ℕ) → stack ≡ parent ∷ rest → depth_at p.nodes parent < depth)
    → Forested (attach depth title stack p)
unfolding attach
attach-Forested depth title [] p d o top =
    let new = new_node depth title title in
    record {
      chained =
          subst
            (Open (p.nodes ++ new ∷ []) 0 (p.roots ++ length p.nodes ∷ []) 0 (length p.nodes ∷ []))
            (sym (length-append p.nodes (new ∷ []) ∙ omega arith))
            (rooted_chain p.nodes new d refl (Open-Spans o));
    }
attach-Forested depth title (parent ∷ stack) p d o top =
    let new = new_node depth title (path_at p.nodes parent <> " / " <> title) in
    let last =
      subst (λ l. Open p.nodes 0 p.roots 0 l (length p.nodes)) (reverse-cons parent stack) o in
    let inside = (Open-last (reverse stack) last).1 in
    let longer : length (grown p.nodes parent new inside) ≡ suc (length p.nodes) =
      length-append (modify_at parent (with_child (length p.nodes)) p.nodes) (new ∷ [])
      ∙ omega (arith, length-modify_at parent (with_child (length p.nodes)) p.nodes) in
    let chain : reverse stack ++ parent ∷ length p.nodes ∷ []
        ≡ reverse (length p.nodes ∷ parent ∷ stack) =
      sym (
        reverse-cons (length p.nodes) (parent ∷ stack)
        ∙ ap (λ l. l ++ length p.nodes ∷ []) (reverse-cons parent stack)
        ∙ append_assoc (reverse stack) (parent ∷ []) (length p.nodes ∷ [])) in
    record {
      chained =
          subst
            (Open (grown p.nodes parent new inside) 0 p.roots 0
              (reverse (length p.nodes ∷ parent ∷ stack)))
            (sym longer)
            (subst
              (λ l. Open (grown p.nodes parent new inside) 0 p.roots 0 l (suc (length p.nodes)))
              chain
              (grown_chain p.nodes parent new inside (reverse stack) (top parent stack refl) refl
                last));
    }

module _ (lt : LineText) where
  add_heading-Forested :
      (depth : ℕ) (title : String) (p : Parser)
      → 0 < depth
      → Forested p
      → Forested (add_heading lt depth title p)
  unfolding add_heading
  add_heading-Forested depth title p d k =
      let q = flush lt p in
      let kept = pop_to q.nodes depth q.stack in
      let (popped, same) = pop_to_suffix q.nodes depth q.stack in
      attach-Forested depth title kept q d
        (Open-prefix (reverse kept) (reverse popped) (
          subst (λ l. Open q.nodes 0 q.roots 0 l (length q.nodes))
            (ap reverse same ∙ reverse-append popped kept) ((flush-Forested lt p k).chained)))
        (λ parent rest. pop_to_top q.nodes depth parent q.stack rest)

  header_depth :
      (line : String) (depth : ℕ) (title : String)
      → parse_header lt line ≡ some (depth, title)
      → 0 < depth
  unfolding parse_header
  header_depth line depth title h = ground arith

  read_line-Forested : (line : String) (p : Parser) → Forested p → Forested (read_line lt line p)
  unfolding read_line
  read_line-Forested line p k = elim (Option-cases (parse_header lt line)) [
    | inl e ↦ rw (e, read_line) (record { chained = k.chained })
    | inr ((depth, title), e) ↦
        rw (e, read_line) (add_heading-Forested depth title p (header_depth line depth title e) k)
  ]

  read_lines-Forested :
      (lines : List String) (p : Parser) → Forested p → Forested (read_lines lt lines p)
  unfolding read_lines
  read_lines-Forested [] p k = k
  read_lines-Forested (line ∷ lines) p k = read_lines-Forested lines _ (read_line-Forested line p k)

  no_sections-Forested : Forested no_sections
  no_sections-Forested = record { chained = done (none_left refl) }

  -- The pointers of a parsed document form a forest: from the roots, each node is reached once, a
  -- node comes before the nodes below it and they before the next root or sibling, all in the order
  -- of the document, and every node is deeper than its parent.
  pub parse_markdown_tree-Spans :
      (lines : List String)
      → let (nodes, roots) = parse_markdown_tree lt lines in Spans nodes 0 roots 0 (length nodes)
  unfolding parse_markdown_tree
  parse_markdown_tree-Spans lines =
      Open-Spans
        ((flush-Forested lt _ (read_lines-Forested lines no_sections no_sections-Forested)).chained)

  -- The walk from the roots visits every node once, in the order of the document, with as much fuel
  -- as there are nodes.
  pub walk-parse_markdown_tree :
      (lines : List String)
      → let (nodes, roots) = parse_markdown_tree lt lines in
        walk nodes (length nodes) roots ≡ count_from 0 (length nodes)
  walk-parse_markdown_tree lines =
      let (nodes, roots) = parse_markdown_tree lt lines in
      let all : length nodes - 0 ≡ length nodes = omega arith in
      walk-Spans nodes (length nodes) (parse_markdown_tree-Spans lines) (omega arith)
      ∙ ap (count_from 0) all
