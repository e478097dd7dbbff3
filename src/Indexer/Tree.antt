-- ===== src/Indexer/Tree.antt =====
-- internal/indexer/tree.go: the forest of a document's sections. A pointer to a node is its place in
-- the list of the nodes that were made.
pub mod Forest
pub mod Parsed
pub mod Walked
pub mod Headings
use openclaw_cortex.Base.{
  ℕ, zero, suc, String, Bool, true, false, Option, none, some, List, [], ◌∷◌, ◌++◌, leb,
  if◌then◌else◌, length, get_elem?, ◌<>◌,
}

pub record SectionNode : Type 0 where
  pub title : String
  pub depth : ℕ
  pub path : String
  pub content : String
  pub word_count : ℕ
  pub children : List ℕ

-- The variables of ParseMarkdownTree, with the nodes; the top of the stack stands first.
pub record Parser : Type 0 where
  pub nodes : List SectionNode
  pub roots : List ℕ
  pub stack : List ℕ
  pub current : Option ℕ
  pub body_lines : List String

-- What is done to strings: strings.CutPrefix(line, prefix), strings.TrimSpace, strings.Fields and
-- strings.Join(lines, "\n").
pub record LineText : Type 0 where
  pub cut_prefix : String → String → Option String
  pub trim_space : String → String
  pub fields : String → List String
  pub join_lines : List String → String

-- A write through the pointer to a node.
unfoldable pub modify_at : ℕ → (SectionNode → SectionNode) → List SectionNode → List SectionNode
modify_at i f [] = []
modify_at zero f (n ∷ ns) = f n ∷ ns
modify_at (suc i) f (n ∷ ns) = n ∷ modify_at i f ns

abbrev pub depth_at : List SectionNode → ℕ → ℕ
depth_at nodes i = elim (get_elem? nodes i) [ none ↦ 0 | some n ↦ n.depth ]

abbrev pub path_at : List SectionNode → ℕ → String
path_at nodes i = elim (get_elem? nodes i) [ none ↦ "" | some n ↦ n.path ]

-- Pops the nodes that are not above the new depth.
unfoldable pub pop_to : List SectionNode → ℕ → List ℕ → List ℕ
pop_to nodes depth [] = []
pop_to nodes depth (i ∷ stack) =
    let rest = pop_to nodes depth stack in if leb depth (depth_at nodes i) then rest else i ∷ stack

abbrev pub new_node : ℕ → String → String → SectionNode
new_node depth title path = record {
  title = title;
  depth = depth;
  path = path;
  content = "";
  word_count = 0;
  children = [];
}

abbrev pub with_child : ℕ → SectionNode → SectionNode
with_child i n = record n { children = n.children ++ i ∷ [] }

-- A new node becomes a root, or a child of the top of the stack.
unfoldable pub attach : ℕ → String → List ℕ → Parser → Parser
unfolding modify_at
attach depth title [] p =
    let i = length p.nodes in
    record p {
      nodes = p.nodes ++ new_node depth title title ∷ [];
      roots = p.roots ++ i ∷ [];
      stack = i ∷ [];
      current = some i;
    }
attach depth title (parent ∷ stack) p =
    let i = length p.nodes in
    let path = path_at p.nodes parent <> " / " <> title in
    record p {
      nodes = modify_at parent (with_child i) p.nodes ++ new_node depth title path ∷ [];
      stack = i ∷ parent ∷ stack;
      current = some i;
    }

abbrev pub no_sections : Parser
no_sections = record { nodes = []; roots = []; stack = []; current = none; body_lines = [] }

module _ (lt : LineText) where
  -- From four signs to one.
  unfoldable pub parse_header : String → Option (ℕ × String)
  parse_header line = elim (lt.cut_prefix line "#### ") [
    | some rest ↦ some (4, lt.trim_space rest)
    | none ↦ elim (lt.cut_prefix line "### ") [
      | some rest ↦ some (3, lt.trim_space rest)
      | none ↦ elim (lt.cut_prefix line "## ") [
        | some rest ↦ some (2, lt.trim_space rest)
        | none ↦ elim (lt.cut_prefix line "# ") [
          | some rest ↦ some (1, lt.trim_space rest)
          | none ↦ none
        ]
      ]
    ]
  ]

  abbrev pub filled : List String → SectionNode → SectionNode
  filled lines n =
      let body = lt.trim_space (lt.join_lines lines) in
      record n { content = body; word_count = length (lt.fields body) }

  -- Without a current node the lines stay.
  unfoldable pub flush : Parser → Parser
  unfolding modify_at
  flush p = elim p.current [
    | none ↦ p
    | some i ↦ record p { nodes = modify_at i (filled p.body_lines) p.nodes; body_lines = [] }
  ]

  unfoldable pub add_heading : ℕ → String → Parser → Parser
  unfolding flush pop_to attach
  add_heading depth title p = let q = flush p in attach depth title (pop_to q.nodes depth q.stack) q

  unfoldable pub read_line : String → Parser → Parser
  unfolding parse_header add_heading
  read_line line p = elim (parse_header line) [
    | none ↦ record p { body_lines = p.body_lines ++ line ∷ [] }
    | some (depth, title) ↦ add_heading depth title p
  ]

  unfoldable pub read_lines : List String → Parser → Parser
  unfolding read_line
  read_lines [] p = p
  read_lines (line ∷ lines) p = read_lines lines (read_line line p)

  -- The nodes and the roots, for the lines of strings.Split(content, "\n").
  unfoldable pub parse_markdown_tree : List String → List SectionNode × List ℕ
  unfolding read_lines flush
  parse_markdown_tree lines = let p = flush (read_lines lines no_sections) in (p.nodes, p.roots)

-- walkNode, with the nodes that it visits. The fuel bounds the depth of the recursion.
unfoldable pub walk : List SectionNode → ℕ → List ℕ → List ℕ
walk nodes zero ids = []
walk nodes (suc fuel) [] = []
walk nodes (suc fuel) (i ∷ ids) =
    i ∷ (elim (get_elem? nodes i) [ none ↦ [] | some n ↦ walk nodes fuel n.children ])
    ++ walk nodes fuel ids
