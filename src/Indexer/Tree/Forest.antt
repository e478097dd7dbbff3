-- ===== src/Indexer/Tree/Forest.antt =====
-- internal/indexer/tree.go: what the pointers between the nodes form.
use openclaw_cortex.Base.{
  ℕ, suc, ◌≤◌, ◌<◌, Option, none, some, List, [], ◌∷◌, ◌++◌, ◌≡◌, refl, sym, subst, ◌∙◌, arith,
  get_elem?,
}
use openclaw_cortex.Indexer.Tree.{SectionNode}

abbrev pub shape_of : Option SectionNode → Option (ℕ × List ℕ)
shape_of none = none
shape_of (some n) = some (n.depth, n.children)

-- The depth and the children of a node.
abbrev pub shape_at : List SectionNode → ℕ → Option (ℕ × List ℕ)
shape_at nodes i = shape_of (get_elem? nodes i)

-- The nodes at these pointers and below them are those from `lo` up to `hi`, in this order, and
-- every one is deeper than `above` and than its parent.
pub data Spans (nodes : List SectionNode) : ℕ → List ℕ → ℕ → ℕ → Type 0 where
  none_left : {above lo hi : ℕ} → lo ≡ hi → Spans nodes above [] lo hi
  node :
      {above i lo hi : ℕ} {ids : List ℕ} (depth mid : ℕ) (children : List ℕ)
      → i ≡ lo
      → shape_at nodes i ≡ some (depth, children)
      → above < depth
      → Spans nodes depth children (suc i) mid
      → Spans nodes above ids mid hi
      → Spans nodes above (i ∷ ids) lo hi

-- The same, with the chain of the last nodes, from a root down.
pub data Open (nodes : List SectionNode) : ℕ → List ℕ → ℕ → List ℕ → ℕ → Type 0 where
  done :
      {above lo hi : ℕ} {ids : List ℕ} → Spans nodes above ids lo hi → Open nodes above ids lo [] hi
  into :
      {above i lo hi : ℕ} {ids chain : List ℕ} (before : List ℕ) (depth : ℕ) (children : List ℕ)
      → ids ≡ before ++ i ∷ []
      → Spans nodes above before lo i
      → shape_at nodes i ≡ some (depth, children)
      → above < depth
      → Open nodes depth children (suc i) chain hi
      → Open nodes above ids lo (i ∷ chain) hi

pub Spans-le :
    {nodes : List SectionNode} {above lo hi : ℕ} {ids : List ℕ}
    → Spans nodes above ids lo hi
    → lo ≤ hi
Spans-le (none_left e) = omega arith
Spans-le (node depth mid children e s a below rest) = omega (arith, Spans-le below, Spans-le rest)

-- Spans looks only at the nodes that it spans.
pub Spans-frame :
    {nodes after : List SectionNode} {above lo hi : ℕ} {ids : List ℕ}
    → Spans nodes above ids lo hi
    → ((i : ℕ) → lo ≤ i → i < hi → shape_at after i ≡ shape_at nodes i)
    → Spans after above ids lo hi
Spans-frame (none_left e) same = none_left e
Spans-frame (node {i = i} depth mid children e s a below rest) same =
    let under = Spans-le below in
    let over = Spans-le rest in
    node depth mid children e (same i (omega arith) (omega arith) ∙ s) a
      (Spans-frame below (λ j l h. same j (omega arith) (omega arith)))
      (Spans-frame rest (λ j l h. same j (omega arith) (omega arith)))

Spans-snoc :
    {nodes : List SectionNode} {above lo i hi : ℕ} {ids : List ℕ} (depth : ℕ) (children : List ℕ)
    → Spans nodes above ids lo i
    → shape_at nodes i ≡ some (depth, children)
    → above < depth
    → Spans nodes depth children (suc i) hi
    → Spans nodes above (ids ++ i ∷ []) lo hi
Spans-snoc depth children (none_left e) s a below =
    node depth _ children (sym e) s a below (none_left refl)
Spans-snoc depth children (node d mid cs e t b under rest) s a below =
    node d mid cs e t b under (Spans-snoc depth children rest s a below)

pub Open-Spans :
    {nodes : List SectionNode} {above lo hi : ℕ} {ids chain : List ℕ}
    → Open nodes above ids lo chain hi
    → Spans nodes above ids lo hi
Open-Spans (done s) = s
Open-Spans {nodes} {above} {lo} {hi} (into before depth children e left s a below) =
    subst (λ l. Spans nodes above l lo hi) (sym e)
      (Spans-snoc depth children left s a (Open-Spans below))

-- The end of the chain may be closed.
pub Open-prefix :
    {nodes : List SectionNode} {above lo hi : ℕ} {ids : List ℕ} (xs ys : List ℕ)
    → Open nodes above ids lo (xs ++ ys) hi
    → Open nodes above ids lo xs hi
Open-prefix [] ys o = done (Open-Spans o)
Open-prefix (x ∷ xs) ys (into before depth children e left s a below) =
    into before depth children e left s a (Open-prefix xs ys below)

pub Open-frame :
    {nodes after : List SectionNode} {above lo hi : ℕ} {ids chain : List ℕ}
    → ((i : ℕ) → shape_at after i ≡ shape_at nodes i)
    → Open nodes above ids lo chain hi
    → Open after above ids lo chain hi
Open-frame same (done s) = done (Spans-frame s (λ i l h. same i))
Open-frame same (into {i = i} before depth children e left s a below) =
    into before depth children e (Spans-frame left (λ j l h. same j)) (same i ∙ s) a
      (Open-frame same below)

-- The last node of the chain lies behind its begin and before its end.
pub Open-last :
    {nodes : List SectionNode} {above lo hi p : ℕ} {ids : List ℕ} (xs : List ℕ)
    → Open nodes above ids lo (xs ++ p ∷ []) hi
    → (lo ≤ p) × (p < hi)
Open-last [] (into before depth children e left s a below) =
    omega (arith, Spans-le left, Spans-le (Open-Spans below))
Open-last (x ∷ xs) (into before depth children e left s a below) =
    omega (arith, Spans-le left, Open-last xs below)
