-- ===== src/Indexer/Tree/Parsed.antt =====
-- internal/indexer/tree.go: the sections of a parsed document as a forest, and the walk over it.
use mathlib.Core.List.{reverse}
use openclaw_cortex.Base.{
  ℕ, zero, suc, ◌<◌, String, true, false, Option, none, some, List, [], ◌∷◌, ◌++◌, ◌≡◌, ◌≢◌, refl,
  sym, ap, subst, ◌∙◌, arith, leb, ◌==◌, if◌then◌else◌, length, get_elem?, Bool-cases, Option-cases,
  inl, inr,
}
use openclaw_cortex.Indexer.Tree.{
  SectionNode, Parser, LineText, modify_at, depth_at, pop_to, flush, filled, with_child,
}
use openclaw_cortex.Indexer.Tree.Forest.{
  shape_of, shape_at, Spans, none_left, Open, done, into, Spans-frame, Open-frame, Open-last,
}

get_elem?-modify_at :
    (p i : ℕ) (f : SectionNode → SectionNode) (ns : List SectionNode)
    → get_elem? (modify_at p f ns) i ≡ (
        if p == i
        then (elim (get_elem? ns i) [ none ↦ none | some n ↦ some (f n) ])
        else get_elem? ns i)
unfolding modify_at
get_elem?-modify_at p i f [] = ground arith
get_elem?-modify_at zero zero f (n ∷ ns) = refl
get_elem?-modify_at zero (suc i) f (n ∷ ns) = ground arith
get_elem?-modify_at (suc p) zero f (n ∷ ns) = ground arith
get_elem?-modify_at (suc p) (suc i) f (n ∷ ns) = get_elem?-modify_at p i f ns ∙ ground arith

pub length-modify_at :
    (p : ℕ) (f : SectionNode → SectionNode) (ns : List SectionNode)
    → length (modify_at p f ns) ≡ length ns
unfolding modify_at
length-modify_at p f [] = refl
length-modify_at zero f (n ∷ ns) = refl
length-modify_at (suc p) f (n ∷ ns) = ap suc (length-modify_at p f ns)

get_elem?-snoc :
    (ns : List SectionNode) (n : SectionNode) → get_elem? (ns ++ n ∷ []) (length ns) ≡ some n
get_elem?-snoc [] n = refl
get_elem?-snoc (m ∷ ns) n = get_elem?-snoc ns n

get_elem?-before :
    (ns ms : List SectionNode) (i : ℕ) → i < length ns → get_elem? (ns ++ ms) i ≡ get_elem? ns i
get_elem?-before [] ms i h = absurd (omega arith)
get_elem?-before (n ∷ ns) ms zero h = refl
get_elem?-before (n ∷ ns) ms (suc i) h = get_elem?-before ns ms i (omega arith)

depth_in :
    (o : Option SectionNode) (depth : ℕ) (children : List ℕ)
    → shape_of o ≡ some (depth, children)
    → (elim o [ none ↦ 0 | some n ↦ n.depth ]) ≡ depth
depth_in none depth children h = cc
depth_in (some n) depth children h = cc

depth_of_shape :
    (nodes : List SectionNode) (i depth : ℕ) (children : List ℕ)
    → shape_at nodes i ≡ some (depth, children)
    → depth_at nodes i ≡ depth
depth_of_shape nodes i = depth_in (get_elem? nodes i)

grown_shape :
    {depth : ℕ} {children : List ℕ} (hi : ℕ) (o : Option SectionNode)
    → shape_of o ≡ some (depth, children)
    → shape_of (elim o [ none ↦ none | some n ↦ some (with_child hi n) ])
      ≡ some (depth, children ++ hi ∷ [])
grown_shape hi none s = cc
grown_shape hi (some n) s = cc

-- The nodes after a new one was made under a parent.
module _ (nodes : List SectionNode) (p : ℕ) (new : SectionNode) (inside : p < length nodes) where
  abbrev pub grown : List SectionNode
  grown = modify_at p (with_child (length nodes)) nodes ++ new ∷ []

  shape_elsewhere : (i : ℕ) → i < length nodes → i ≢ p → shape_at grown i ≡ shape_at nodes i
  shape_elsewhere i h apart =
      let other : (p == i) ≡ false = ground (arith, apart) in
      ap shape_of (
        get_elem?-before (modify_at p (with_child (length nodes)) nodes) (new ∷ []) i
          (omega (arith, length-modify_at p (with_child (length nodes)) nodes))
        ∙ get_elem?-modify_at p i (with_child (length nodes)) nodes
        ∙ rw other refl)

  shape_of_parent :
      (depth : ℕ) (children : List ℕ)
      → shape_at nodes p ≡ some (depth, children)
      → shape_at grown p ≡ some (depth, children ++ length nodes ∷ [])
  shape_of_parent depth children s =
      let same : (p == p) ≡ true = ground arith in
      ap shape_of (
        get_elem?-before (modify_at p (with_child (length nodes)) nodes) (new ∷ []) p
          (omega (arith, length-modify_at p (with_child (length nodes)) nodes))
        ∙ get_elem?-modify_at p p (with_child (length nodes)) nodes
        ∙ rw same refl)
      ∙ grown_shape (length nodes) (get_elem? nodes p) s

  shape_of_new : shape_at grown (length nodes) ≡ some (new.depth, new.children)
  shape_of_new =
      ap (λ i. shape_at grown i) (sym (length-modify_at p (with_child (length nodes)) nodes))
      ∙ ap shape_of (get_elem?-snoc (modify_at p (with_child (length nodes)) nodes) new)

  pub grown_chain :
      {above lo : ℕ} {ids : List ℕ} (xs : List ℕ)
      → depth_at nodes p < new.depth
      → new.children ≡ []
      → Open nodes above ids lo (xs ++ p ∷ []) (length nodes)
      → Open grown above ids lo (xs ++ p ∷ length nodes ∷ []) (suc (length nodes))
  grown_chain [] b leaf (into before depth children e left t a (done below)) =
      let deeper : depth < new.depth = omega (arith, depth_of_shape nodes p depth children t) in
      into before depth (children ++ length nodes ∷ []) e
        (Spans-frame left
          (λ i lower upper. shape_elsewhere i (omega arith) (λ same. omega (arith, same))))
        (shape_of_parent depth children t) a
        (into children (new.depth) [] refl
          (Spans-frame below
            (λ i lower upper. shape_elsewhere i upper (λ same. omega (arith, same))))
          (shape_of_new ∙ ap (λ cs. some (new.depth, cs)) leaf) deeper (done (none_left refl)))
  grown_chain (x ∷ xs) b leaf (into before depth children e left t a below) =
      let (l, r) = Open-last xs below in
      into before depth children e
        (Spans-frame left
          (λ i lower upper. shape_elsewhere i (omega arith) (λ same. omega (arith, same))))
        (shape_elsewhere x (omega arith) (λ same. omega (arith, same)) ∙ t) a
        (grown_chain xs b leaf below)

-- A new root.
pub rooted_chain :
    {ids : List ℕ} (nodes : List SectionNode) (new : SectionNode)
    → 0 < new.depth
    → new.children ≡ []
    → Spans nodes 0 ids 0 (length nodes)
    → Open
        (nodes ++ new ∷ [])
        0
        (ids ++ length nodes ∷ [])
        0
        (length nodes ∷ [])
        (suc (length nodes))
rooted_chain {ids} nodes new b leaf s =
    into ids (new.depth) [] refl
      (Spans-frame s (λ i lower upper. ap shape_of (get_elem?-before nodes (new ∷ []) i upper)))
      (ap shape_of (get_elem?-snoc nodes new) ∙ ap (λ cs. some (new.depth, cs)) leaf) b
      (done (none_left refl))

pub pop_to_suffix :
    (nodes : List SectionNode) (depth : ℕ) (stack : List ℕ)
    → (popped : List ℕ) × (stack ≡ popped ++ pop_to nodes depth stack)
unfolding pop_to
pop_to_suffix nodes depth [] = ([], refl)
pop_to_suffix nodes depth (i ∷ stack) = elim (Bool-cases (leb depth (depth_at nodes i))) [
  | inl e ↦
      (let (popped, same) = pop_to_suffix nodes depth stack in (i ∷ popped, rw e (ap (◌∷◌ i) same)))
  | inr e ↦ ([], rw e refl)
]

head_or : ℕ → List ℕ → ℕ
head_or d [] = d
head_or d (x ∷ xs) = x

pub pop_to_top :
    (nodes : List SectionNode) (depth parent : ℕ) (stack rest : List ℕ)
    → pop_to nodes depth stack ≡ parent ∷ rest
    → depth_at nodes parent < depth
unfolding pop_to head_or
pop_to_top nodes depth parent [] rest h = cc
pop_to_top nodes depth parent (i ∷ stack) rest h =
    elim (Bool-cases (leb depth (depth_at nodes i))) [
      | inl e ↦ pop_to_top nodes depth parent stack rest (sym (rw e refl) ∙ h)
      | inr e ↦
          (let kept : i ∷ stack ≡ parent ∷ rest = sym (rw (e, pop_to) refl) ∙ h in
            let same : i ≡ parent = ap (head_or 0) kept in
            subst (λ k. depth_at nodes k < depth) same (ground (arith, e)))
    ]

-- The nodes so far are a forest, and the stack is the chain of its last nodes.
pub record Forested (p : Parser) : Type 0 where
  pub chained : Open p.nodes 0 p.roots 0 (reverse p.stack) (length p.nodes)

module _ (lt : LineText) where
  shape_of-filled :
      (lines : List String) (o : Option SectionNode)
      → shape_of (elim o [ none ↦ none | some n ↦ some (filled lt lines n) ]) ≡ shape_of o
  shape_of-filled lines none = refl
  shape_of-filled lines (some n) = refl

  pub flush-Forested : (p : Parser) → Forested p → Forested (flush lt p)
  unfolding flush
  flush-Forested p k = elim (Option-cases p.current) [
    | inl e ↦ rw (e, flush) k
    | inr (i, e) ↦
        (let f = filled lt p.body_lines in
          rw (e, flush)
            (record {
              chained =
                  subst (Open (modify_at i f p.nodes) 0 p.roots 0 (reverse p.stack))
                    (sym (length-modify_at i f p.nodes))
                    (Open-frame
                      (λ j.
                        ap shape_of (get_elem?-modify_at i j f p.nodes)
                        ∙ (elim (Bool-cases (i == j)) [
                          | inl h ↦ rw h (shape_of-filled p.body_lines (get_elem? p.nodes j))
                          | inr h ↦ rw h refl
                        ]))
                      (k.chained));
            }))
  ]
