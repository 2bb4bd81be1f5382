-- ===== src/Engine/Outline/Sound.antt =====
-- Which node is taken for the class, and where its members stand.
use codesight.Prelude.{ℕ, ◌≡◌, inl, inr, Bool, true, false, Bool-cases, Option, none, some}
use codesight.Text.{Text}
use codesight.Engine.Syntax.{Node, node, Nodes, no_nodes, and_node}
use codesight.Engine.Outline.{is_class_node, find_class_node, find_class_node_in, first_found}

-- `n` is the node itself or below it, by named children.
mutual
  pub data Under : Node → Node → Type 0 where
    self : (n : Node) → Under n n
    deeper :
        {d : Node} (k : Text) (sr er sb eb : ℕ) {cs : Nodes}
        → UnderIn d cs
        → Under d (node k sr er sb eb cs)

  pub data UnderIn : Node → Nodes → Type 0 where
    here :
        {d n : Node} (field : Text) {ns : Nodes} → Under d n → UnderIn d (and_node field true n ns)
    later :
        {d : Node} (field : Text) (named : Bool) (n : Node) {ns : Nodes}
        → UnderIn d ns
        → UnderIn d (and_node field named n ns)

module _ (source symbol : Text) (start_line : ℕ) where
  -- No node below, by named children, passes the test.
  unfoldable mutual
    pub NoneUnder : Node → Type 0
    NoneUnder (node k sr er sb eb cs) =
        (is_class_node source symbol start_line (node k sr er sb eb cs) ≡ false) × NoneIn cs

    pub NoneIn : Nodes → Type 0
    NoneIn no_nodes = Unit
    NoneIn (and_node field true n ns) = NoneUnder n × NoneIn ns
    NoneIn (and_node field false n ns) = NoneIn ns

  -- What the search makes of a tree.
  abbrev pub Search : Node → Option Node → Type 0
  Search root none = NoneUnder root
  Search root (some n) = Under n root × (is_class_node source symbol start_line n ≡ true)

  abbrev SearchIn : Nodes → Option Node → Type 0
  SearchIn ns none = NoneIn ns
  SearchIn ns (some n) = UnderIn n ns × (is_class_node source symbol start_line n ≡ true)

  first_found-SearchIn :
      (field : Text) (n : Node) (ns : Nodes) (a b : Option Node)
      → Search n a
      → SearchIn ns b
      → SearchIn (and_node field true n ns) (first_found a b)
  unfolding NoneIn
  first_found-SearchIn field n ns none none h k = (h, k)
  first_found-SearchIn field n ns none (some m) h k = (later field true n k.0, k.1)
  first_found-SearchIn field n ns (some m) b h k = (here field h.0, h.1)

  skipped-SearchIn :
      (field : Text) (n : Node) (ns : Nodes) (b : Option Node)
      → SearchIn ns b
      → SearchIn (and_node field false n ns) b
  unfolding NoneIn
  skipped-SearchIn field n ns none k = k
  skipped-SearchIn field n ns (some m) k = (later field false n k.0, k.1)

  below-Search :
      (k : Text) (sr er sb eb : ℕ) (cs : Nodes) (b : Option Node)
      → is_class_node source symbol start_line (node k sr er sb eb cs) ≡ false
      → SearchIn cs b
      → Search (node k sr er sb eb cs) b
  unfolding NoneUnder
  below-Search k sr er sb eb cs none fails h = (fails, h)
  below-Search k sr er sb eb cs (some m) fails h = (deeper k sr er sb eb h.0, h.1)

  mutual
    unfolding find_class_node NoneIn

    find-Search : (root : Node) → Search root (find_class_node source symbol start_line root)
    find-Search (node k sr er sb eb cs) =
        elim (Bool-cases (is_class_node source symbol start_line (node k sr er sb eb cs))) [
          | inl yes_it_is ↦ rw yes_it_is (self _, yes_it_is)
          | inr fails ↦ rw fails (below-Search k sr er sb eb cs _ fails (find-SearchIn cs))
        ]

    find-SearchIn : (ns : Nodes) → SearchIn ns (find_class_node_in source symbol start_line ns)
    find-SearchIn no_nodes = tt
    find-SearchIn (and_node field true n ns) =
        first_found-SearchIn field n ns _ _ (find-Search n) (find-SearchIn ns)
    find-SearchIn (and_node field false n ns) = skipped-SearchIn field n ns _ (find-SearchIn ns)

-- The search finds a node of the tree, by named children, that declares a class of that name at
-- exactly that line, and it finds none only where none of the nodes that are reached by named children
-- does; what stands below an unnamed child is not looked at.
pub find_class_node-Search :
    (source symbol : Text) (start_line : ℕ) (root : Node)
    → Search source symbol start_line root (find_class_node source symbol start_line root)
find_class_node-Search source symbol start_line root = find-Search source symbol start_line root
