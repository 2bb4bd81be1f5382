-- ===== src/Engine/Syntax.antt =====
-- What the third-party parser returns (tree-sitter), and the questions that the program asks of it:
-- the kind, rows and bytes of a node, its named children, a child by its field or its kind. A child
-- stands under a field name (empty where it has none) and is named or not.
use codesight.Prelude.{
  ℕ, ◌+◌, ◌-◌, Bool, List, [], ◌∷◌, take, drop, if◌then◌else◌, Option, none, some,
}
use codesight.Text.{Text, eqt}

-- A node: its kind, its first and last row, its first byte and the one behind its last, its children.
mutual
  pub data Node : Type 0 where
    node : Text → ℕ → ℕ → ℕ → ℕ → Nodes → Node

  pub data Nodes : Type 0 where
    no_nodes : Nodes
    and_node : Text → Bool → Node → Nodes → Nodes

abbrev pub kind : Node → Text
kind (node k start_row end_row start_byte end_byte children) = k

abbrev pub children : Node → Nodes
children (node k start_row end_row start_byte end_byte cs) = cs

-- int(StartPosition().Row) + 1 and int(EndPosition().Row) + 1
abbrev pub first_line : Node → ℕ
first_line (node k start_row end_row start_byte end_byte cs) = start_row + 1

abbrev pub last_line : Node → ℕ
last_line (node k start_row end_row start_byte end_byte cs) = end_row + 1

-- source[StartByte():EndByte()]
abbrev pub content : Text → Node → Text
content source (node k start_row end_row start_byte end_byte cs) =
    take (end_byte - start_byte) (drop start_byte source)

-- The children, and the named ones, in order.
unfoldable pub all_of : Nodes → List Node
all_of no_nodes = []
all_of (and_node field named n ns) = n ∷ all_of ns

unfoldable pub named_of : Nodes → List Node
named_of no_nodes = []
named_of (and_node field named n ns) = if named then n ∷ named_of ns else named_of ns

-- ChildByFieldName
unfoldable pub by_field : Text → Nodes → Option Node
unfolding eqt
by_field name no_nodes = none
by_field name (and_node field named n ns) = if eqt field name then some n else by_field name ns

abbrev pub child_by_field : Text → Node → Option Node
child_by_field name n = by_field name (children n)

abbrev pub named_children : Node → List Node
named_children n = named_of (children n)

abbrev pub is_kind : Text → Node → Bool
is_kind k n = eqt (kind n) k

-- The first node of a kind.
unfoldable pub first_of_kind : Text → List Node → Option Node
unfolding eqt
first_of_kind k [] = none
first_of_kind k (n ∷ ns) = if is_kind k n then some n else first_of_kind k ns

-- The text of a node that may be missing.
abbrev pub content_or_empty : Text → Option Node → Text
content_or_empty source none = []
content_or_empty source (some n) = content source n
