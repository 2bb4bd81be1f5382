-- ===== src/Engine/Outline/Members.antt =====
-- The members of a class: pkg/engine/outliner.go. The languages share what stands here; each has a
-- module of its own.
pub mod Go
pub mod Python
pub mod Java
pub mod JsTs
pub mod Rust
pub mod Cpp
use codesight.Prelude.{
  ℕ, ◌+◌, ◌≡◌, Bool, true, false, not, ◌&&◌, ◌||◌, List, [], ◌∷◌, ◌++◌, if◌then◌else◌, Option, none,
  some,
}
use codesight.Text.{
  Text, str, eqt, has_prefix, has_suffix, has_byte, contains, trim_space, trim_suffix,
}
use codesight.Text.FilePath.{until, is_empty}
use codesight.Text.Unicode.{Unicode, first_rune}
use codesight.Engine.{OutlineEntry}
use codesight.Engine.Syntax.{
  Node, kind, children, first_line, last_line, content, content_or_empty, child_by_field,
  named_children, is_kind, first_of_kind, all_of,
}
use codesight.Engine.Outline.Line.{line_one, declaration_line}

-- An entry with the lines of a node.
abbrev pub entry_at : Node → Text → Text → Text → Text → OutlineEntry
entry_at n name entry_kind signature visibility = record {
  name = name;
  kind = entry_kind;
  line = first_line n;
  end_line = last_line n;
  signature = signature;
  visibility = visibility;
}

-- A loop that appends what each node gives.
abbrev pub collect : (Node → List OutlineEntry) → List Node → List OutlineEntry
collect give [] = []
collect give (n ∷ ns) = give n ++ collect give ns

abbrev pub named_children_of : Option Node → List Node
named_children_of none = []
named_children_of (some n) = named_children n

module _ (source : Text) where
  -- The content of the child under the field "name".
  abbrev pub name_of : Node → Text
  name_of n = content_or_empty source (child_by_field (str "name") n)

  abbrev pub declaration_of : Node → Text
  declaration_of n = declaration_line (content source n)

  -- The named children of the body.
  abbrev pub body_of : Node → List Node
  body_of class_node = named_children_of (child_by_field (str "body") class_node)
