-- ===== src/Engine/Outline.antt =====
-- pkg/engine/outliner.go: the view of a class-like definition that is longer than its budget. The tree
-- comes from a third-party parser and is a parameter, as for the slicer.
pub mod Line
pub mod Members
pub mod Methods
pub mod Sound
pub mod Within
pub mod Top
mod Examples
use codesight.Prelude.{
  ℕ, suc, ◌+◌, ◌-◌, ◌≡◌, Bool, true, false, ◌&&◌, List, [], ◌∷◌, ◌++◌, map, any, take, ltb, ◌==◌,
  if◌then◌else◌, Option, none, some,
}
use codesight.Prelude.Int.{ℤ, pos, leb_ℤ, ltb_ℤ, sub_ℕ}
use codesight.Text.{Text, str, eqt}
use codesight.Text.Unicode.{Unicode}
use codesight.Engine.{OutlineEntry, CodeSlice}
use codesight.Engine.Syntax.{
  Node, node, Nodes, no_nodes, and_node, kind, first_line, content, content_or_empty,
  child_by_field,
}
use codesight.Engine.Slicer.{extract_signature}
use codesight.Engine.Outline.Line.{signature_line}
use codesight.Engine.Outline.Members.Go.{go_members}
use codesight.Engine.Outline.Members.Python.{python_members}
use codesight.Engine.Outline.Members.Java.{java_members}
use codesight.Engine.Outline.Members.JsTs.{js_ts_members}
use codesight.Engine.Outline.Members.Rust.{rust_members}
use codesight.Engine.Outline.Members.Cpp.{cpp_members}
use codesight.Engine.Outline.Methods.{select_and_expand_top_methods}

abbrev pub max_outline_entries : ℕ
max_outline_entries = 12

abbrev pub outline_method_threshold : ℕ
outline_method_threshold = 160

abbrev class_node_kinds : List Text
class_node_kinds = map str (
    "type_declaration" ∷ "type_spec" ∷ "class_definition" ∷ "class_declaration"
    ∷ "interface_declaration" ∷ "enum_declaration" ∷ "abstract_class_declaration" ∷ "struct_item"
    ∷ "trait_item" ∷ "enum_item" ∷ "class_specifier" ∷ "struct_specifier" ∷ [])

abbrev has_name : Text → Text → Option Node → Bool
has_name source symbol none = false
has_name source symbol (some n) = eqt (content source n) symbol

-- Does the node declare the class of that name at that line?
unfoldable pub is_class_node : Text → Text → ℕ → Node → Bool
unfolding eqt
is_class_node source symbol start_line n =
    any (eqt (kind n)) class_node_kinds
    && first_line n == start_line
    && has_name source symbol (child_by_field (str "name") n)

abbrev first_found : Option Node → Option Node → Option Node
first_found none later = later
first_found (some n) later = some n

module _ (source symbol : Text) (start_line : ℕ) where
  unfoldable mutual
    pub find_class_node : Node → Option Node
    find_class_node (node k sr er sb eb cs) =
        let below = find_class_node_in cs in
        if is_class_node source symbol start_line (node k sr er sb eb cs)
        then some (node k sr er sb eb cs)
        else below

    -- The loop over the named children.
    pub find_class_node_in : Nodes → Option Node
    find_class_node_in no_nodes = none
    find_class_node_in (and_node field named n ns) =
        let here = find_class_node n in
        first_found (if named then here else none) (find_class_node_in ns)

-- The switch over the languages.
unfoldable pub members_of : Unicode → Text → Text → Text → Node → Node → List OutlineEntry
unfolding eqt go_members python_members java_members js_ts_members rust_members cpp_members
members_of unicode source language symbol root class_node =
    if eqt language (str "go")
    then go_members source unicode symbol root class_node
    else if eqt language (str "python")
    then python_members source class_node
    else if eqt language (str "java")
    then java_members source class_node
    else if eqt language (str "javascript")
    then js_ts_members source class_node
    else if eqt language (str "typescript")
    then js_ts_members source class_node
    else if eqt language (str "rust")
    then rust_members source symbol root class_node
    else if eqt language (str "cpp")
    then cpp_members source class_node
    else []

abbrev members_from : Unicode → Text → Text → Text → Node → Option Node → List OutlineEntry
members_from unicode source language symbol root none = []
members_from unicode source language symbol root (some class_node) =
    take max_outline_entries (members_of unicode source language symbol root class_node)

unfoldable pub extract_members : Unicode → Text → Text → Text → ℕ → Node → List OutlineEntry
unfolding find_class_node members_of
extract_members unicode source language symbol start_line root =
    members_from unicode source language symbol root (find_class_node source symbol start_line root)

-- Signature, outline, top methods and strategy of OutlineClassDefinition.
pub record ClassView : Type 0 where
  pub signature : Text
  pub outline : List OutlineEntry
  pub top_methods : List CodeSlice
  pub strategy : Text

-- endLine - startLine + 1
abbrev pub body_lines : ℕ → ℕ → ℤ
body_lines start_line end_line = sub_ℕ (end_line + 1) start_line

-- The view of a class that does not fit; `root` is what the parser makes of the source, if anything.
unfoldable pub outlined : Unicode → Text → Text → Text → ℕ → ℕ → ℤ → Option Node → ClassView
unfolding signature_line extract_members select_and_expand_top_methods
outlined unicode source language symbol start_line end_line budget none = record {
  signature = signature_line source start_line;
  outline = [];
  top_methods = [];
  strategy = [];
}
outlined unicode source language symbol start_line end_line budget (some root) =
    let members = extract_members unicode source language symbol start_line root in
    record {
      signature = signature_line source start_line;
      outline = members;
      top_methods =
          if ltb_ℤ (pos outline_method_threshold) (body_lines start_line end_line)
          then select_and_expand_top_methods unicode source [] budget members
          else [];
      strategy = str "signature_plus_outline";
    }

unfoldable pub outline_class_definition :
    Unicode → Text → Text → Text → ℕ → ℕ → ℤ → Option Node → ClassView
unfolding outlined extract_signature
outline_class_definition unicode source language symbol start_line end_line budget root =
    if leb_ℤ (body_lines start_line end_line) budget
    then record {
      signature = extract_signature source start_line;
      outline = [];
      top_methods = [];
      strategy = str "full_body";
    }
    else outlined unicode source language symbol start_line end_line budget root
