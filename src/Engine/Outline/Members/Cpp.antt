-- ===== src/Engine/Outline/Members/Cpp.antt =====
-- The members of a class in C++: pkg/engine/outliner.go.
use codesight.Prelude.{◌||◌, List, [], ◌∷◌, ◌++◌, if◌then◌else◌, Option, none, some}
use codesight.Text.{Text, str, eqt, trim_space, trim_suffix}
use codesight.Engine.{OutlineEntry}
use codesight.Engine.Syntax.{
  Node, content, content_or_empty, child_by_field, named_children, is_kind, first_of_kind,
}
use codesight.Engine.Outline.Members.{entry_at, named_children_of, declaration_of}

module _ (source : Text) where
  abbrev cpp_declarator : Option Node → Option Node → Text
  cpp_declarator none inner = []
  cpp_declarator (some n) none = content source n
  cpp_declarator (some n) (some inner) = content source inner

  abbrev inner_declarator : Option Node → Option Node
  inner_declarator none = none
  inner_declarator (some n) = child_by_field (str "declarator") n

  abbrev cpp_function_name : Node → Text
  cpp_function_name n =
      cpp_declarator (child_by_field (str "declarator") n)
        (inner_declarator (child_by_field (str "declarator") n))

  abbrev cpp_declared_name : Node → Text
  cpp_declared_name n = content_or_empty source (child_by_field (str "declarator") n)

  -- The visibility that an access specifier sets for the members behind it.
  unfoldable pub cpp_visibility : Text → Node → Text
  unfolding eqt trim_space trim_suffix
  cpp_visibility current n =
      if is_kind (str "access_specifier") n
      then trim_space (trim_suffix (str ":") (trim_space (content source n)))
      else current

  unfoldable pub cpp_member : Text → Node → List OutlineEntry
  unfolding eqt
  cpp_member visibility n =
      if is_kind (str "function_definition") n
      then entry_at n (cpp_function_name n) (str "method") (declaration_of source n) visibility ∷ []
      else if is_kind (str "declaration") n || is_kind (str "field_declaration") n
      then entry_at n (cpp_declared_name n) (str "field") (declaration_of source n) visibility ∷ []
      else []

  -- The loop over the body, which carries the current visibility.
  unfoldable pub cpp_members_from : Text → List Node → List OutlineEntry
  unfolding cpp_visibility cpp_member
  cpp_members_from visibility [] = []
  cpp_members_from visibility (n ∷ ns) =
      cpp_member visibility n ++ cpp_members_from (cpp_visibility visibility n) ns

  unfoldable pub cpp_members : Node → List OutlineEntry
  unfolding cpp_members_from first_of_kind
  cpp_members class_node =
      cpp_members_from (str "private") (
        named_children_of
          (first_of_kind (str "field_declaration_list") (named_children class_node)))
