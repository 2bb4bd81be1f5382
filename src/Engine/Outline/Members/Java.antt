-- ===== src/Engine/Outline/Members/Java.antt =====
-- The members of a class in Java: pkg/engine/outliner.go.
use codesight.Prelude.{Bool, ◌&&◌, ◌||◌, List, [], ◌∷◌, if◌then◌else◌, none, some}
use codesight.Text.{Text, str, eqt, contains}
use codesight.Engine.{OutlineEntry}
use codesight.Engine.Syntax.{
  Node, children, content, child_by_field, named_children, is_kind, all_of,
}
use codesight.Engine.Outline.Members.{entry_at, collect, name_of, declaration_of, body_of}

module _ (source : Text) where
  unfoldable pub java_visibility_in : List Node → Text
  unfolding eqt contains
  java_visibility_in [] = []
  java_visibility_in (n ∷ ns) =
      if is_kind (str "modifiers") n && contains (str "public") (content source n)
      then str "public"
      else if is_kind (str "modifiers") n && contains (str "private") (content source n)
      then str "private"
      else if is_kind (str "modifiers") n && contains (str "protected") (content source n)
      then str "protected"
      else java_visibility_in ns

  abbrev java_visibility : Node → Text
  java_visibility n = java_visibility_in (all_of (children n))

  -- The name of the first declarator that has one.
  unfoldable pub java_field_name_in : List Node → Text
  unfolding eqt
  java_field_name_in [] = []
  java_field_name_in (n ∷ ns) =
      if is_kind (str "variable_declarator") n
      then elim (child_by_field (str "name") n) [
        | none ↦ java_field_name_in ns
        | some name ↦ content source name
      ]
      else java_field_name_in ns

  abbrev is_type_declaration : Node → Bool
  is_type_declaration n =
      is_kind (str "class_declaration") n
      || is_kind (str "interface_declaration") n
      || is_kind (str "enum_declaration") n

  abbrev java_entry : Node → Text → Text → List OutlineEntry
  java_entry n name entry_kind =
      entry_at n name entry_kind (declaration_of source n) (java_visibility n) ∷ []

  unfoldable pub java_member : Node → List OutlineEntry
  unfolding eqt java_visibility_in java_field_name_in
  java_member n =
      if is_kind (str "method_declaration") n
      then java_entry n (name_of source n) (str "method")
      else if is_kind (str "constructor_declaration") n
      then java_entry n (name_of source n) (str "constructor")
      else if is_kind (str "field_declaration") n
      then java_entry n (java_field_name_in (named_children n)) (str "field")
      else if is_type_declaration n
      then java_entry n (name_of source n) (str "nested_type")
      else []

  unfoldable pub java_members : Node → List OutlineEntry
  unfolding java_member
  java_members class_node = collect java_member (body_of source class_node)
