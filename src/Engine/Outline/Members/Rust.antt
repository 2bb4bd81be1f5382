-- ===== src/Engine/Outline/Members/Rust.antt =====
-- The members of a class in Rust: pkg/engine/outliner.go.
use codesight.Prelude.{Bool, false, ◌&&◌, List, [], ◌∷◌, ◌++◌, if◌then◌else◌, none, some}
use codesight.Text.{Text, str, eqt, has_prefix, trim_space}
use codesight.Engine.{OutlineEntry}
use codesight.Engine.Syntax.{Node, content, child_by_field, named_children, is_kind, first_of_kind}
use codesight.Engine.Outline.Members.{entry_at, collect, named_children_of, name_of, declaration_of}

module _ (source : Text) where
  abbrev rust_visibility : Node → Text
  rust_visibility n =
      if has_prefix (str "pub") (trim_space (content source n)) then str "public" else str "private"

  unfoldable pub rust_field : Node → List OutlineEntry
  unfolding eqt has_prefix trim_space
  rust_field n =
      if is_kind (str "field_declaration") n
      then entry_at n (name_of source n) (str "field") (declaration_of source n) (rust_visibility n)
        ∷ []
      else []

  unfoldable pub rust_function : Node → List OutlineEntry
  unfolding eqt has_prefix trim_space
  rust_function n =
      if is_kind (str "function_item") n
      then entry_at n (name_of source n)
          (if eqt (name_of source n) (str "new") then str "constructor" else str "method")
          (declaration_of source n) (rust_visibility n)
        ∷ []
      else []

  -- Is the node an impl block of the type?
  unfoldable pub is_impl_of : Text → Node → Bool
  unfolding eqt
  is_impl_of symbol n = is_kind (str "impl_item") n && elim (child_by_field (str "type") n) [
    | none ↦ false
    | some type_node ↦ eqt (content source type_node) symbol
  ]

  unfoldable pub rust_impl : Text → Node → List OutlineEntry
  unfolding is_impl_of rust_function first_of_kind
  rust_impl symbol n =
      if is_impl_of symbol n
      then collect rust_function
          (named_children_of (first_of_kind (str "declaration_list") (named_children n)))
      else []

  unfoldable pub rust_members : Text → Node → Node → List OutlineEntry
  unfolding rust_field rust_impl first_of_kind
  rust_members symbol root class_node =
      collect rust_field (
        named_children_of
          (first_of_kind (str "field_declaration_list") (named_children class_node)))
      ++ collect (rust_impl symbol) (named_children root)
