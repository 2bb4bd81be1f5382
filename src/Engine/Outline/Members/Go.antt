-- ===== src/Engine/Outline/Members/Go.antt =====
-- The members of a class in Go: pkg/engine/outliner.go.
use codesight.Prelude.{
  Bool, false, not, ◌&&◌, ◌||◌, List, [], ◌∷◌, ◌++◌, if◌then◌else◌, Option, none, some,
}
use codesight.Text.{Text, str, eqt, contains, trim_space}
use codesight.Text.FilePath.{is_empty}
use codesight.Text.Unicode.{Unicode, first_rune}
use codesight.Engine.{OutlineEntry}
use codesight.Engine.Syntax.{
  Node, content, content_or_empty, child_by_field, named_children, is_kind, first_of_kind,
}
use codesight.Engine.Outline.Line.{line_one}
use codesight.Engine.Outline.Members.{entry_at, collect, named_children_of, name_of, declaration_of}

module _ (source : Text) where
  module _ (unicode : Unicode) where
    unfoldable pub go_visibility : Text → Text
    go_visibility [] = []
    go_visibility (c ∷ s) =
        if unicode.is_upper (first_rune c s).0 then str "public" else str "private"

    -- The first line of the node, trimmed.
    abbrev line_of : Node → Text
    line_of n = trim_space (line_one (content source n))

    abbrev field_identifier : Node → Text
    field_identifier n =
        content_or_empty source (first_of_kind (str "field_identifier") (named_children n))

    abbrev pub field_name : Node → Text
    field_name n = if is_empty (field_identifier n) then line_of n else field_identifier n

    abbrev pub method_name : Node → Text
    method_name n = if is_empty (name_of source n) then field_identifier n else name_of source n

    -- An entry without a name is left out.
    unfoldable pub named_entry : Node → Text → Text → List OutlineEntry
    unfolding go_visibility trim_space
    named_entry n name entry_kind =
        if is_empty name
        then []
        else entry_at n name entry_kind (line_of n) (go_visibility name) ∷ []

    unfoldable pub go_member_entry : Node → List OutlineEntry
    unfolding eqt trim_space first_of_kind named_entry
    go_member_entry n =
        if is_kind (str "field_declaration") n
        then named_entry n (field_name n) (str "field")
        else if is_kind (str "method_spec") n || is_kind (str "method_elem") n
        then named_entry n (method_name n) (str "method")
        else []

    -- Is the node a method of the type, by its receiver?
    unfoldable pub has_receiver : Text → Node → Bool
    unfolding eqt contains
    has_receiver type_name n =
        is_kind (str "method_declaration") n && elim (child_by_field (str "receiver") n) [
          | none ↦ false
          | some receiver ↦ contains type_name (content source receiver)
        ]

    unfoldable pub go_method : Text → Node → List OutlineEntry
    unfolding has_receiver go_visibility
    go_method type_name n =
        if has_receiver type_name n && not (is_empty (name_of source n))
        then entry_at n (name_of source n) (str "method") (declaration_of source n)
            (go_visibility (name_of source n))
          ∷ []
        else []

    abbrev pub go_methods_by_receiver : Text → Node → List OutlineEntry
    go_methods_by_receiver type_name root = collect (go_method type_name) (named_children root)

    abbrev pub type_node : Node → Option Node → Node
    type_node class_node none = class_node
    type_node class_node (some n) = n

    abbrev pub go_type_members : Node → List OutlineEntry
    go_type_members n =
        if is_kind (str "struct_type") n
        then collect go_member_entry
            (named_children_of (first_of_kind (str "field_declaration_list") (named_children n)))
        else if is_kind (str "interface_type") n
        then collect go_member_entry (named_children n)
        else []

  unfoldable pub go_members : Unicode → Text → Node → Node → List OutlineEntry
  unfolding go_member_entry go_method eqt
  go_members unicode symbol root class_node =
      go_type_members unicode
        (type_node unicode class_node (child_by_field (str "type") class_node))
      ++ go_methods_by_receiver unicode symbol root
