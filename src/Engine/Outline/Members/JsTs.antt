-- ===== src/Engine/Outline/Members/JsTs.antt =====
-- The members of a class in JavaScript and TypeScript: pkg/engine/outliner.go.
use codesight.Prelude.{◌||◌, List, [], ◌∷◌, if◌then◌else◌}
use codesight.Text.{Text, str, eqt, has_prefix}
use codesight.Text.FilePath.{is_empty}
use codesight.Engine.{OutlineEntry}
use codesight.Engine.Syntax.{Node, content_or_empty, child_by_field, is_kind}
use codesight.Engine.Outline.Members.{entry_at, collect, name_of, declaration_of, body_of}

module _ (source : Text) where
  unfoldable pub js_ts_visibility : Node → Text
  unfolding has_prefix
  js_ts_visibility n =
      if has_prefix (str "private ") (declaration_of source n)
        || has_prefix (str "#") (declaration_of source n)
      then str "private"
      else if has_prefix (str "protected ") (declaration_of source n)
      then str "protected"
      else str "public"

  abbrev property_name : Node → Text
  property_name n =
      let property = content_or_empty source (child_by_field (str "property") n) in
      if is_empty property then name_of source n else property

  unfoldable pub js_ts_member : Node → List OutlineEntry
  unfolding eqt js_ts_visibility
  js_ts_member n =
      if is_kind (str "method_definition") n
      then entry_at n (name_of source n)
          (if eqt (name_of source n) (str "constructor") then str "constructor" else str "method")
          (declaration_of source n) (js_ts_visibility n)
        ∷ []
      else if is_kind (str "field_definition") n || is_kind (str "public_field_definition") n
      then entry_at n (property_name n) (str "field") (declaration_of source n) (js_ts_visibility n)
        ∷ []
      else []

  unfoldable pub js_ts_members : Node → List OutlineEntry
  unfolding js_ts_member
  js_ts_members class_node = collect js_ts_member (body_of source class_node)
