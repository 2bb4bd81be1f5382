-- ===== src/Engine/Outline/Members/Python.antt =====
-- The members of a class in Python: pkg/engine/outliner.go.
use codesight.Prelude.{Bool, not, ◌&&◌, ◌||◌, List, [], ◌∷◌, if◌then◌else◌}
use codesight.Text.{Text, str, eqt, has_prefix, has_suffix, has_byte, trim_space}
use codesight.Text.FilePath.{until}
use codesight.Engine.{OutlineEntry}
use codesight.Engine.Syntax.{Node, content, named_children, is_kind}
use codesight.Engine.Outline.Members.{entry_at, collect, name_of, declaration_of, body_of}

module _ (source : Text) where
  unfoldable pub python_visibility : Text → Text
  unfolding has_prefix has_suffix
  python_visibility name =
      if has_prefix (str "__") name && not (has_suffix (str "__") name)
      then str "private"
      else if has_prefix (str "_") name
      then str "private"
      else str "public"

  abbrev pub is_python_function : Node → Bool
  is_python_function n =
      is_kind (str "function_definition") n || is_kind (str "async_function_definition") n

  -- Of "a: int = 1", the text before "=" and then before ":", trimmed.
  abbrev assigned_name : Text → Text
  assigned_name content =
      let before = trim_space (until b'=' content) in
      if has_byte b':' before then trim_space (until b':' before) else before

  -- A function behind decorators has the lines of the whole definition.
  abbrev pub decorated : Node → Node → List OutlineEntry
  decorated outer inner =
      if is_python_function inner
      then entry_at outer (name_of source inner) (str "method") (declaration_of source inner)
          (python_visibility (name_of source inner))
        ∷ []
      else []

  unfoldable pub python_member : Node → List OutlineEntry
  unfolding eqt python_visibility has_byte trim_space
  python_member n =
      if is_python_function n
      then entry_at n (name_of source n)
          (if eqt (name_of source n) (str "__init__") then str "constructor" else str "method")
          (declaration_of source n) (python_visibility (name_of source n))
        ∷ []
      else if is_kind (str "expression_statement") n
      then (if has_byte b'=' (declaration_of source n)
          then entry_at n (assigned_name (declaration_of source n)) (str "field")
              (declaration_of source n)
              (python_visibility (assigned_name (declaration_of source n)))
            ∷ []
          else [])
      else if is_kind (str "decorated_definition") n
      then collect (decorated n) (named_children n)
      else []

  unfoldable pub python_members : Node → List OutlineEntry
  unfolding python_member
  python_members class_node = collect python_member (body_of source class_node)
