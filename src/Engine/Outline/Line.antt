-- ===== src/Engine/Outline/Line.antt =====
-- The lines of a declaration: helpers of pkg/engine/outliner.go.
use codesight.Prelude.{
  ℕ, ◌-◌, Bool, ◌||◌, List, [], ◌∷◌, drop, get_elem?, if◌then◌else◌, Option, none, some,
}
use codesight.Text.{Text, str, has_prefix, trim_space, split}
use codesight.Text.FilePath.{until, is_empty}

abbrev pub newline : ℕ
newline = 10

unfoldable pub is_annotation_line : Text → Bool
unfolding has_prefix
is_annotation_line line = has_prefix (str "@") line || has_prefix (str "#[") line

-- firstLine: the text before the first line break.
abbrev pub line_one : Text → Text
line_one s = until newline s

-- The first line, trimmed, that is neither blank nor an annotation.
unfoldable pub first_declaration : List Text → Option Text
unfolding trim_space is_annotation_line
first_declaration [] = none
first_declaration (line ∷ lines) =
    if is_empty (trim_space line)
    then first_declaration lines
    else if is_annotation_line (trim_space line)
    then first_declaration lines
    else some (trim_space line)

-- declarationLine, of the content of a node
unfoldable pub declaration_line : Text → Text
unfolding first_declaration split trim_space
declaration_line content = elim (first_declaration (split newline content)) [
  | none ↦ trim_space (line_one content)
  | some line ↦ line
]

abbrev trimmed_or_empty : Option Text → Text
trimmed_or_empty none = []
trimmed_or_empty (some line) = trim_space line

-- `start_line` is at least 1.
unfoldable pub signature_line : Text → ℕ → Text
unfolding first_declaration split trim_space
signature_line source start_line =
    elim (first_declaration (drop (start_line - 1) (split newline source))) [
      | none ↦ trimmed_or_empty (get_elem? (split newline source) (start_line - 1))
      | some line ↦ line
    ]
