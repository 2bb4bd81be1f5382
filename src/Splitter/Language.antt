-- ===== src/Splitter/Language.antt =====
-- pkg/splitter/treesitter.go: the language of a file by its extension, and the description of a chunk.
use codesight.Prelude.{List, [], ◌∷◌, ◌++◌, map, any, length, take, ltb, if◌then◌else◌}
use codesight.Text.{Text, str, eqt, trim_space}
use codesight.Text.FilePath.{until, is_empty}
use codesight.Text.Unicode.{Unicode}
use codesight.Splitter.{Chunk}

-- The cases of the switch, each with its extensions.
abbrev pub languages : List (Text × List Text)
languages =
    (str "go", map str (".go" ∷ []))
    ∷ (str "typescript", map str (".ts" ∷ []))
    ∷ (str "tsx", map str (".tsx" ∷ []))
    ∷ (str "javascript", map str (".js" ∷ []))
    ∷ (str "jsx", map str (".jsx" ∷ []))
    ∷ (str "python", map str (".py" ∷ []))
    ∷ (str "java", map str (".java" ∷ []))
    ∷ (str "rust", map str (".rs" ∷ []))
    ∷ (str "c", map str (".c" ∷ ".h" ∷ []))
    ∷ (str "cpp", map str (".cpp" ∷ ".cc" ∷ ".cxx" ∷ ".hpp" ∷ ".hxx" ∷ []))
    ∷ (str "ruby", map str (".rb" ∷ []))
    ∷ (str "php", map str (".php" ∷ []))
    ∷ (str "csharp", map str (".cs" ∷ []))
    ∷ (str "swift", map str (".swift" ∷ []))
    ∷ (str "kotlin", map str (".kt" ∷ ".kts" ∷ []))
    ∷ (str "scala", map str (".scala" ∷ []))
    ∷ (str "shell", map str (".sh" ∷ ".bash" ∷ []))
    ∷ (str "yaml", map str (".yaml" ∷ ".yml" ∷ []))
    ∷ (str "json", map str (".json" ∷ []))
    ∷ (str "markdown", map str (".md" ∷ []))
    ∷ (str "sql", map str (".sql" ∷ []))
    ∷ []

unfoldable pub language_in : List (Text × List Text) → Text → Text
unfolding eqt
language_in [] ext = []
language_in ((language, exts) ∷ rest) ext =
    let later = language_in rest ext in if any (eqt ext) exts then language else later

unfoldable pub language_from_extension : Unicode → Text → Text
unfolding language_in
language_from_extension unicode ext = language_in languages (unicode.to_lower ext)

abbrev shortened : Text → Text
shortened line = if ltb 120 (length line) then take 120 line ++ str "..." else line

unfoldable pub describe_chunk : Chunk → Text
unfolding trim_space
describe_chunk chunk =
    (if is_empty chunk.node_type then str "block" else chunk.node_type)
    ++ (str " — " ++ shortened (trim_space (until b'\n' chunk.content)))
