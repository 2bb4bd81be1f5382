-- ===== src/Engine/Router.antt =====
-- pkg/engine/router.go: which kind of query a text is. On Unix `filepath.Separator` is `/`.
use codesight.Prelude.{
  ℕ, ◌≡◌, ◌≢◌, ◌↔◌, ap, refl, Bool, true, false, not, ◌&&◌, ◌||◌, List, [], ◌∷◌, arith, ltb, ◌==◌,
  if◌then◌else◌, length, any, Option, none, some, ◌⊎◌, map,
}
use codesight.Text.{Text, str, eqt, trim_space, has_prefix, has_byte, split}
use codesight.Text.Trim.{trim_space_idem}
use codesight.Text.FilePath.{ext, slash, is_empty}
use codesight.Text.Unicode.{Unicode, runes}

pub data QueryIntent : Type 0 where
  intent_symbol intent_path intent_text intent_ast : QueryIntent

abbrev pub intent_name : QueryIntent → Text
intent_name intent_symbol = str "symbol"
intent_name intent_path = str "path"
intent_name intent_text = str "text"
intent_name intent_ast = str "ast"

abbrev pub known_extensions : List Text
known_extensions = map str (
    ".go" ∷ ".ts" ∷ ".tsx" ∷ ".js" ∷ ".jsx" ∷ ".py" ∷ ".java" ∷ ".rs" ∷ ".c" ∷ ".h" ∷ ".cpp" ∷ ".cc"
    ∷ ".hpp" ∷ ".rb" ∷ ".php" ∷ ".cs" ∷ ".swift" ∷ ".kt" ∷ ".scala" ∷ ".sh" ∷ ".sql" ∷ ".yaml"
    ∷ ".yml" ∷ ".json" ∷ ".toml" ∷ ".xml" ∷ ".html" ∷ ".css" ∷ ".md" ∷ [])

-- The intent that a valid `--mode` names. "auto", "" and unknown modes name none.
unfoldable pub override_intent : Text → Option QueryIntent
unfolding eqt
override_intent mode =
    if eqt mode (str "symbol")
    then some intent_symbol
    else if eqt mode (str "path")
    then some intent_path
    else if eqt mode (str "text")
    then some intent_text
    else if eqt mode (str "ast")
    then some intent_ast
    else none

abbrev or_guessed : Option QueryIntent → QueryIntent → QueryIntent
or_guessed none guessed = guessed
or_guessed (some intent) guessed = intent

module _ (u : Unicode) where
  abbrev is_name_rune : ℕ → Bool
  is_name_rune r = u.is_letter r || u.is_digit r || r == b'_'

  abbrev is_name_part : Text → Bool
  is_name_part part =
      let trimmed = trim_space part in
      not (is_empty trimmed)
      && not (any (λ r. not (is_name_rune r)) (runes (length trimmed) trimmed))

  unfoldable pub looks_like_qualified_name : Text → Bool
  unfolding split trim_space runes
  looks_like_qualified_name s =
      let parts = split b'.' s in
      not (ltb (length parts) 2) && not (any (λ part. not (is_name_part part)) parts)

  unfoldable pub has_known_extension : Text → Bool
  unfolding ext eqt
  has_known_extension trimmed =
      not (is_empty (ext trimmed)) && any (eqt (u.to_lower (ext trimmed))) known_extensions

  -- The heuristics, on a trimmed query.
  unfoldable pub classify_trimmed : Text → QueryIntent
  unfolding has_prefix has_byte
  classify_trimmed trimmed =
      if is_empty trimmed
      then intent_text
      else if has_byte slash trimmed
      then intent_path
      else if has_known_extension trimmed
      then intent_path
      else if has_prefix (str "\"") trimmed || has_prefix (str "'") trimmed
      then intent_text
      else if has_byte b'{' trimmed || has_byte b'}' trimmed
      then intent_ast
      else if has_byte b' ' trimmed && not (looks_like_qualified_name trimmed)
      then intent_text
      else intent_symbol

  unfoldable pub classify : Text → Text → QueryIntent
  unfolding classify_trimmed
  classify query mode_override =
      let guessed = classify_trimmed (trim_space query) in
      or_guessed (override_intent mode_override) guessed

  -- White space around a query never changes its intent.
  pub classify-trim_space :
      (query mode : Text) → classify (trim_space query) mode ≡ classify query mode
  unfolding classify
  classify-trim_space query mode =
      ap (λ t. or_guessed (override_intent mode) (classify_trimmed t)) (trim_space_idem query)

  -- The mode names the intent, or names none and the trimmed query is not empty, is no path (no
  -- slash, no known extension), is not quoted, has no brace, and is one word or a qualified name.
  abbrev pub IsSymbolQuery : Text → Text → Type 0
  IsSymbolQuery query mode =
      (override_intent mode ≡ some intent_symbol)
      ⊎ ((override_intent mode ≡ none)
          × (trim_space query ≢ [])
          × (has_byte slash (trim_space query) ≡ false)
          × (has_known_extension (trim_space query) ≡ false)
          × (has_prefix (str "\"") (trim_space query) ≡ false)
          × (has_prefix (str "'") (trim_space query) ≡ false)
          × (has_byte b'{' (trim_space query) ≡ false)
          × (has_byte b'}' (trim_space query) ≡ false)
          × ((has_byte b' ' (trim_space query) ≡ false)
              ⊎ (looks_like_qualified_name (trim_space query) ≡ true)))

  -- A query is a symbol exactly where a valid mode says so, or no valid mode is given and the trimmed
  -- query is not empty, is no path (no slash, no known extension), is not quoted, has no brace, and
  -- is one word or a qualified name.
  pub classify_symbol_iff :
      (query mode : Text) → (classify query mode ≡ intent_symbol) ↔ IsSymbolQuery query mode
  unfolding classify
  classify_symbol_iff query mode = (ground arith, ground arith)

  -- A mode that names an intent decides alone, whatever the query.
  pub classify_mode :
      (query : Text) (intent : QueryIntent) → classify query (intent_name intent) ≡ intent
  unfolding classify override_intent
  classify_mode query intent_symbol = refl
  classify_mode query intent_path = refl
  classify_mode query intent_text = refl
  classify_mode query intent_ast = refl
