-- ===== src/Lsp/Names.antt =====
-- pkg/lsp/callers.go: which symbols of the workspace a name asks for. Java-style signatures and Go
-- receivers are taken off the names before they are compared.
use codesight.Prelude.{
  ℕ, zero, suc, ◌-◌, Bool, true, false, not, ◌&&◌, ◌||◌, [], ◌∷◌, ◌++◌, reverse, length, take, drop,
  if◌then◌else◌, Option, none, some,
}
use codesight.Prelude.Int.{ℤ, eqb_ℤ}
use codesight.Text.{Text, str, eqt, has_prefix, has_suffix, has_byte, trim_space, trim_prefix, cut}
use codesight.Text.FilePath.{until, is_empty}
use codesight.Lsp.{SymbolInformation, kind_function, kind_method, kind_constructor}

-- The texts before and behind the last byte `b` (strings.LastIndex).
abbrev cut_last : ℕ → Text → Option (Text × Text)
cut_last b s = elim (cut b (reverse s)) [
  | none ↦ none
  | some (after, before) ↦ some (reverse before, reverse after)
]

-- The signature is looked for behind the last dot.
abbrev without_signature : Text → Option (Text × Text) → Text
without_signature name none = until b'(' name
without_signature name (some (container, base)) = container ++ b'.' ∷ until b'(' base

unfoldable pub symbol_lookup_trimmed_name : Text → Text
unfolding trim_space cut
symbol_lookup_trimmed_name name =
    without_signature (trim_space name) (cut_last b'.' (trim_space name))

abbrev last_part : Text → Option (Text × Text) → Text
last_part name none = name
last_part name (some (container, base)) = base

abbrev first_part : Option (Text × Text) → Text
first_part none = []
first_part (some (container, base)) = container

unfoldable pub symbol_lookup_base_name : Text → Text
unfolding symbol_lookup_trimmed_name cut
symbol_lookup_base_name name =
    last_part (symbol_lookup_trimmed_name name) (cut_last b'.' (symbol_lookup_trimmed_name name))

unfoldable pub symbol_lookup_container : Text → Text
unfolding symbol_lookup_trimmed_name cut
symbol_lookup_container name = first_part (cut_last b'.' (symbol_lookup_trimmed_name name))

-- Each round takes two bytes off, so the length is fuel enough.
unfoldable pub strip_parens : ℕ → Text → Text
unfolding has_prefix has_suffix trim_space
strip_parens zero s = s
strip_parens (suc f) s =
    let rest = strip_parens f (trim_space (take (length s - 2) (drop 1 s))) in
    if has_prefix (str "(") s && has_suffix (str ")") s then rest else s

abbrev strip_all : Text → Text
strip_all s = strip_parens (length s) s

unfoldable pub normalize_symbol_lookup_container : Text → Text
unfolding strip_parens trim_space trim_prefix
normalize_symbol_lookup_container name =
    strip_all (trim_prefix (str "*") (strip_all (trim_space name)))

abbrev same_symbol_lookup_container : Text → Text → Bool
same_symbol_lookup_container left right =
    eqt (normalize_symbol_lookup_container left) (normalize_symbol_lookup_container right)

-- The tests on names whose signatures are taken off.
unfoldable pub symbol_lookup_full_matches : Text → Text → Bool
unfolding eqt has_byte symbol_lookup_base_name symbol_lookup_container
    normalize_symbol_lookup_container
symbol_lookup_full_matches match_full search_full =
    if is_empty match_full || is_empty search_full
    then false
    else if eqt match_full search_full
    then true
    else if is_empty (symbol_lookup_base_name match_full)
        || is_empty (symbol_lookup_base_name search_full)
        || not (eqt (symbol_lookup_base_name match_full) (symbol_lookup_base_name search_full))
    then false
    else if not (has_byte b'.' search_full)
    then true
    else same_symbol_lookup_container (symbol_lookup_container match_full)
        (symbol_lookup_container search_full)

unfoldable pub symbol_lookup_name_matches : Text → Text → Bool
unfolding symbol_lookup_full_matches symbol_lookup_trimmed_name
symbol_lookup_name_matches match_name search_name =
    symbol_lookup_full_matches (symbol_lookup_trimmed_name match_name)
      (symbol_lookup_trimmed_name search_name)

unfoldable pub callers_symbol_matches : SymbolInformation → Text → Bool
unfolding symbol_lookup_name_matches symbol_lookup_base_name trim_space
callers_symbol_matches symbol search =
    if symbol_lookup_name_matches symbol.name search
    then true
    else if is_empty (trim_space symbol.container_name)
        || is_empty (symbol_lookup_base_name symbol.name)
    then false
    else symbol_lookup_name_matches
        (trim_space symbol.container_name ++ b'.' ∷ symbol_lookup_base_name symbol.name) search

abbrev pub is_call_hierarchy_symbol_kind : ℤ → Bool
is_call_hierarchy_symbol_kind kind =
    eqb_ℤ kind kind_function || eqb_ℤ kind kind_method || eqb_ℤ kind kind_constructor
