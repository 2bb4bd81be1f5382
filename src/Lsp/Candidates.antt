-- ===== src/Lsp/Candidates.antt =====
-- pkg/lsp/refs.go, callers.go: the definitions that a symbol may mean.
use codesight.Prelude.{Bool, false, not, ◌&&◌, ◌||◌, List, [], ◌∷◌, ◌++◌, if◌then◌else◌}
use codesight.Prelude.Int.{ℤ, ltb_ℤ, eqb_ℤ, add_one}
use codesight.Prelude.Sort.{sort}
use codesight.Text.{Text, str, eqt, less_text, has_prefix}
use codesight.Text.FilePath.{is_empty, slash}
use codesight.Text.Result.{Result, ok, and_then}
use codesight.Ignore.{Matcher, matches_path}
use codesight.Lsp.{
  SymbolInformation, LspHost, document_uri_to_path, relative_path, symbol_kind_label, kind_class,
  kind_method, kind_enum, kind_interface, kind_function, kind_constant, kind_struct,
  kind_type_parameter,
}
use codesight.Lsp.Order.{by}
use codesight.Lsp.Names.{callers_symbol_matches, is_call_hierarchy_symbol_kind}
use codesight.Lsp.Formatter.{SymbolCandidate}

pub record ResolvedSymbol : Type 0 where
  pub info : SymbolInformation
  pub path : Text
  pub line : ℤ
  pub kind : Text

unfoldable pub before_resolved : ResolvedSymbol → ResolvedSymbol → Bool
unfolding eqt less_text
before_resolved a b =
    by (eqt a.path b.path) (less_text a.path b.path)
      (by (eqb_ℤ a.line b.line) (ltb_ℤ a.line b.line) (less_text a.kind b.kind))

abbrev pub symbol_candidate : ResolvedSymbol → SymbolCandidate
symbol_candidate s = record { path = s.path; line = s.line; kind = s.kind }

unfoldable pub is_name_match : Text → Text → Bool
unfolding eqt has_prefix
is_name_match match_name search_name =
    eqt match_name search_name || has_prefix (search_name ++ str "(") match_name

unfoldable pub kind_matches : Text → ℤ → Bool
unfolding eqt
kind_matches kind symbol_kind =
    let is = λ (k : ℤ). eqb_ℤ symbol_kind k in
    if eqt kind (str "function")
    then is kind_function
    else if eqt kind (str "method")
    then is kind_method
    else if eqt kind (str "class")
    then is kind_class
    else if eqt kind (str "interface")
    then is kind_interface
    else if eqt kind (str "type")
    then is kind_class
      || is kind_interface
      || is kind_enum
      || is kind_struct
      || is kind_type_parameter
    else if eqt kind (str "constant")
    then is kind_constant
    else false

-- Is the path in the scope? The empty scope has all of them.
unfoldable pub in_filter : Text → Text → Bool
unfolding eqt has_prefix
in_filter filter_path path =
    is_empty filter_path || eqt path filter_path || has_prefix (filter_path ++ slash ∷ []) path

module _ (host : LspHost) (workspace_root filter_path : Text) (matcher : Matcher) where
  abbrev pub resolved_at : SymbolInformation → Text → ResolvedSymbol
  resolved_at symbol path = record {
    info = symbol;
    path = relative_path host workspace_root path;
    line = add_one symbol.location.range.start.line;
    kind = symbol_kind_label symbol.kind;
  }

  -- The loop over the symbols; `wanted` is the test on name and kind.
  unfoldable pub resolve_wanted :
      (SymbolInformation → Bool) → List SymbolInformation → Result (List ResolvedSymbol)
  unfolding and_then document_uri_to_path relative_path matches_path in_filter
  resolve_wanted wanted [] = ok []
  resolve_wanted wanted (symbol ∷ symbols) =
      let rest = resolve_wanted wanted symbols in
      if wanted symbol
      then and_then (document_uri_to_path host symbol.location.uri) (λ path.
        if matches_path host.paths matcher path || not (in_filter filter_path path)
        then rest
        else and_then rest (λ found. ok (resolved_at symbol path ∷ found)))
      else rest

  abbrev pub wanted_reference : Text → Text → SymbolInformation → Bool
  wanted_reference symbol kind s =
      is_name_match s.name symbol && (is_empty kind || kind_matches kind s.kind)

  unfoldable pub resolve_candidates :
      List SymbolInformation → Text → Text → Result (List ResolvedSymbol)
  unfolding and_then resolve_wanted is_name_match kind_matches sort before_resolved
  resolve_candidates symbols symbol kind =
      and_then (resolve_wanted (wanted_reference symbol kind) symbols)
        (λ found. ok (sort before_resolved found))

  abbrev pub wanted_caller : Text → SymbolInformation → Bool
  wanted_caller symbol s = callers_symbol_matches s symbol && is_call_hierarchy_symbol_kind s.kind

  unfoldable pub resolve_callers_candidates :
      List SymbolInformation → Text → Result (List ResolvedSymbol)
  unfolding and_then resolve_wanted callers_symbol_matches sort before_resolved
  resolve_callers_candidates symbols symbol =
      and_then (resolve_wanted (wanted_caller symbol) symbols)
        (λ found. ok (sort before_resolved found))
