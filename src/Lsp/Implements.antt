-- ===== src/Lsp/Implements.antt =====
-- pkg/lsp/implements.go: the implementations of a type, by the type hierarchy of the language server or,
-- where it has none, by its request for implementations.
pub mod Lines
mod Examples
use codesight.Prelude.{
  ℕ, suc, ◌+◌, ◌≡◌, Bool, true, false, not, ◌||◌, List, [], ◌∷◌, ◌++◌, map, length, ◌==◌, ltb,
  if◌then◌else◌, Option, none, some,
}
use codesight.Prelude.Int.{ℤ, pos, ltb_ℤ, eqb_ℤ, add_one}
use codesight.Prelude.Sort.{sort}
use codesight.Text.{Text, str, eqt, less_text, trim_space, trim_suffix, join, decimal}
use codesight.Text.FilePath.{is_empty, base, ext}
use codesight.Text.Result.{Result, ok, error, and_then, wrap}
use codesight.Ignore.{Matcher, matches_path, elem}
use codesight.Lsp.{
  Position, Location, SymbolInformation, CallHierarchyItem, LspHost, resolve_workspace_root,
  new_workspace_ignore_matcher, document_uri_to_path, relative_path,
}
use codesight.Lsp.Order.{by}
use codesight.Lsp.Distinct.{distinct_by}
use codesight.Lsp.Formatter.{format_ambiguous_symbol_error}
use codesight.Lsp.Candidates.{ResolvedSymbol, symbol_candidate, resolve_candidates}
use codesight.Lsp.Callers.{call_hierarchy_position}
use codesight.Lsp.Callers.Find.{before_item, missing_lsp_text}

pub record ImplementsOptions : Type 0 where
  pub workspace_root : Text
  pub filter_path : Text
  pub symbol : Text
  pub lsp_binary : Text
  pub lsp_install : Text

pub record ImplementationLine : Type 0 where
  pub name : Text
  pub path : Text
  pub line : ℤ

-- The answers of a language server on types. An item of the type hierarchy has the fields of one of the
-- call hierarchy.
pub record TypeClient : Type 0 where
  pub workspace_symbol : Text → Result (List SymbolInformation)
  pub prepare_type_hierarchy : Text → Position → Result (List CallHierarchyItem)
  pub subtypes : CallHierarchyItem → Result (List CallHierarchyItem)
  pub implementation : Text → Position → Result (List Location)

-- By path, name and line.
unfoldable pub before_implementation : ImplementationLine → ImplementationLine → Bool
unfolding eqt less_text
before_implementation a b =
    by (eqt a.path b.path) (less_text a.path b.path)
      (by (eqt a.name b.name) (less_text a.name b.name) (ltb_ℤ a.line b.line))

abbrev pub implementation_key : ImplementationLine → Text
implementation_key i = i.path ++ 0 ∷ i.name

-- In order, and the first of each name and path.
unfoldable pub arranged_implementations : List ImplementationLine → List ImplementationLine
unfolding sort before_implementation distinct_by
arranged_implementations lines =
    distinct_by implementation_key [] (sort before_implementation lines)

abbrev pub first_of : List CallHierarchyItem → Option CallHierarchyItem
first_of [] = none
first_of (item ∷ items) = some item

unfoldable pub prepare_type : TypeClient → SymbolInformation → Result (Option CallHierarchyItem)
unfolding and_then sort before_item
prepare_type client symbol =
    and_then
      (wrap (str "textDocument/prepareTypeHierarchy request failed: ")
        (client.prepare_type_hierarchy symbol.location.uri symbol.location.range.start))
      (λ items. ok (first_of (sort before_item items)))

abbrev implementation_text : ImplementationLine → Text
implementation_text i = i.name ++ (str " (" ++ (i.path ++ str ")"))

unfoldable pub format_implements_output : List ImplementationLine → Text
unfolding join decimal
format_implements_output implementations = join (str "\n") (
    map implementation_text implementations
    ++ (decimal (length implementations) ++ str " implementations") ∷ [])

module _ (host : LspHost) (root : Text) (matcher : Matcher) where
  abbrev subtype_line : CallHierarchyItem → Text → ImplementationLine
  subtype_line item path = record {
    name = item.name;
    path = relative_path host root path;
    line = pos (suc (call_hierarchy_position item).0);
  }

  -- The loop over the subtypes.
  unfoldable pub subtype_lines : List CallHierarchyItem → Result (List ImplementationLine)
  unfolding and_then document_uri_to_path matches_path relative_path
  subtype_lines [] = ok []
  subtype_lines (item ∷ items) = and_then (document_uri_to_path host item.uri) (λ path.
      and_then (subtype_lines items) (λ rest.
        ok (if matches_path host.paths matcher path then rest else subtype_line item path ∷ rest)))

  unfoldable pub to_implementation_lines : List CallHierarchyItem → Result (List ImplementationLine)
  unfolding and_then subtype_lines arranged_implementations
  to_implementation_lines subtypes =
      and_then (subtype_lines subtypes) (λ lines. ok (arranged_implementations lines))

  -- The name of a file without its extension.
  abbrev pub stem : Text → Text
  stem path =
      if is_empty (ext (base path)) then base path else trim_suffix (ext (base path)) (base path)

  abbrev location_line : Location → Text → ImplementationLine
  location_line location path = record {
    name = stem path;
    path = relative_path host root path;
    line = add_one location.range.start.line;
  }

  -- The loop over the locations.
  unfoldable pub location_lines : List Location → Result (List ImplementationLine)
  unfolding and_then document_uri_to_path matches_path relative_path base ext trim_suffix
  location_lines [] = ok []
  location_lines (location ∷ locations) = and_then (document_uri_to_path host location.uri) (λ path.
      and_then (location_lines locations) (λ rest. ok (
        if matches_path host.paths matcher path then rest else location_line location path ∷ rest)))

  unfoldable pub locations_to_implementation_lines :
      List Location → Result (List ImplementationLine)
  unfolding and_then location_lines sort before_implementation
  locations_to_implementation_lines locations =
      and_then (location_lines locations) (λ lines. ok (sort before_implementation lines))

  unfoldable pub by_hierarchy :
      TypeClient → Option CallHierarchyItem → Result (List ImplementationLine)
  unfolding and_then to_implementation_lines
  by_hierarchy client none = ok []
  by_hierarchy client (some item) =
      and_then (wrap (str "typeHierarchy/subtypes request failed: ") (client.subtypes item))
        to_implementation_lines

  -- Where the hierarchy has nothing, the request for implementations is asked; its failure is no error.
  unfoldable pub or_by_request : Result (List Location) → List ImplementationLine → Result Text
  unfolding and_then format_implements_output locations_to_implementation_lines
  or_by_request locations (i ∷ is) = ok (format_implements_output (i ∷ is))
  or_by_request (error message) [] = ok (format_implements_output [])
  or_by_request (ok locations) [] =
      and_then (locations_to_implementation_lines locations)
        (λ lines. ok (format_implements_output lines))

  abbrev of_candidate : TypeClient → Text → List ResolvedSymbol → Result Text
  of_candidate client symbol [] = error (str "symbol not found: " ++ host.quote symbol)
  of_candidate client symbol (candidate ∷ []) =
      and_then (prepare_type client candidate.info) (λ item. and_then (by_hierarchy client item) (
        or_by_request
          (client.implementation candidate.info.location.uri candidate.info.location.range.start)))
  of_candidate client symbol (one ∷ two ∷ more) =
      error (
        format_ambiguous_symbol_error (host.quote symbol) (map symbol_candidate (one ∷ two ∷ more)))

  abbrev of_symbols : TypeClient → Text → Text → List SymbolInformation → Result Text
  of_symbols client filter_path symbol [] = error (
      str "LSP returned no symbols — the language server may not have finished indexing: "
      ++ host.quote symbol)
  of_symbols client filter_path symbol (s ∷ symbols) =
      and_then (resolve_candidates host root filter_path matcher (s ∷ symbols) symbol [])
        (of_candidate client symbol)

  unfoldable pub implementations_of : TypeClient → Text → Text → Result Text
  unfolding and_then resolve_candidates prepare_type by_hierarchy or_by_request
      format_ambiguous_symbol_error
  implementations_of client filter_path symbol =
      and_then (wrap (str "workspace/symbol request failed: ") (client.workspace_symbol symbol))
        (of_symbols client filter_path symbol)

abbrev at_root : LspHost → Option TypeClient → ImplementsOptions → Text → Text → Result Text
at_root host none opts symbol root =
    error (missing_lsp_text (str "cs implements") opts.lsp_binary opts.lsp_install)
at_root host (some client) opts symbol root =
    and_then (new_workspace_ignore_matcher host root)
      (λ matcher. implementations_of host root matcher client opts.filter_path symbol)

-- ImplementsEngine.Find; the client may be missing.
unfoldable pub find_implementations : LspHost → Option TypeClient → ImplementsOptions → Result Text
unfolding trim_space and_then resolve_workspace_root new_workspace_ignore_matcher implementations_of
    missing_lsp_text
find_implementations host client opts =
    let symbol = trim_space opts.symbol in
    if is_empty symbol
    then error (str "symbol is required")
    else and_then (resolve_workspace_root host opts.workspace_root)
        (at_root host client opts symbol)
