-- ===== src/Lsp/Callers/Find.antt =====
-- pkg/lsp/callers.go: the whole query for the callers of a symbol, from its options to its text.
use codesight.Prelude.{
  ℕ, zero, suc, Bool, List, [], ◌∷◌, ◌++◌, map, ◌==◌, ltb, if◌then◌else◌, Option, none, some,
}
use codesight.Prelude.Int.{ℤ, pos, leb_ℤ, pos_part}
use codesight.Prelude.Sort.{sort}
use codesight.Text.{Text, str, eqt, less_text, trim_space, join, decimal}
use codesight.Text.FilePath.{is_empty}
use codesight.Text.Result.{Result, ok, error, and_then, wrap}
use codesight.Ignore.{Matcher}
use codesight.Lsp.{
  SymbolInformation, CallHierarchyItem, LspClient, LspHost, decimal_ℤ, resolve_workspace_root,
  new_workspace_ignore_matcher,
}
use codesight.Lsp.Order.{by}
use codesight.Lsp.Formatter.{format_ambiguous_symbol_error}
use codesight.Lsp.Candidates.{ResolvedSymbol, symbol_candidate, resolve_callers_candidates}
use codesight.Lsp.Callers.{
  CallerOutputLine, Walked, done, failed, out_of_fuel, call_hierarchy_position,
  hierarchy_node_for_item, walk_incoming, walk_fuel, start_walk,
}

pub record CallersOptions : Type 0 where
  pub workspace_root : Text
  pub filter_path : Text
  pub symbol : Text
  pub depth : ℤ
  pub lsp_binary : Text
  pub lsp_install : Text

-- By document, position and name.
unfoldable pub before_item : CallHierarchyItem → CallHierarchyItem → Bool
unfolding eqt less_text
before_item a b =
    let left = call_hierarchy_position a in
    let right = call_hierarchy_position b in
    by (eqt a.uri b.uri) (less_text a.uri b.uri) (
      by (left.0 == right.0) (ltb left.0 right.0)
        (by (left.1 == right.1) (ltb left.1 right.1) (less_text a.name b.name)))

abbrev first_item : List CallHierarchyItem → Option CallHierarchyItem
first_item [] = none
first_item (item ∷ items) = some item

unfoldable pub prepare_call_hierarchy :
    LspClient → SymbolInformation → Result (Option CallHierarchyItem)
unfolding and_then sort before_item
prepare_call_hierarchy client symbol =
    and_then
      (wrap (str "textDocument/prepareCallHierarchy request failed: ")
        (client.prepare symbol.location.uri symbol.location.range.start))
      (λ items. ok (first_item (sort before_item items)))

abbrev indent : ℕ → Text
indent zero = []
indent (suc depth) = str "  " ++ indent depth

abbrev pub caller_text : CallerOutputLine → Text
caller_text c =
    indent c.depth
    ++ (str "<- " ++ (c.name ++ (str " (" ++ (c.path ++ b':' ∷ (decimal c.line ++ str ")")))))

unfoldable pub format_callers_output : Text → List CallerOutputLine → ℕ → ℕ → Text
unfolding join decimal
format_callers_output root_line callers callers_count depth = join (str "\n") (
    root_line ∷ map caller_text callers
    ++ (decimal callers_count ++ (str " callers (depth " ++ (decimal depth ++ str ")"))) ∷ [])

abbrev or_default : Text → Text → Text
or_default default text = if is_empty text then default else text

-- The error of a command without a language server.
unfoldable pub missing_lsp_text : Text → Text → Text → Text
unfolding trim_space
missing_lsp_text command binary install =
    command
    ++ (str ": LSP required but "
        ++ (or_default (str "lsp") (trim_space binary)
            ++ (str " not found. Install: "
                ++ or_default (str "install language server") (trim_space install))))

unfoldable pub root_line_of : ResolvedSymbol → Text
unfolding decimal
root_line_of root =
    root.info.name ++ (str " (" ++ (root.path ++ b':' ∷ (decimal_ℤ root.line ++ str ")")))

module _ (host : LspHost) where
  -- A walk that runs out of fuel does not occur.
  abbrev pub walked_text : Text → ℕ → Walked → Result Text
  walked_text root_line depth (done walk count) =
      ok (format_callers_output root_line walk.output_lines count depth)
  walked_text root_line depth (failed message) = error message
  walked_text root_line depth out_of_fuel = error []

  abbrev pub callers_below :
      LspClient → Text → Matcher → ℕ → Text → Option CallHierarchyItem → Result Text
  callers_below client root matcher depth root_line none =
      ok (format_callers_output root_line [] 0 depth)
  callers_below client root matcher depth root_line (some item) =
      and_then (hierarchy_node_for_item host client root matcher item) (λ node.
        walked_text root_line depth (
          walk_incoming host client root matcher (walk_fuel depth) item depth 1 (node.identity ∷ [])
            (start_walk node.identity)))

  -- The one candidate is the root of the walk; none and several are errors.
  abbrev pub with_candidate :
      LspClient → Text → Matcher → ℕ → Text → List ResolvedSymbol → Result Text
  with_candidate client root matcher depth symbol [] =
      error (str "symbol not found: " ++ host.quote symbol)
  with_candidate client root matcher depth symbol (candidate ∷ []) =
      and_then (prepare_call_hierarchy client candidate.info)
        (callers_below client root matcher depth (root_line_of candidate))
  with_candidate client root matcher depth symbol (one ∷ two ∷ more) =
      error (
        format_ambiguous_symbol_error (host.quote symbol) (map symbol_candidate (one ∷ two ∷ more)))

  abbrev pub with_symbols :
      LspClient → Text → Matcher → ℕ → Text → Text → List SymbolInformation → Result Text
  with_symbols client root matcher depth filter_path symbol [] = error (
      str "LSP returned no symbols — the language server may not have finished indexing: "
      ++ host.quote symbol)
  with_symbols client root matcher depth filter_path symbol (s ∷ symbols) =
      and_then (resolve_callers_candidates host root filter_path matcher (s ∷ symbols) symbol)
        (with_candidate client root matcher depth symbol)

  unfoldable pub find_with_client : LspClient → CallersOptions → Text → Text → Result Text
  unfolding and_then new_workspace_ignore_matcher resolve_callers_candidates prepare_call_hierarchy
      root_line_of hierarchy_node_for_item walk_incoming format_callers_output
      format_ambiguous_symbol_error
  find_with_client client opts root symbol =
      and_then (new_workspace_ignore_matcher host root) (λ matcher.
        and_then (wrap (str "workspace/symbol request failed: ") (client.workspace_symbol symbol))
          (with_symbols client root matcher (pos_part opts.depth) opts.filter_path symbol))

  -- CallersEngine.Find; the client may be missing.
  unfoldable pub find_callers : Option LspClient → CallersOptions → Result Text
  unfolding trim_space and_then resolve_workspace_root find_with_client missing_lsp_text
  find_callers client opts =
      let symbol = trim_space opts.symbol in
      if is_empty symbol
      then error (str "symbol is required")
      else if leb_ℤ opts.depth (pos 0)
      then error (str "depth must be a positive integer")
      else and_then (resolve_workspace_root host opts.workspace_root) (λ root. elim client [
        | none ↦ error (missing_lsp_text (str "cs callers") opts.lsp_binary opts.lsp_install)
        | some c ↦ find_with_client c opts root symbol
      ])
