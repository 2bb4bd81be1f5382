-- ===== src/Lsp/Callers/Raw.antt =====
-- pkg/lsp/callers_raw.go: the callers of a symbol as records, by the same walk.
use codesight.Prelude.{ℕ, List, [], ◌∷◌, ◌++◌, map, if◌then◌else◌, Option, none, some}
use codesight.Prelude.Int.{pos, leb_ℤ, pos_part}
use codesight.Text.{Text, str, trim_space}
use codesight.Text.FilePath.{is_empty}
use codesight.Text.Result.{Result, ok, error, and_then, wrap}
use codesight.Ignore.{Matcher}
use codesight.Lsp.{
  SymbolInformation, CallHierarchyItem, LspClient, LspHost, resolve_workspace_root,
  new_workspace_ignore_matcher,
}
use codesight.Lsp.Formatter.{format_ambiguous_symbol_error}
use codesight.Lsp.Candidates.{ResolvedSymbol, symbol_candidate, resolve_callers_candidates}
use codesight.Lsp.Callers.{
  CallerOutputLine, Walked, done, failed, out_of_fuel, hierarchy_node_for_item, walk_incoming,
  walk_fuel, start_walk,
}
use codesight.Lsp.Callers.Find.{CallersOptions, prepare_call_hierarchy}

pub record RawCaller : Type 0 where
  pub symbol : Text
  pub path : Text
  pub line : ℕ
  pub depth : ℕ

abbrev pub raw_caller : CallerOutputLine → RawCaller
raw_caller c = record { symbol = c.name; path = c.path; line = c.line; depth = c.depth }

-- A walk that runs out of fuel does not occur.
abbrev pub walked_raw : Walked → Result (List RawCaller)
walked_raw (done walk count) = ok (map raw_caller walk.output_lines)
walked_raw (failed message) = error message
walked_raw out_of_fuel = error []

module _ (host : LspHost) (client : LspClient) (root : Text) (matcher : Matcher) (depth : ℕ) where
  abbrev pub raw_below : Option CallHierarchyItem → Result (List RawCaller)
  raw_below none = ok []
  raw_below (some item) = and_then (hierarchy_node_for_item host client root matcher item) (λ node.
      walked_raw (
        walk_incoming host client root matcher (walk_fuel depth) item depth 1 (node.identity ∷ [])
          (start_walk node.identity)))

  abbrev pub raw_candidate : Text → List ResolvedSymbol → Result (List RawCaller)
  raw_candidate symbol [] = error (str "symbol not found: " ++ host.quote symbol)
  raw_candidate symbol (candidate ∷ []) =
      and_then (prepare_call_hierarchy client candidate.info) raw_below
  raw_candidate symbol (one ∷ two ∷ more) =
      error (
        format_ambiguous_symbol_error (host.quote symbol) (map symbol_candidate (one ∷ two ∷ more)))

  abbrev pub raw_symbols : Text → Text → List SymbolInformation → Result (List RawCaller)
  raw_symbols filter_path symbol [] = error (
      str "LSP returned no symbols — the language server may not have finished indexing: "
      ++ host.quote symbol)
  raw_symbols filter_path symbol (s ∷ symbols) =
      and_then (resolve_callers_candidates host root filter_path matcher (s ∷ symbols) symbol)
        (raw_candidate symbol)

module _ (host : LspHost) where
  unfoldable pub find_raw_with_client :
      LspClient → CallersOptions → Text → Text → Result (List RawCaller)
  unfolding and_then new_workspace_ignore_matcher resolve_callers_candidates prepare_call_hierarchy
      hierarchy_node_for_item walk_incoming format_ambiguous_symbol_error
  find_raw_with_client client opts root symbol =
      and_then (new_workspace_ignore_matcher host root) (λ matcher.
        and_then (wrap (str "workspace/symbol request failed: ") (client.workspace_symbol symbol))
          (raw_symbols host client root matcher (pos_part opts.depth) opts.filter_path symbol))

  -- CallersEngine.FindCallersRaw; the client may be missing.
  unfoldable pub find_callers_raw : Option LspClient → CallersOptions → Result (List RawCaller)
  unfolding trim_space and_then resolve_workspace_root find_raw_with_client
  find_callers_raw client opts =
      let symbol = trim_space opts.symbol in
      if is_empty symbol
      then error (str "symbol is required")
      else if leb_ℤ opts.depth (pos 0)
      then error (str "depth must be a positive integer")
      else and_then (resolve_workspace_root host opts.workspace_root) (λ root. elim client [
        | none ↦ error (str "LSP client required for callers")
        | some c ↦ find_raw_with_client c opts root symbol
      ])
