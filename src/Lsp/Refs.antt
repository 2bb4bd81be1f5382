-- ===== src/Lsp/Refs.antt =====
-- pkg/lsp/refs.go: the query for the references of a symbol, by a language server or, where it is of no
-- use, by a search through the texts of the files. The search is an argument, as in RefsEngine; the one
-- that the engine uses is in the child Grep. The contents of the files do not change during a query, so
-- that the cache of readSnippet is left out.
pub mod Grep
pub mod Fallback
mod Examples
use codesight.Prelude.{
  ℕ, zero, suc, ◌+◌, ◌-◌, ◌≡◌, Bool, true, false, not, ◌&&◌, ◌||◌, List, [], ◌∷◌, ◌++◌, map, length,
  keep, take, any, ltb, leb, ◌==◌, get_elem?, if◌then◌else◌, Option, none, some,
}
use codesight.Prelude.Int.{ℤ, pos, negsuc, add_one, eqb_ℤ}
use codesight.Text.{Text, str, eqt, trim_space, join, decimal, split}
use codesight.Text.FilePath.{is_empty}
use codesight.Text.Unicode.{Unicode}
use codesight.Text.Result.{Result, ok, error, and_then, wrap}
use codesight.Ignore.{Matcher, matches_path, elem}
use codesight.Lsp.{
  Location, SymbolInformation, LspClient, LspHost, decimal_ℤ, document_uri_to_path, relative_path,
  resolve_workspace_root, new_workspace_ignore_matcher,
}
use codesight.Lsp.Formatter.{
  ReferenceLine, normalize_snippet, is_import_reference, dedupe_and_sort_references,
  format_references_output, format_ambiguous_symbol_error,
}
use codesight.Lsp.Candidates.{ResolvedSymbol, symbol_candidate, resolve_candidates}

pub record RefsOptions : Type 0 where
  pub workspace_root : Text
  pub filter_path : Text
  pub symbol : Text
  pub kind : Text
  pub fallback_lsp : Text

abbrev allowed_ref_kinds : List Text
allowed_ref_kinds =
    map str ("function" ∷ "method" ∷ "class" ∷ "interface" ∷ "type" ∷ "constant" ∷ [])

-- What a search by the language server ends in: a text, an error that lets the search through the files
-- take over (no server, or no symbol), or another error.
pub data Answer : Type 0 where
  answered : Text → Answer
  unavailable : Text → Answer
  not_found : Text → Answer
  refused : Text → Answer

-- The next step takes the value; `failing` says what an error ends in.
unfoldable pub answer_then : {A : Type 0} → Result A → (Text → Answer) → (A → Answer) → Answer
answer_then (ok a) failing next = next a
answer_then (error message) failing next = failing message

module _ (host : LspHost) (unicode : Unicode) where
  -- NormalizeRefKind: no kind is the empty text.
  unfoldable pub normalize_ref_kind : Text → Result Text
  unfolding trim_space eqt
  normalize_ref_kind kind =
      let trimmed = trim_space kind in
      if is_empty trimmed
      then ok []
      else if elem (unicode.to_lower trimmed) allowed_ref_kinds
      then ok (unicode.to_lower trimmed)
      else error (
          str "invalid kind "
          ++ (host.quote trimmed
              ++ str " — allowed: function, method, class, interface, type, constant"))

abbrev line_of_file : ℤ → Option Text → Text
line_of_file (pos (suc n)) (some content) = elim (get_elem? (split b'\n' content) n) [
  | none ↦ []
  | some line ↦ line
]
line_of_file _ _ = []

module _ (host : LspHost) where
  unfoldable pub read_snippet : Text → ℤ → Text
  unfolding split
  read_snippet path line_number = line_of_file line_number (host.read_file path)

  abbrev pub reference_at : Text → Location → Text → ReferenceLine
  reference_at root location path = record {
    path = relative_path host root path;
    line = add_one location.range.start.line;
    snippet = read_snippet path (add_one location.range.start.line);
  }

  -- The loop over the locations.
  unfoldable pub collected_lines : Text → Matcher → List Location → Result (List ReferenceLine)
  unfolding and_then document_uri_to_path matches_path relative_path read_snippet
  collected_lines root matcher [] = ok []
  collected_lines root matcher (location ∷ locations) =
      and_then (document_uri_to_path host location.uri) (λ path.
        and_then (collected_lines root matcher locations) (λ rest. ok (
          if matches_path host.paths matcher path
          then rest
          else reference_at root location path ∷ rest)))

  unfoldable pub to_reference_lines : Text → Matcher → List Location → Result (List ReferenceLine)
  unfolding and_then collected_lines dedupe_and_sort_references
  to_reference_lines root matcher references =
      and_then (collected_lines root matcher references)
        (λ lines. ok (dedupe_and_sort_references lines))

abbrev pub max_listed_cross_check_matches : ℕ
max_listed_cross_check_matches = 5

abbrev is_leftover : ResolvedSymbol → ReferenceLine → Bool
is_leftover declaration m =
    not (eqt m.path declaration.path && eqb_ℤ m.line declaration.line)
    && not (is_import_reference m.snippet)

abbrev match_line : ReferenceLine → Text
match_line m =
    str "  " ++ (m.path ++ b':' ∷ (decimal_ℤ m.line ++ (str "  " ++ normalize_snippet m.snippet)))

abbrev listed_matches : List ReferenceLine → List Text
listed_matches leftover =
    map match_line (take max_listed_cross_check_matches leftover)
    ++ (if ltb max_listed_cross_check_matches (length leftover)
        then (str "  ... and "
            ++ (decimal (length leftover - max_listed_cross_check_matches) ++ str " more"))
          ∷ []
        else [])

abbrev note_on : List ReferenceLine → Text
note_on [] = []
note_on (m ∷ ms) = join (str "\n") (
    (str "Warning: a text search found "
        ++ (decimal (length (m ∷ ms))
            ++ str " potential reference(s) the language server did not report:"))
      ∷ listed_matches (m ∷ ms)
    ++ str "If these are real references, the language server may lack project context"
      ∷ str "(e.g. Lombok projects need the agent — see the lsp.java.args config key)."
      ∷ [])

abbrev pub RefsFallback : Type 0
RefsFallback = Text → Text → Result (List ReferenceLine)

unfoldable pub zero_refs_cross_check_note : RefsFallback → Text → Text → ResolvedSymbol → Text
unfolding eqt is_import_reference decimal join trim_space
zero_refs_cross_check_note fallback root symbol declaration = elim (fallback root symbol) [
  | error message ↦ []
  | ok matches ↦ note_on (keep (is_leftover declaration) matches)
]

unfoldable pub fallback_precision_note : Text → Text
unfolding trim_space
fallback_precision_note binary =
    let trimmed = trim_space binary in
    str "(grep-based - install "
    ++ ((if is_empty trimmed then str "lsp" else trimmed) ++ str " for precise results)")

abbrev with_note : Text → Text → Text
with_note output note = if is_empty note then output else output ++ str "\n" ++ note

module _ (host : LspHost) (fallback : RefsFallback) where
  -- The output, with a note where the server has no reference.
  unfoldable pub references_text : Text → Text → ResolvedSymbol → List ReferenceLine → Text
  unfolding format_references_output zero_refs_cross_check_note
  references_text root symbol declaration refs =
      if length refs == 0
      then with_note (format_references_output refs [])
          (zero_refs_cross_check_note fallback root symbol declaration)
      else format_references_output refs []

  -- The one candidate is asked for its references; none and several are errors.
  unfoldable pub with_refs_candidate :
      LspClient → Text → Matcher → Text → List ResolvedSymbol → Answer
  unfolding answer_then to_reference_lines references_text format_ambiguous_symbol_error
  with_refs_candidate client root matcher symbol [] =
      not_found (str "symbol not found: " ++ host.quote symbol)
  with_refs_candidate client root matcher symbol (candidate ∷ []) =
      answer_then
        (client.references candidate.info.location.uri candidate.info.location.range.start)
        (λ message. unavailable (str "textDocument/references request failed: " ++ message))
        (λ locations.
          answer_then (to_reference_lines host root matcher locations) refused
            (λ refs. answered (references_text root symbol candidate refs)))
  with_refs_candidate client root matcher symbol (one ∷ two ∷ more) =
      refused (
        format_ambiguous_symbol_error (host.quote symbol) (map symbol_candidate (one ∷ two ∷ more)))

  unfoldable pub with_refs_symbols :
      LspClient → Text → Matcher → Text → Text → Text → List SymbolInformation → Answer
  unfolding answer_then resolve_candidates with_refs_candidate
  with_refs_symbols client root matcher filter_path symbol kind [] =
      unavailable (str "LSP returned no symbols for " ++ host.quote symbol)
  with_refs_symbols client root matcher filter_path symbol kind (s ∷ symbols) =
      answer_then (resolve_candidates host root filter_path matcher (s ∷ symbols) symbol kind)
        refused (with_refs_candidate client root matcher symbol)

  unfoldable pub find_with_lsp : LspClient → Text → Text → Text → Text → Answer
  unfolding answer_then new_workspace_ignore_matcher with_refs_symbols
  find_with_lsp client root filter_path symbol kind =
      answer_then (new_workspace_ignore_matcher host root) refused (λ matcher.
        answer_then (client.workspace_symbol symbol)
          (λ message. unavailable (str "workspace/symbol request failed: " ++ message))
          (with_refs_symbols client root matcher filter_path symbol kind))

  abbrev matches_text : Text → Text → List ReferenceLine → Result Text
  matches_text symbol binary [] = error (str "symbol " ++ (host.quote symbol ++ str " not found"))
  matches_text symbol binary (m ∷ ms) =
      ok (format_references_output (m ∷ ms) (fallback_precision_note binary))

  unfoldable pub find_by_fallback : Text → Text → Text → Result Text
  unfolding and_then format_references_output fallback_precision_note
  find_by_fallback root symbol binary =
      and_then (wrap (str "grep fallback failed: ") (fallback root symbol))
        (matches_text symbol binary)

  -- What is made of the answer of the server.
  abbrev pub or_fallback : Answer → Result Text → Result Text
  or_fallback (answered output) by_text = ok output
  or_fallback (unavailable message) by_text = by_text
  or_fallback (not_found message) by_text = by_text
  or_fallback (refused message) by_text = error message

  abbrev pub find_refs_at : Option LspClient → RefsOptions → Text → Text → Text → Result Text
  find_refs_at none opts symbol root kind = find_by_fallback root symbol opts.fallback_lsp
  find_refs_at (some client) opts symbol root kind =
      or_fallback (find_with_lsp client root opts.filter_path symbol kind)
        (find_by_fallback root symbol opts.fallback_lsp)

  -- RefsEngine.Find; the client may be missing.
  unfoldable pub find_refs : Unicode → Option LspClient → RefsOptions → Result Text
  unfolding trim_space and_then resolve_workspace_root normalize_ref_kind find_with_lsp
      find_by_fallback
  find_refs unicode client opts =
      let symbol = trim_space opts.symbol in
      if is_empty symbol
      then error (str "symbol is required")
      else and_then (resolve_workspace_root host opts.workspace_root) (λ root.
        and_then (normalize_ref_kind host unicode opts.kind) (find_refs_at client opts symbol root))
