-- ===== src/Engine/Query.antt =====
-- pkg/engine/engine.go: one unified query, from its text to the collected result.
-- The providers, the file system and the parser are parameters. The three fetches
-- of a symbol query run in goroutines that share nothing and are awaited together, so the model calls
-- them one after the other.
pub mod Counts
pub mod Degrade
pub mod TextAnswer
mod Examples
use codesight.Prelude.{
  ℕ, zero, suc, ◌+◌, ◌*◌, ◌/◌, ◌%◌, ◌≤◌, ◌≡◌, refl, Bool, true, false, not, ◌&&◌, ◌||◌, List, [],
  ◌∷◌, ◌++◌, map, arith, ltb, leb, if◌then◌else◌, length, any, max, Option, none, some,
}
use codesight.Prelude.Int.{ℤ, pos, negsuc, ltb_ℤ}
use codesight.Text.{Text, str, eqt, contains, count_byte, trim_space, encode}
use codesight.Text.Unicode.{Unicode}
use codesight.Engine.{
  OutlineEntry, CodeSlice, SymDefinition, SymDefinitionRef, SymReference, SymCaller, SymImpl,
  SymCandidate, SymBudget, SymMeta, SymbolIntelligence,
}
use codesight.Engine.Budget.{compute_budget}
use codesight.Engine.Router.{
  QueryIntent, intent_symbol, intent_path, intent_text, intent_ast, intent_name, classify,
}
use codesight.Engine.Scoring.{score_references, score_callers}
use codesight.Engine.Syntax.{Node}
use codesight.Engine.Outline.{ClassView, outline_class_definition}
use codesight.Engine.Slicer.{slice_definition, newline}

-- What a provider returns: a value, or an error with its message.
pub data Fetched (A : Type 0) : Type 0 where
  got : A → Fetched A
  failed : Text → Fetched A

-- The providers of the engine, for its workspace; any may be missing. The scope and the symbol come
-- first; references come with their source.
pub record Providers : Type 0 where
  pub refs : Option (Text → Text → Fetched (List SymReference × Text))
  pub callers : Option (Text → Text → ℕ → Fetched (List SymCaller))
  pub implements : Option (Text → Text → Fetched (List SymImpl))
  pub extractor : Option (Text → Fetched (List (Option SymDefinition)))
  pub search : Option (Text → ℕ → Fetched (List SymReference))

pub record FileInfo : Type 0 where
  pub is_dir : Bool
  pub size : ℕ

-- The file system, the parser and the Unicode tables.
pub record Host : Type 0 where
  pub read_file : Text → Option Text
  pub stat : Text → Option FileInfo
  pub parse : Text → Text → Option Node
  pub unicode : Unicode

pub record QueryOptions : Type 0 where
  pub query : Text
  pub path : Text
  pub depth : ℤ
  pub budget : Text
  pub mode : Text

abbrev pub class_like_types : List Text
class_like_types = map str ("class" ∷ "struct" ∷ "interface" ∷ "module" ∷ "trait" ∷ "enum" ∷ [])

unfoldable pub is_class_like_type : Unicode → Text → Bool
unfolding eqt
is_class_like_type u type = any (eqt (u.to_lower type)) class_like_types

abbrev pub failure_cues : List Text
failure_cues = map str (
    "error" ∷ "err " ∷ "exception" ∷ "failed" ∷ "failure" ∷ "bug" ∷ "fix" ∷ "panic" ∷ "stack"
    ∷ "trace" ∷ "crash" ∷ "fault" ∷ "debug" ∷ "broken" ∷ [])

unfoldable pub is_failure_cue_query : Unicode → Text → Bool
unfolding contains
is_failure_cue_query u query = any (λ cue. contains cue (u.to_lower query)) failure_cues

-- Half of a section's lines, and one item at least; Go's `/` cuts toward zero.
unfoldable pub item_limit : ℤ → ℕ
item_limit (pos n) = max 1 (n / 2)
item_limit (negsuc n) = 1

-- A query never goes less deep than one level.
unfoldable pub effective_depth : ℤ → ℕ
effective_depth (pos zero) = 1
effective_depth (pos (suc n)) = suc n
effective_depth (negsuc n) = 1

-- string(rune(n))
unfoldable pub rune_text : ℕ → Text
rune_text n =
    if ltb 0x10FFFF n || leb 0xD800 n && leb n 0xDFFF
    then encode 0xFFFD
    else if leb 0x10000 n
    then (0xF0 + n / 262144) ∷ (0x80 + n / 4096 % 64) ∷ (0x80 + n / 64 % 64) ∷ (0x80 + n % 64) ∷ []
    else encode n

abbrev is_nil : Text → Bool
is_nil [] = true
is_nil (c ∷ s) = false

abbrev add_error : SymbolIntelligence → Text → Text → SymbolIntelligence
add_error result part message = record result {
  meta = record (result.meta) { errors = result.meta.errors ++ (part ++ message) ∷ [] };
}

abbrev add_step : SymbolIntelligence → Text → SymbolIntelligence
add_step result step = record result {
  meta = record (result.meta) { search_chain = result.meta.search_chain ++ step ∷ [] };
}

module _ (host : Host) (providers : Providers) where
  -- SliceDefinition, as the query applies it.
  abbrev sliced : Text → SymBudget → SymDefinition → SymDefinition
  sliced source budget def =
      let (sig, slices, strategy) =
        slice_definition source def.line def.end_line (host.parse source def.language)
          budget.definition_lines in
      record def {
        signature = sig;
        body = if eqt strategy (str "signature_plus_slices") then [] else def.body;
        slices = slices;
        view_strategy = strategy;
      }

  abbrev with_class_view : Text → SymBudget → SymDefinition → ClassView → SymDefinition
  with_class_view source budget def view =
      if eqt view.strategy (str "signature_plus_outline")
      then record def {
        signature = view.signature;
        body = [];
        slices = view.top_methods;
        outline = view.outline;
        view_strategy = view.strategy;
      }
      else sliced source budget def

  abbrev cut_to_budget : Text → SymBudget → SymDefinition → Option Text → SymDefinition
  cut_to_budget symbol budget def none = def
  cut_to_budget symbol budget def (some source) =
      if is_class_like_type host.unicode def.type && not (is_failure_cue_query host.unicode symbol)
      then with_class_view source budget def (
          outline_class_definition host.unicode source def.language symbol def.line def.end_line
            budget.definition_lines (host.parse source def.language))
      else sliced source budget def

  -- The definition as it is shown.
  pub fit_definition : Text → SymBudget → SymDefinition → SymDefinition
  unfolding count_byte
  fit_definition symbol budget def =
      if is_nil def.body
      then def
      else if ltb_ℤ budget.definition_lines (pos (count_byte newline def.body + 1))
      then cut_to_budget symbol budget def (host.read_file def.file)
      else record def { view_strategy = str "full_body" }

  abbrev definition_refs : List (Option SymDefinition) → List SymDefinitionRef
  definition_refs [] = []
  definition_refs (none ∷ defs) = definition_refs defs
  definition_refs (some d ∷ defs) =
      record { file = d.file; line = d.line; end_line = d.end_line; type = d.type }
      ∷ definition_refs defs

  abbrev candidate : Text → Text → Text → SymReference → SymCandidate
  candidate query type reason ref = record {
    name = query;
    type = type;
    file = ref.file;
    reason = reason;
  }

  -- Grep found something.
  abbrev with_matches :
      SymbolIntelligence → SymBudget → SymReference → List SymReference → Text → SymbolIntelligence
  with_matches result budget first refs source =
      let shown = score_references refs first.file (item_limit budget.reference_lines) in
      record result {
        status = str "ok";
        ambiguous =
            result.ambiguous
            ++ map (candidate result.query (str "text match") (str "text search")) shown;
        references = shown;
        meta = record (result.meta) {
          confidence = 50;
          refs_source = source;
          refs_shown = length shown;
          refs_total = length refs;
        };
      }

  abbrev with_semantic : SymbolIntelligence → Fetched (List SymReference) → SymbolIntelligence
  with_semantic result (failed message) = add_error result (str "semantic search: ") message
  with_semantic result (got []) = result
  with_semantic result (got (ref ∷ refs)) = record result {
    status = str "ok";
    ambiguous =
        result.ambiguous
        ++ map (candidate result.query (str "semantic match") (str "semantic search")) (ref ∷ refs);
    references = ref ∷ refs;
    meta = record (result.meta) {
      confidence = 40;
      refs_source = str "semantic";
      refs_shown = length (ref ∷ refs);
      refs_total = length (ref ∷ refs);
    };
  }

  abbrev run_search :
      Option (Text → ℕ → Fetched (List SymReference))
      → SymbolIntelligence
      → SymBudget
      → SymbolIntelligence
  run_search none result budget = result
  run_search (some search) result budget =
      with_semantic (add_step result (str "semantic"))
        (search result.query (max 3 (item_limit budget.reference_lines)))

  -- Step 2 of queryText, when grep found nothing.
  pub semantic_step : SymbolIntelligence → SymBudget → SymbolIntelligence
  semantic_step = run_search providers.search

  abbrev after_grep :
      SymbolIntelligence → SymBudget → Fetched (List SymReference × Text) → SymbolIntelligence
  after_grep result budget (failed message) =
      semantic_step (add_error result (str "text search: ") message) budget
  after_grep result budget (got ([], source)) = semantic_step result budget
  after_grep result budget (got (ref ∷ refs, source)) =
      with_matches result budget ref (ref ∷ refs) source

  abbrev grep_step :
      Option (Text → Text → Fetched (List SymReference × Text))
      → SymbolIntelligence
      → Text
      → SymBudget
      → SymbolIntelligence
  grep_step none result filter_path budget = semantic_step result budget
  grep_step (some find) result filter_path budget =
      after_grep result budget (find filter_path result.query)

  pub query_text : SymbolIntelligence → Text → SymBudget → SymbolIntelligence
  unfolding semantic_step
  query_text = grep_step providers.refs

  -- The first definition, if the extractor has one.
  abbrev resolved :
      Fetched (List (Option SymDefinition)) → Option (SymDefinition × List (Option SymDefinition))
  resolved (got (some def ∷ others)) = some (def, others)
  resolved _ = none

  abbrev extracted :
      Option (Text → Fetched (List (Option SymDefinition)))
      → Text
      → Option (SymDefinition × List (Option SymDefinition))
  extracted none symbol = none
  extracted (some extract) symbol = resolved (extract symbol)

  abbrev if_unset : SymbolIntelligence → SymbolIntelligence
  if_unset result =
      if is_nil result.status
      then record result {
        status = str "not_found_exact";
        meta = record (result.meta) {
          next_hint = str "retry with --path, or provide a fuller query";
        };
      }
      else result

  -- No definition: degrade to a text query.
  pub degrade : SymbolIntelligence → Text → SymBudget → SymbolIntelligence
  degrade result filter_path budget =
      if_unset (query_text (add_step result (str "text")) filter_path budget)

  abbrev fetch_refs :
      Option (Text → Text → Fetched (List SymReference × Text))
      → Text
      → Text
      → Fetched (List SymReference × Text)
  fetch_refs none filter_path symbol = got ([], [])
  fetch_refs (some find) filter_path symbol = find filter_path symbol

  abbrev fetch_callers :
      Option (Text → Text → ℕ → Fetched (List SymCaller))
      → Text
      → Text
      → ℕ
      → Fetched (List SymCaller)
  fetch_callers none filter_path symbol depth = got []
  fetch_callers (some find) filter_path symbol depth = find filter_path symbol depth

  abbrev fetch_implementations :
      Option (Text → Text → Fetched (List SymImpl)) → Text → Text → Fetched (List SymImpl)
  fetch_implementations none filter_path symbol = got []
  fetch_implementations (some find) filter_path symbol = find filter_path symbol

  pub add_refs :
      Text
      → SymBudget
      → Fetched (List SymReference × Text)
      → SymbolIntelligence
      → SymbolIntelligence
  add_refs def_file budget (failed message) result = add_error result (str "refs: ") message
  add_refs def_file budget (got (refs, source)) result =
      let shown = score_references refs def_file (item_limit budget.reference_lines) in
      record result {
        references = shown;
        meta = record (result.meta) {
          refs_source = source;
          refs_shown = length shown;
          refs_total = length refs;
        };
      }

  pub add_callers :
      Text → SymBudget → Fetched (List SymCaller) → SymbolIntelligence → SymbolIntelligence
  add_callers def_file budget (failed message) result = add_error result (str "callers: ") message
  add_callers def_file budget (got callers) result = record result {
    callers = score_callers callers def_file (item_limit budget.caller_lines);
  }

  pub add_implementations : Fetched (List SymImpl) → SymbolIntelligence → SymbolIntelligence
  add_implementations (failed message) result = add_error result (str "implements: ") message
  add_implementations (got impls) result = record result { implementations = impls }

  -- The result with its definition, before the fetches.
  abbrev with_definition :
      SymbolIntelligence
      → SymBudget
      → SymDefinition
      → List (Option SymDefinition)
      → SymbolIntelligence
  with_definition result budget def others = record result {
    status = str "ok";
    definition = some (fit_definition result.query budget def);
    other_definitions = definition_refs others;
    meta = record (result.meta) { confidence = 85 };
  }

  -- querySymbol once a definition is found.
  pub query_found :
      SymbolIntelligence
      → Text
      → ℕ
      → SymBudget
      → SymDefinition
      → List (Option SymDefinition)
      → SymbolIntelligence
  unfolding add_refs add_callers add_implementations
  query_found result filter_path depth budget def others =
      add_implementations (fetch_implementations providers.implements filter_path result.query) (
        add_callers def.file budget (fetch_callers providers.callers filter_path result.query depth)
          (add_refs def.file budget (fetch_refs providers.refs filter_path result.query)
            (with_definition result budget def others)))

  abbrev symbol_step :
      SymbolIntelligence
      → Text
      → ℕ
      → SymBudget
      → Option (SymDefinition × List (Option SymDefinition))
      → SymbolIntelligence
  symbol_step result filter_path depth budget none = degrade result filter_path budget
  symbol_step result filter_path depth budget (some (def, others)) =
      query_found result filter_path depth budget def others

  pub query_symbol : SymbolIntelligence → Text → ℕ → SymBudget → SymbolIntelligence
  unfolding query_found degrade
  query_symbol result filter_path depth budget =
      symbol_step (record result { symbol = result.query }) filter_path depth budget
        (extracted providers.extractor result.query)

  abbrev count_file_lines : Text → ℕ
  count_file_lines path = elim (host.read_file path) [
    | none ↦ 0
    | some bytes ↦ count_byte newline bytes + 1
  ]

  abbrev ended : SymbolIntelligence → Text → Text → SymbolIntelligence
  ended result status hint = record result {
    status = status;
    meta = record (result.meta) { next_hint = hint };
  }

  abbrev path_step : SymbolIntelligence → Option FileInfo → SymbolIntelligence
  path_step result none =
      ended result (str "not_found") (str "file or directory not found: " ++ result.query)
  path_step result (some info) =
      if info.is_dir
      then ended result (str "ok")
          (str "directory listing; use cs query with a symbol name for deeper inspection")
      else if ltb (500 * 1024) info.size
      then ended result (str "file_too_large")
          (str "file is too large; use grep or tail to inspect specific sections")
      else if ltb 500 (count_file_lines result.query)
      then ended result (str "file_too_large") (
          str "file is "
          ++ (trim_space (rune_text (count_file_lines result.query))
              ++ str " lines; use grep or tail"))
      else record result { status = str "ok" }

  pub query_path : SymbolIntelligence → SymbolIntelligence
  unfolding count_byte
  query_path result = path_step result (host.stat result.query)

  abbrev start : QueryOptions → QueryIntent → SymBudget → SymbolIntelligence
  start opts intent budget = record {
    query = opts.query;
    mode = intent_name intent;
    status = [];
    symbol = [];
    definition = none;
    other_definitions = [];
    ambiguous = [];
    references = [];
    callers = [];
    implementations = [];
    meta = record {
      mode = intent_name intent;
      search_chain = intent_name intent ∷ [];
      confidence = 0;
      budget = budget;
      refs_source = [];
      refs_shown = 0;
      refs_total = 0;
      errors = [];
      next_hint = [];
    };
  }

  abbrev dispatch : QueryIntent → QueryOptions → SymBudget → SymbolIntelligence
  dispatch intent_symbol opts budget =
      query_symbol (start opts intent_symbol budget) opts.path (effective_depth opts.depth) budget
  dispatch intent_path opts budget = query_path (start opts intent_path budget)
  dispatch intent_text opts budget = query_text (start opts intent_text budget) opts.path budget
  dispatch intent_ast opts budget =
      ended (start opts intent_ast budget) (str "not_found")
        (str "AST search is not yet implemented; try --mode symbol or --mode text")

  -- Engine.Query; its error is always nil.
  pub query : QueryOptions → SymbolIntelligence
  unfolding query_symbol query_path query_text
  query opts =
      dispatch (classify host.unicode opts.query opts.mode) opts
        (compute_budget opts.budget opts.depth)
