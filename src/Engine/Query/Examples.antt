-- ===== src/Engine/Query/Examples.antt =====
-- Runs of a query over a small host, and the theorems about it at concrete inputs.
use codesight.Prelude.{ℕ, ◌≡◌, ◌⊎◌, refl, List, [], ◌∷◌, length, none, some, if◌then◌else◌}
use codesight.Prelude.Int.{pos}
use codesight.Text.{Text, str, eqt, trim_space}
use codesight.Text.Unicode.{ascii}
use codesight.Engine.{SymReference, SymCaller, SymBudget, SymbolIntelligence, SymDefinition}
use codesight.Engine.Budget.{compute_budget}
use codesight.Engine.Router.{
  classify, intent_symbol, intent_text, override_intent, has_known_extension,
  looks_like_qualified_name,
}
use codesight.Engine.Scoring.{score_references, score_callers}
use codesight.Engine.Query.{
  Fetched, got, failed, Host, Providers, QueryOptions, query, query_symbol, query_found, start,
  add_refs, add_callers, add_implementations, item_limit,
}
use codesight.Engine.Query.Counts.{HasCounts, query-HasCounts}
use codesight.Engine.Query.Degrade.{query_found-isolated, query_symbol-status}
use codesight.Engine.Query.TextAnswer.{query_text_lem}

abbrev ref_at : Text → ℕ → SymReference
ref_at file line = record {
  file = file;
  line = line;
  snippet = str "Login()";
  score = pos 0;
  reason = [];
}

abbrev login : SymDefinition
login = record {
  file = str "auth.go";
  line = 1;
  end_line = 1;
  type = str "function";
  signature = str "func Login()";
  docstring = [];
  body = str "func Login() {}";
  slices = [];
  outline = [];
  view_strategy = [];
  language = str "go";
}

abbrev main_caller : SymCaller
main_caller = record {
  symbol = str "main";
  file = str "main.go";
  line = 4;
  depth = 1;
  score = pos 0;
  reason = [];
}

abbrev bare_host : Host
bare_host = record {
  read_file = λ path. none;
  stat = λ path. none;
  parse = λ source language. none;
  unicode = ascii;
}

abbrev found_two : Text → Text → Fetched (List SymReference × Text)
found_two path symbol = got (ref_at (str "main.go") 4 ∷ ref_at (str "auth.go") 9 ∷ [], str "lsp")

abbrev grep_fails : Text → Text → Fetched (List SymReference × Text)
grep_fails path symbol = failed (str "no rg")

abbrev grep_nothing : Text → Text → Fetched (List SymReference × Text)
grep_nothing path symbol = got ([], str "grep")

abbrev providers_with : (Text → Text → Fetched (List SymReference × Text)) → Providers
providers_with find = record {
  refs = some find;
  callers = some (λ path symbol depth. got (main_caller ∷ []));
  implements = some (λ path symbol. failed (str "no server"));
  extractor =
      some (λ symbol. if eqt symbol (str "Login") then got (some login ∷ none ∷ []) else got []);
  search = none;
}

abbrev ask : Text → Text → QueryOptions
ask query mode = record {
  query = query;
  path = [];
  depth = pos 1;
  budget = str "small";
  mode = mode;
}

abbrev summary : SymbolIntelligence → Text × ℕ × ℕ × List Text
summary r = (r.status, length r.references, length r.callers, r.meta.errors)

-- A failing provider of implementations leaves its message and nothing else.
one_failure :
    summary (query bare_host (providers_with found_two) (ask (str "Login") []))
    ≡ (str "ok", 2, 1, str "implements: no server" ∷ [])
unfolding query query_symbol query_found add_refs add_callers add_implementations classify
    override_intent trim_space has_known_extension score_references score_callers item_limit
    compute_budget
one_failure = refl

query-HasCounts_example :
    HasCounts (query bare_host (providers_with found_two) (ask (str "Login") []))
query-HasCounts_example =
    query-HasCounts bare_host (providers_with found_two) (ask (str "Login") [])

abbrev small : SymBudget
small = compute_budget (str "small") (pos 1)

abbrev begun : Text → SymbolIntelligence
begun symbol = start bare_host (providers_with found_two) (ask symbol []) intent_symbol small

query_found-isolated_example :
    ((query_found bare_host
        (providers_with found_two)
        (begun (str "Login"))
        []
        1
        small
        login
        []).status
      ≡ str "ok")
    × ((query_found bare_host
          (providers_with found_two)
          (begun (str "Login"))
          []
          1
          small
          login
          []).callers
        ≡ (query_found bare_host
            (providers_with grep_fails)
            (begun (str "Login"))
            []
            1
            small
            login
            []).callers)
    × ((query_found bare_host
          (providers_with found_two)
          (begun (str "Login"))
          []
          1
          small
          login
          []).implementations
        ≡ (query_found bare_host
            (providers_with grep_fails)
            (begun (str "Login"))
            []
            1
            small
            login
            []).implementations)
query_found-isolated_example =
    query_found-isolated bare_host (providers_with found_two) (providers_with grep_fails) refl refl
      (begun (str "Login")) [] 1 small login []

query_symbol-status_example :
    ((query_symbol bare_host (providers_with grep_fails) (begun (str "Logout")) [] 1 small).status
      ≡ str "ok")
    ⊎ ((query_symbol bare_host (providers_with grep_fails) (begun (str "Logout")) [] 1 small).status
        ≡ str "not_found_exact")
query_symbol-status_example =
    query_symbol-status bare_host (providers_with grep_fails) (begun (str "Logout")) [] 1 small refl

as_text : classify ascii (str "some words") [] ≡ intent_text
unfolding classify override_intent trim_space has_known_extension looks_like_qualified_name
as_text = refl

-- Grep fails, and the search finds one place.
abbrev search_only : Providers
search_only = record (providers_with grep_fails) {
  search = some (λ q n. got (ref_at (str "a.go") 3 ∷ []));
}

abbrev searched : Text × List SymReference
searched = (str "ok", ref_at (str "a.go") 3 ∷ [])

query_text_lem_example :
    (
      (query bare_host search_only (ask (str "some words") [])).status,
      (query bare_host search_only (ask (str "some words") [])).references,
    )
    ≡ searched
query_text_lem_example = query_text_lem bare_host search_only (ask (str "some words") []) as_text
