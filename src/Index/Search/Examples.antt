-- ===== src/Index/Search/Examples.antt =====
-- A search with three results, one of them in a hidden file, and the theorem about it.
use codesight.Prelude.{◌≡◌, refl, true, false, List, [], ◌∷◌, map, length, keep, none, some}
use codesight.Text.{Text, str}
use codesight.Text.Result.{ok}
use codesight.Ignore.{Matcher}
use codesight.Index.Search.{SearchHost, SearchResult, entries_from, format_results}
use codesight.Index.Search.Shown.{
  place_of, result_place, rank_of, numbers_from, is_shown, entries_from_lem,
}

abbrev result : Text → SearchResult Text
result path = record {
  document = record {
    content = str "func f() {\n}\n";
    file_path = path;
    start_line = 1;
    end_line = 2;
    language = str "go";
    node_type = str "function";
  };
  score = str "0.50";
}

abbrev results : List (SearchResult Text)
results = result (str "a.go") ∷ result (str "vendor") ∷ result (str "b.go") ∷ []

abbrev host : SearchHost Text Text
host = record {
  paths = record {
    path_match = λ p s. false;
    abs = λ s. some s;
    rel = λ b s. some s;
    ignore_file = λ d n. none;
    exists_path = λ s. false;
    hash = λ s. s;
  };
  abs_error = λ s. [];
  is_abs = λ s. false;
  collection_exists = λ c. ok true;
  embed = λ q. ok q;
  search = λ c v limit language. ok results;
}

abbrev matcher : Matcher
matcher = record { root = str "w"; patterns = str "vendor" ∷ []; fingerprint = [] }

printed :
    format_results host (λ s. s) (entries_from host matcher 0 results)
    ≡ str
        "[1] a.go:1-2 (score: 0.50)\n    function — func f() {\n\n[2] b.go:1-2 (score: 0.50)\n    function — func f() {"
unfolding format_results entries_from
printed = refl

entries_from_lem_example :
    (map place_of (entries_from host matcher 0 results)
      ≡ map result_place (keep (is_shown host matcher) results))
    × (map rank_of (entries_from host matcher 0 results)
        ≡ numbers_from 0 (length (entries_from host matcher 0 results)))
entries_from_lem_example = entries_from_lem host matcher results
