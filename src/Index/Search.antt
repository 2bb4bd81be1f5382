-- ===== src/Index/Search.antt =====
-- pkg/searcher.go: the search in an index. The store and the embedder are parameters, with vectors `V`
-- and scores `F`; a store that answers the same way during one search.
pub mod Shown
mod Examples
use codesight.Prelude.{
  ℕ, zero, suc, ◌+◌, ◌≡◌, Bool, true, false, not, List, [], ◌∷◌, ◌++◌, map, length, take, ltb, keep,
  if◌then◌else◌, Option, none, some,
}
use codesight.Prelude.Int.{ℤ, pos, negsuc}
use codesight.Text.{Text, str, eqt, has_prefix, trim_space, split, join, decimal}
use codesight.Text.FilePath.{is_empty}
use codesight.Text.Unicode.{Unicode}
use codesight.Text.Result.{Result, ok, error, and_then, wrap}
use codesight.Ignore.{PathHost, Matcher, new_matcher, matches_path, matches_relative}
use codesight.Splitter.{Chunk}
use codesight.Splitter.Language.{language_from_extension, describe_chunk}
use codesight.Index.{resolve_collection_name}
use codesight.Index.Run.{Document}

pub record SearchOptions : Type 0 where
  pub path : Text
  pub collection_name : Text
  pub query : Text
  pub limit : ℤ
  pub extensions : List Text

pub record SearchResult (F : Type 0) : Type 0 where
  pub document : Document
  pub score : F

pub record SearchResultEntry (F : Type 0) : Type 0 where
  pub rank : ℕ
  pub file_path : Text
  pub start_line : ℕ
  pub end_line : ℕ
  pub score : F
  pub description : Text
  pub content : Text

-- What a search uses of the store and the embedder; the filter of a search is a language, if any.
pub record SearchHost (V F : Type 0) : Type 0 where
  pub paths : PathHost
  -- the message of the error where `paths.abs` has none
  pub abs_error : Text → Text
  pub is_abs : Text → Bool
  pub collection_exists : Text → Result Bool
  pub embed : Text → Result V
  pub search : Text → V → ℕ → Option Text → Result (List (SearchResult F))

-- A limit that is not positive becomes 10.
abbrev pub search_limit : ℤ → ℕ
search_limit (pos zero) = 10
search_limit (pos (suc n)) = suc n
search_limit (negsuc n) = 10

-- Only the first extension with a language counts.
unfoldable pub language_filter : Unicode → List Text → Option Text
unfolding language_from_extension
language_filter unicode [] = none
language_filter unicode (ext ∷ exts) =
    let later = language_filter unicode exts in
    if is_empty (language_from_extension unicode ext)
    then later
    else some (language_from_extension unicode ext)

-- strings.SplitN at the ends of the lines, and a mark where lines are left out
unfoldable pub truncate_content_for_display : Text → ℕ → Text
unfolding split join
truncate_content_for_display content max_lines =
    if ltb max_lines (length (split b'\n' content))
    then join (str "\n") (take max_lines (split b'\n' content) ++ str "..." ∷ [])
    else content

abbrev chunk_of : Document → Chunk
chunk_of d = record {
  content = d.content;
  file_path = d.file_path;
  start_line = d.start_line;
  end_line = d.end_line;
  language = d.language;
  node_type = d.node_type;
}

abbrev pub entry_of : {F : Type 0} → ℕ → SearchResult F → SearchResultEntry F
entry_of rank result = record {
  rank = rank;
  file_path = result.document.file_path;
  start_line = result.document.start_line;
  end_line = result.document.end_line;
  score = result.score;
  description = describe_chunk (chunk_of result.document);
  content = truncate_content_for_display result.document.content 3;
}

module _ {V F : Type 0} (host : SearchHost V F) where
  unfoldable pub search_result_ignored : Matcher → Text → Bool
  unfolding matches_path matches_relative
  search_result_ignored matcher file_path =
      if host.is_abs file_path
      then matches_path host.paths matcher file_path
      else matches_relative host.paths matcher file_path

  -- The loop over the results; `shown` are in the output already.
  unfoldable pub entries_from : Matcher → ℕ → List (SearchResult F) → List (SearchResultEntry F)
  unfolding search_result_ignored describe_chunk truncate_content_for_display
  entries_from matcher shown [] = []
  entries_from matcher shown (result ∷ results) =
      let ignored = search_result_ignored matcher result.document.file_path in
      let rest = entries_from matcher (if ignored then shown else suc shown) results in
      if ignored then rest else entry_of (shown + 1) result ∷ rest

  abbrev matcher_for : Text → Option Matcher → Result Matcher
  matcher_for root none = error (str "loading ignore rules: " ++ host.abs_error root)
  matcher_for root (some m) = ok m

  abbrev project_path_of : Text → Option Text → Result Text
  project_path_of path none = error (str "resolving path: " ++ host.abs_error path)
  project_path_of path (some root) = ok root

  abbrev found_or_error : Text → Bool → Result Bool
  found_or_error root exists =
      if exists
      then ok true
      else error (str "no index found for " ++ (root ++ str " — run 'cs index' first"))

  -- The search in a collection that exists.
  unfoldable pub search_collection :
      Unicode → SearchOptions → Matcher → Text → Result (List (SearchResultEntry F))
  unfolding and_then language_filter entries_from
  search_collection unicode opts matcher collection =
      and_then (wrap (str "embedding query: ") (host.embed opts.query)) (λ query_vec.
        and_then
          (wrap (str "searching: ") (
            host.search collection query_vec (search_limit opts.limit)
              (language_filter unicode opts.extensions)))
          (λ results. ok (entries_from matcher 0 results)))

  -- Searcher.Search
  unfoldable pub search : Unicode → SearchOptions → Result (List (SearchResultEntry F))
  unfolding and_then new_matcher resolve_collection_name search_collection
  search unicode opts = and_then (project_path_of opts.path (host.paths.abs opts.path)) (λ root.
      and_then (matcher_for root (new_matcher host.paths root [])) (λ matcher.
        let collection = resolve_collection_name host.paths.hash root opts.collection_name in
        and_then (wrap (str "checking collection: ") (host.collection_exists collection)) (λ exists.
          and_then (found_or_error root exists)
            (λ _. search_collection unicode opts matcher collection))))

  abbrev result_text : (F → Text) → SearchResultEntry F → Text
  result_text score_text r =
      str "["
      ++ (decimal r.rank
          ++ (str "] "
              ++ (r.file_path
                  ++ b':'
                    ∷ (decimal r.start_line
                        ++ b'-'
                          ∷ (decimal r.end_line
                              ++ (str " (score: "
                                  ++ (score_text r.score
                                      ++ (str ")\n    " ++ (r.description ++ str "\n\n")))))))))

  abbrev results_text : (F → Text) → List (SearchResultEntry F) → Text
  results_text score_text [] = []
  results_text score_text (r ∷ rs) = result_text score_text r ++ results_text score_text rs

  -- FormatResults; `score_text` is %.2f.
  unfoldable pub format_results : (F → Text) → List (SearchResultEntry F) → Text
  unfolding decimal trim_space
  format_results score_text [] = str "No results found."
  format_results score_text (r ∷ rs) = trim_space (results_text score_text (r ∷ rs))
