-- ===== src/Engine/Query/Counts.antt =====
-- The counts that a query reports.
use codesight.Prelude.{
  ℕ, ◌*◌, ◌≤◌, ◌≡◌, refl, List, [], ◌∷◌, arith, ltb, length, length-map, max, Option, none, some,
  if_both,
}
use codesight.Text.{Text, str}
use codesight.Engine.{
  SymReference, SymCaller, SymBudget, SymbolIntelligence, SymDefinition, SymImpl,
}
use codesight.Engine.Budget.{compute_budget}
use codesight.Engine.Router.{
  QueryIntent, intent_symbol, intent_path, intent_text, intent_ast, classify,
}
use codesight.Engine.Scoring.{score_references, score_ref, count_by_file}
use codesight.Text.FilePath.{dir}
use codesight.Engine.Scoring.Ranking.{score_references-IsTop}
use codesight.Engine.Query.{
  Fetched, got, failed, Host, Providers, QueryOptions, FileInfo, query, query_symbol, query_text,
  query_path, query_found, degrade, semantic_step, with_semantic, run_search, after_grep, grep_step,
  if_unset, add_refs, add_callers, add_implementations, with_definition, symbol_step, extracted,
  path_step, dispatch, item_limit, start, ended, count_file_lines, add_step, add_error, is_nil,
  effective_depth, fetch_refs, fetch_callers, fetch_implementations,
}

-- The meta section counts the references that the result holds, and no more than were found.
pub record HasCounts (r : SymbolIntelligence) : Type 0 where
  pub shown : r.meta.refs_shown ≡ length r.references
  pub total : r.meta.refs_shown ≤ r.meta.refs_total

length-score_references-le :
    (refs : List SymReference) (file : Text) (n : ℕ)
    → length (score_references refs file n) ≤ length refs
length-score_references-le refs file n =
    let top = score_references-IsTop refs file n in
    rw top.size (ground (arith, length-map (score_ref file (dir file) (count_by_file refs)) refs))

module _ (host : Host) (providers : Providers) where
  with_semantic-HasCounts :
      (r : SymbolIntelligence) (found : Fetched (List SymReference))
      → HasCounts r
      → HasCounts (with_semantic host providers r found)
  with_semantic-HasCounts r (failed message) h = record { shown = h.shown; total = h.total }
  with_semantic-HasCounts r (got []) h = h
  with_semantic-HasCounts r (got (x ∷ xs)) h = record { shown = refl; total = omega arith }

  run_search-HasCounts :
      (search : Option (Text → ℕ → Fetched (List SymReference))) (r : SymbolIntelligence)
      (b : SymBudget)
      → HasCounts r
      → HasCounts (run_search host providers search r b)
  run_search-HasCounts none r b h = h
  run_search-HasCounts (some search) r b h =
      with_semantic-HasCounts (add_step r (str "semantic"))
        (search r.query (max 3 (item_limit b.reference_lines)))
        (record { shown = h.shown; total = h.total })

  after_grep-HasCounts :
      (r : SymbolIntelligence) (b : SymBudget) (found : Fetched (List SymReference × Text))
      → HasCounts r
      → HasCounts (after_grep host providers r b found)
  unfolding semantic_step
  after_grep-HasCounts r b (failed message) h =
      run_search-HasCounts providers.search (add_error r (str "text search: ") message) b
        (record { shown = h.shown; total = h.total })
  after_grep-HasCounts r b (got ([], source)) h = run_search-HasCounts providers.search r b h
  after_grep-HasCounts r b (got (x ∷ xs, source)) h = record {
    shown = refl;
    total = length-score_references-le (x ∷ xs) x.file (item_limit b.reference_lines);
  }

  grep_step-HasCounts :
      (find : Option (Text → Text → Fetched (List SymReference × Text))) (r : SymbolIntelligence)
      (path : Text) (b : SymBudget)
      → HasCounts r
      → HasCounts (grep_step host providers find r path b)
  unfolding semantic_step
  grep_step-HasCounts none r path b h = run_search-HasCounts providers.search r b h
  grep_step-HasCounts (some find) r path b h = after_grep-HasCounts r b (find path r.query) h

  query_text-HasCounts :
      (r : SymbolIntelligence) (path : Text) (b : SymBudget)
      → HasCounts r
      → HasCounts (query_text host providers r path b)
  unfolding query_text
  query_text-HasCounts r path b h = grep_step-HasCounts providers.refs r path b h

  if_unset-HasCounts :
      (r : SymbolIntelligence) → HasCounts r → HasCounts (if_unset host providers r)
  if_unset-HasCounts r h =
      if_both HasCounts (is_nil r.status) (record { shown = h.shown; total = h.total }) h

  degrade-HasCounts :
      (r : SymbolIntelligence) (path : Text) (b : SymBudget)
      → HasCounts r
      → HasCounts (degrade host providers r path b)
  unfolding degrade
  degrade-HasCounts r path b h = if_unset-HasCounts _ (
      query_text-HasCounts (add_step r (str "text")) path b
        (record { shown = h.shown; total = h.total }))

  add_refs-HasCounts :
      (file : Text) (b : SymBudget) (found : Fetched (List SymReference × Text))
      (r : SymbolIntelligence)
      → HasCounts r
      → HasCounts (add_refs host providers file b found r)
  unfolding add_refs
  add_refs-HasCounts file b (failed message) r h = record { shown = h.shown; total = h.total }
  add_refs-HasCounts file b (got (refs, source)) r h = record {
    shown = refl;
    total = length-score_references-le refs file (item_limit b.reference_lines);
  }

  add_callers-HasCounts :
      (file : Text) (b : SymBudget) (found : Fetched (List SymCaller)) (r : SymbolIntelligence)
      → HasCounts r
      → HasCounts (add_callers host providers file b found r)
  unfolding add_callers
  add_callers-HasCounts file b (failed message) r h = record { shown = h.shown; total = h.total }
  add_callers-HasCounts file b (got callers) r h = record { shown = h.shown; total = h.total }

  add_implementations-HasCounts :
      (found : Fetched (List SymImpl)) (r : SymbolIntelligence)
      → HasCounts r
      → HasCounts (add_implementations host providers found r)
  unfolding add_implementations
  add_implementations-HasCounts (failed message) r h = record { shown = h.shown; total = h.total }
  add_implementations-HasCounts (got impls) r h = record { shown = h.shown; total = h.total }

  symbol_step-HasCounts :
      (r : SymbolIntelligence) (path : Text) (depth : ℕ) (b : SymBudget)
      (found : Option (SymDefinition × List (Option SymDefinition)))
      → HasCounts r
      → HasCounts (symbol_step host providers r path depth b found)
  unfolding query_found
  symbol_step-HasCounts r path depth b none h = degrade-HasCounts r path b h
  symbol_step-HasCounts r path depth b (some (def, others)) h =
      add_implementations-HasCounts
        (fetch_implementations host providers providers.implements path r.query) _
        (add_callers-HasCounts def.file b
          (fetch_callers host providers providers.callers path r.query depth) _
          (add_refs-HasCounts def.file b (fetch_refs host providers providers.refs path r.query)
            (with_definition host providers r b def others)
            (record { shown = h.shown; total = h.total })))

  ended-HasCounts :
      (r : SymbolIntelligence) (status hint : Text)
      → HasCounts r
      → HasCounts (ended host providers r status hint)
  ended-HasCounts r status hint h = record { shown = h.shown; total = h.total }

  path_step-HasCounts :
      (r : SymbolIntelligence) (info : Option FileInfo)
      → HasCounts r
      → HasCounts (path_step host providers r info)
  path_step-HasCounts r none h = record { shown = h.shown; total = h.total }
  path_step-HasCounts r (some info) h =
      let same : HasCounts (record r { status = str "ok" }) = record {
        shown = h.shown;
        total = h.total;
      } in
      if_both HasCounts info.is_dir (ended-HasCounts r _ _ h) (
        if_both HasCounts (ltb (500 * 1024) info.size) (ended-HasCounts r _ _ h) (
          if_both HasCounts (ltb 500 (count_file_lines host providers r.query))
            (ended-HasCounts r _ _ h) same))

  dispatch-HasCounts :
      (intent : QueryIntent) (opts : QueryOptions) (b : SymBudget)
      → HasCounts (dispatch host providers intent opts b)
  unfolding query_symbol query_path
  dispatch-HasCounts intent_symbol opts b =
      symbol_step-HasCounts
        (record (start host providers opts intent_symbol b) { symbol = opts.query }) opts.path
        (effective_depth opts.depth) b (extracted host providers providers.extractor opts.query)
        (record { shown = refl; total = omega arith })
  dispatch-HasCounts intent_path opts b =
      path_step-HasCounts (start host providers opts intent_path b) (host.stat opts.query)
        (record { shown = refl; total = omega arith })
  dispatch-HasCounts intent_text opts b =
      query_text-HasCounts (start host providers opts intent_text b) opts.path b
        (record { shown = refl; total = omega arith })
  dispatch-HasCounts intent_ast opts b = record { shown = refl; total = omega arith }

  -- Whatever the query and the providers' answers, the meta section reports as shown exactly the
  -- references that the result holds, and never more than the total that it reports.
  pub query-HasCounts : (opts : QueryOptions) → HasCounts (query host providers opts)
  unfolding query
  query-HasCounts opts =
      dispatch-HasCounts (classify host.unicode opts.query opts.mode) opts
        (compute_budget opts.budget opts.depth)
