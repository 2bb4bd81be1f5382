-- ===== src/Engine/Query/TextAnswer.antt =====
-- What a text query answers, from what its two providers give.
use codesight.Prelude.{ℕ, ◌≡◌, refl, ◌∙◌, ap, List, [], ◌∷◌, max, Option, none, some}
use codesight.Text.{Text, str}
use codesight.Engine.{SymReference, SymBudget, SymbolIntelligence}
use codesight.Engine.Query.{
  Fetched, got, failed, Host, Providers, QueryOptions, query, query_text, semantic_step,
  with_semantic, run_search, after_grep, grep_step, dispatch, start, item_limit, add_step,
  add_error,
}
use codesight.Engine.Budget.{compute_budget}
use codesight.Engine.Router.{classify, intent_text}
use codesight.Engine.Scoring.{score_references}

-- What the providers find, where a missing provider and one that fails find nothing.
abbrev pub grep_hits :
    Option (Text → Text → Fetched (List SymReference × Text)) → Text → Text → List SymReference
grep_hits none path q = []
grep_hits (some find) path q = elim (find path q) [
  | failed message ↦ []
  | got (refs, source) ↦ refs
]

abbrev pub search_hits :
    Option (Text → ℕ → Fetched (List SymReference)) → Text → ℕ → List SymReference
search_hits none q wanted = []
search_hits (some search) q wanted = elim (search q wanted) [
  | failed message ↦ []
  | got refs ↦ refs
]

-- The status and the references of an answer: the hits of grep, ranked by the place of the first and
-- cut; else those of the search, as they came; else none, with no status.
abbrev pub text_answer : ℕ → List SymReference → List SymReference → Text × List SymReference
text_answer limit (g ∷ gs) hits = (str "ok", score_references (g ∷ gs) g.file limit)
text_answer limit [] (s ∷ ss) = (str "ok", s ∷ ss)
text_answer limit [] [] = ([], [])

abbrev answer_of : SymbolIntelligence → Text × List SymReference
answer_of r = (r.status, r.references)

abbrev limit_of : SymBudget → ℕ
limit_of b = item_limit b.reference_lines

module _ (host : Host) (p : Providers) where
  -- Nothing is answered yet.
  abbrev IsOpen : SymbolIntelligence → Type 0
  IsOpen r = answer_of r ≡ ([], [])

  with_semantic_lem :
      (r : SymbolIntelligence) (limit : ℕ) (found : Fetched (List SymReference))
      → IsOpen r
      → answer_of (with_semantic host p r found)
        ≡ text_answer limit [] (elim found [ failed message ↦ [] | got refs ↦ refs ])
  with_semantic_lem r limit (failed message) h = h
  with_semantic_lem r limit (got []) h = h
  with_semantic_lem r limit (got (s ∷ ss)) h = refl

  run_search_lem :
      (search : Option (Text → ℕ → Fetched (List SymReference))) (r : SymbolIntelligence)
      (b : SymBudget)
      → IsOpen r
      → answer_of (run_search host p search r b)
        ≡ text_answer (limit_of b) [] (search_hits search r.query (max 3 (limit_of b)))
  run_search_lem none r b h = h
  run_search_lem (some search) r b h =
      with_semantic_lem (add_step r (str "semantic")) (limit_of b)
        (search r.query (max 3 (limit_of b))) h

  after_grep_lem :
      (r : SymbolIntelligence) (b : SymBudget) (found : Fetched (List SymReference × Text))
      → IsOpen r
      → answer_of (after_grep host p r b found)
        ≡ text_answer
            (limit_of b)
            (elim found [ failed message ↦ [] | got (refs, source) ↦ refs ])
            (search_hits p.search r.query (max 3 (limit_of b)))
  unfolding semantic_step
  after_grep_lem r b (failed message) h =
      run_search_lem p.search (add_error r (str "text search: ") message) b h
  after_grep_lem r b (got ([], source)) h = run_search_lem p.search r b h
  after_grep_lem r b (got (g ∷ gs, source)) h = refl

  grep_step_lem :
      (find : Option (Text → Text → Fetched (List SymReference × Text))) (r : SymbolIntelligence)
      (path : Text) (b : SymBudget)
      → IsOpen r
      → answer_of (grep_step host p find r path b)
        ≡ text_answer
            (limit_of b)
            (grep_hits find path r.query)
            (search_hits p.search r.query (max 3 (limit_of b)))
  unfolding semantic_step
  grep_step_lem none r path b h = run_search_lem p.search r b h
  grep_step_lem (some find) r path b h = after_grep_lem r b (find path r.query) h

  -- The status and the references of a query routed as text, for whatever providers: the references
  -- of grep, scored and cut, with status ok; where grep finds nothing, fails or is missing, those of
  -- the semantic search with status ok; and where it finds nothing either, fails or is missing, no
  -- reference and an empty status.
  pub query_text_lem :
      (opts : QueryOptions)
      → classify host.unicode opts.query opts.mode ≡ intent_text
      → (let limit = item_limit (compute_budget opts.budget opts.depth).reference_lines in
          ((query host p opts).status, (query host p opts).references)
          ≡ text_answer limit
              (grep_hits p.refs opts.path opts.query)
              (search_hits p.search opts.query (max 3 limit)))
  unfolding query query_text
  query_text_lem opts is_text =
      let b = compute_budget opts.budget opts.depth in
      ap (λ i. answer_of (dispatch host p i opts b)) is_text
      ∙ grep_step_lem p.refs (start host p opts intent_text b) opts.path b refl
