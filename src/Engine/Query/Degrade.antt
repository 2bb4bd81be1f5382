-- ===== src/Engine/Query/Degrade.antt =====
-- How a query degrades when a provider fails or finds nothing.
use codesight.Prelude.{
  ℕ, ◌≡◌, refl, sym, ◌∙◌, ap, List, [], ◌∷◌, max, Option, none, some, ◌⊎◌, inl, inr,
}
use codesight.Text.{Text, str}
use codesight.Engine.{
  SymReference, SymCaller, SymBudget, SymbolIntelligence, SymDefinition, SymImpl,
}
use codesight.Engine.Query.{
  Fetched, got, failed, Host, Providers, query_symbol, query_text, query_found, degrade,
  semantic_step, with_semantic, run_search, after_grep, grep_step, if_unset, add_refs, add_callers,
  add_implementations, with_definition, symbol_step, extracted, item_limit, add_step, add_error,
  fetch_refs, fetch_callers, fetch_implementations,
}
use codesight.Engine.Scoring.{score_callers}

-- What is shown of an answer, beside what was there before.
abbrev callers_shown : Text → SymBudget → Fetched (List SymCaller) → List SymCaller → List SymCaller
callers_shown file b (failed message) old = old
callers_shown file b (got found) old = score_callers found file (item_limit b.caller_lines)

abbrev implementations_shown : Fetched (List SymImpl) → List SymImpl → List SymImpl
implementations_shown (failed message) old = old
implementations_shown (got found) old = found

module _ (host : Host) (p : Providers) where
  -- The three parts of a result that the theorem speaks of.
  abbrev Keeps : SymbolIntelligence → SymbolIntelligence → Type 0
  Keeps r s =
      (r.status ≡ s.status) × (r.callers ≡ s.callers) × (r.implementations ≡ s.implementations)

  add_refs-Keeps :
      (file : Text) (b : SymBudget) (found : Fetched (List SymReference × Text))
      (r : SymbolIntelligence)
      → Keeps (add_refs host p file b found r) r
  unfolding add_refs
  add_refs-Keeps file b (failed message) r = (refl, refl, refl)
  add_refs-Keeps file b (got (refs, source)) r = (refl, refl, refl)

  add_callers_lem :
      (file : Text) (b : SymBudget) (found : Fetched (List SymCaller)) (r : SymbolIntelligence)
      → ((add_callers host p file b found r).status ≡ r.status)
        × ((add_callers host p file b found r).callers ≡ callers_shown file b found r.callers)
        × ((add_callers host p file b found r).implementations ≡ r.implementations)
  unfolding add_callers
  add_callers_lem file b (failed message) r = (refl, refl, refl)
  add_callers_lem file b (got found) r = (refl, refl, refl)

  add_implementations_lem :
      (found : Fetched (List SymImpl)) (r : SymbolIntelligence)
      → ((add_implementations host p found r).status ≡ r.status)
        × ((add_implementations host p found r).callers ≡ r.callers)
        × ((add_implementations host p found r).implementations
            ≡ implementations_shown found r.implementations)
  unfolding add_implementations
  add_implementations_lem (failed message) r = (refl, refl, refl)
  add_implementations_lem (got found) r = (refl, refl, refl)

  query_found_lem :
      (r : SymbolIntelligence) (path : Text) (depth : ℕ) (b : SymBudget) (def : SymDefinition)
      (others : List (Option SymDefinition))
      → ((query_found host p r path depth b def others).status ≡ str "ok")
        × ((query_found host p r path depth b def others).callers
            ≡ callers_shown def.file b
                (fetch_callers host p p.callers path r.query depth)
                r.callers)
        × ((query_found host p r path depth b def others).implementations
            ≡ implementations_shown
                (fetch_implementations host p p.implements path r.query)
                r.implementations)
  unfolding query_found
  query_found_lem r path depth b def others =
      let base = with_definition host p r b def others in
      let refs = fetch_refs host p p.refs path r.query in
      let callers = fetch_callers host p p.callers path r.query depth in
      let impls = fetch_implementations host p p.implements path r.query in
      let one = add_refs host p def.file b refs base in
      let two = add_callers host p def.file b callers one in
      let k1 = add_refs-Keeps def.file b refs base in
      let k2 = add_callers_lem def.file b callers one in
      let k3 = add_implementations_lem impls two in
      (
        k3.0 ∙ k2.0 ∙ k1.0,
        k3.1 ∙ k2.1 ∙ ap (callers_shown def.file b callers) k1.1,
        k3.2 ∙ ap (implementations_shown impls) (k2.2 ∙ k1.2),
      )

module _ (host : Host) (p q : Providers) where
  -- Once a definition is found the status is ok, and the callers and the implementations that are
  -- shown are those of their own providers: a reference provider that fails, or answers anything
  -- else, changes neither.
  pub query_found-isolated :
      p.callers ≡ q.callers
      → p.implements ≡ q.implements
      → (r : SymbolIntelligence) (path : Text) (depth : ℕ) (b : SymBudget) (def : SymDefinition)
        (others : List (Option SymDefinition))
      → ((query_found host p r path depth b def others).status ≡ str "ok")
        × ((query_found host p r path depth b def others).callers
            ≡ (query_found host q r path depth b def others).callers)
        × ((query_found host p r path depth b def others).implementations
            ≡ (query_found host q r path depth b def others).implementations)
  unfolding query_found
  query_found-isolated same_callers same_impls r path depth b def others =
      let of_p = query_found_lem host p r path depth b def others in
      let of_q = query_found_lem host q r path depth b def others in
      (
        of_p.0,
        of_p.1
            ∙ ap
                (λ c.
                  callers_shown def.file b (fetch_callers host p c path r.query depth) r.callers)
                same_callers
            ∙ sym of_q.1,
        of_p.2
            ∙ ap
                (λ c.
                  implementations_shown (fetch_implementations host p c path r.query)
                    r.implementations)
                same_impls
            ∙ sym of_q.2,
      )

module _ (host : Host) (p : Providers) where
  -- A text query that starts without a status ends with none, or with ok and references to show.
  abbrev TextStatus : SymbolIntelligence → Type 0
  TextStatus r = (r.status ≡ []) ⊎ (r.status ≡ str "ok")

  with_semantic-TextStatus :
      (r : SymbolIntelligence) (found : Fetched (List SymReference))
      → r.status ≡ []
      → TextStatus (with_semantic host p r found)
  with_semantic-TextStatus r (failed message) h = inl h
  with_semantic-TextStatus r (got []) h = inl h
  with_semantic-TextStatus r (got (x ∷ xs)) h = inr refl

  run_search-TextStatus :
      (search : Option (Text → ℕ → Fetched (List SymReference))) (r : SymbolIntelligence)
      (b : SymBudget)
      → r.status ≡ []
      → TextStatus (run_search host p search r b)
  run_search-TextStatus none r b h = inl h
  run_search-TextStatus (some search) r b h =
      with_semantic-TextStatus (add_step r (str "semantic"))
        (search r.query (max 3 (item_limit b.reference_lines))) h

  grep_step-TextStatus :
      (find : Option (Text → Text → Fetched (List SymReference × Text))) (r : SymbolIntelligence)
      (path : Text) (b : SymBudget)
      → r.status ≡ []
      → TextStatus (grep_step host p find r path b)
  unfolding semantic_step
  grep_step-TextStatus none r path b h = run_search-TextStatus p.search r b h
  grep_step-TextStatus (some find) r path b h = after (find path r.query)
    where
      after :
          (found : Fetched (List SymReference × Text)) → TextStatus (after_grep host p r b found)
      after (failed message) =
          run_search-TextStatus p.search (add_error r (str "text search: ") message) b h
      after (got ([], source)) = run_search-TextStatus p.search r b h
      after (got (x ∷ xs, source)) = inr refl

  if_unset-status :
      (r : SymbolIntelligence)
      → TextStatus r
      → ((if_unset host p r).status ≡ str "ok")
        ⊎ ((if_unset host p r).status ≡ str "not_found_exact")
  if_unset-status r (inl unset) = inr (rw unset refl)
  if_unset-status r (inr ok) = inl (rw ok refl)

  degrade-status :
      (r : SymbolIntelligence) (path : Text) (b : SymBudget)
      → r.status ≡ []
      → ((degrade host p r path b).status ≡ str "ok")
        ⊎ ((degrade host p r path b).status ≡ str "not_found_exact")
  unfolding degrade query_text
  degrade-status r path b h =
      if_unset-status (grep_step host p p.refs (add_step r (str "text")) path b)
        (grep_step-TextStatus p.refs (add_step r (str "text")) path b h)

  -- A symbol query never ends without a status: it is ok, or not_found_exact where the symbol has no
  -- definition and the text fallback found nothing.
  pub query_symbol-status :
      (r : SymbolIntelligence) (path : Text) (depth : ℕ) (b : SymBudget)
      → r.status ≡ []
      → ((query_symbol host p r path depth b).status ≡ str "ok")
        ⊎ ((query_symbol host p r path depth b).status ≡ str "not_found_exact")
  unfolding query_symbol
  query_symbol-status r path depth b h = step (extracted host p p.extractor r.query)
    where
      step :
          (found : Option (SymDefinition × List (Option SymDefinition)))
          → ((symbol_step host p (record r { symbol = r.query }) path depth b found).status
              ≡ str "ok")
            ⊎ ((symbol_step host p (record r { symbol = r.query }) path depth b found).status
                ≡ str "not_found_exact")
      step none = degrade-status (record r { symbol = r.query }) path b h
      step (some (def, others)) =
          inl (query_found_lem host p (record r { symbol = r.query }) path depth b def others).0
