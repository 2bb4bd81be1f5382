-- ===== src/Lsp/Callers/Printed.antt =====
-- The text of the callers is a print of the records.
use codesight.Prelude.{
  ℕ, suc, ◌≡◌, refl, sym, ap, ◌∙◌, List, [], ◌∷◌, map, length, Bool-cases, inl, inr, Option, none,
  some,
}
use codesight.Prelude.Int.{pos, pos_part, leb_ℤ}
use codesight.Text.{Text, str, trim_space}
use codesight.Text.FilePath.{is_empty}
use codesight.Text.Result.{Result, ok, error, and_then, wrap}
use codesight.Ignore.{Matcher}
use codesight.Lsp.{
  SymbolInformation, CallHierarchyItem, LspClient, LspHost, resolve_workspace_root,
  new_workspace_ignore_matcher,
}
use codesight.Lsp.Candidates.{ResolvedSymbol, resolve_callers_candidates}
use codesight.Lsp.Callers.{
  CallerOutputLine, HierarchyNode, Walked, done, failed, out_of_fuel, hierarchy_node_for_item,
}
use codesight.Lsp.Callers.Find.{
  CallersOptions, prepare_call_hierarchy, format_callers_output, walked_text, callers_below,
  with_candidate, with_symbols, root_line_of, find_with_client, find_callers,
}
use codesight.Lsp.Callers.Raw.{
  RawCaller, raw_caller, walked_raw, raw_below, raw_candidate, raw_symbols, find_raw_with_client,
  find_callers_raw,
}
use codesight.Lsp.Callers.Sound.{EndsWell, walk_incoming-EndsWell}
use codesight.Lsp.Callers.Reserved.{line_shown}

abbrev pub line_of_raw : RawCaller → CallerOutputLine
line_of_raw r = record { depth = r.depth; name = r.symbol; path = r.path; line = r.line }

-- The text is the print of the records, under some first line, with their number.
pub record IsPrint (depth : ℕ) (text : Text) (raws : List RawCaller) : Type 0 where
  pub first_line : Text
  pub printed : text ≡ format_callers_output first_line (map line_of_raw raws) (length raws) depth

-- Both searches succeed, the text a print of the records, or both fail with one message.
abbrev pub Agree : ℕ → Result Text → Result (List RawCaller) → Type 0
Agree depth (ok text) (ok raws) = IsPrint depth text raws
Agree depth (error a) (error b) = a ≡ b
Agree depth (ok text) (error b) = ⊥
Agree depth (error a) (ok raws) = ⊥

and_then-Agree :
    {A : Type 0} (depth : ℕ) (r : Result A) (f : A → Result Text) (g : A → Result (List RawCaller))
    → ((a : A) → Agree depth (f a) (g a))
    → Agree depth (and_then r f) (and_then r g)
unfolding and_then
and_then-Agree depth (ok a) f g h = h a
and_then-Agree depth (error message) f g h = refl

raw-lines : (lines : List CallerOutputLine) → map line_of_raw (map raw_caller lines) ≡ lines
raw-lines [] = refl
raw-lines (c ∷ lines) = ap (λ rest. c ∷ rest) (raw-lines lines)

length-map_raw : (lines : List CallerOutputLine) → length (map raw_caller lines) ≡ length lines
length-map_raw [] = refl
length-map_raw (c ∷ lines) = ap suc (length-map_raw lines)

length-map_shown : (shown : List (ℕ × HierarchyNode)) → length (map line_shown shown) ≡ length shown
length-map_shown [] = refl
length-map_shown (s ∷ shown) = ap suc (length-map_shown shown)

module _ (host : LspHost) (client : LspClient) (root : Text) (matcher : Matcher) (depth : ℕ) where
  walked-Agree :
      (root_line : Text) (item : CallHierarchyItem) (identity : Text) (end : Walked)
      → EndsWell host client root matcher item identity depth end
      → Agree depth (walked_text host root_line depth end) (walked_raw end)
  walked-Agree root_line item identity (done walk count) h =
      let lines = walk.output_lines in
      record {
        first_line = root_line;
        printed =
            ap (λ ls. format_callers_output root_line ls count depth) (sym (raw-lines lines))
            ∙ ap
                (λ n.
                  format_callers_output root_line (map line_of_raw (map raw_caller lines)) n depth)
                (h.counted
                  ∙ sym (length-map_shown h.shown)
                  ∙ ap length (sym h.are_lines)
                  ∙ sym (length-map_raw lines));
      }
  walked-Agree root_line item identity (failed message) h = refl
  walked-Agree root_line item identity out_of_fuel h = refl

  below-Agree :
      (root_line : Text) (item : Option CallHierarchyItem)
      → Agree depth
          (callers_below host client root matcher depth root_line item)
          (raw_below host client root matcher depth item)
  below-Agree root_line none = record { first_line = root_line; printed = refl }
  below-Agree root_line (some item) =
      and_then-Agree depth (hierarchy_node_for_item host client root matcher item) _ _ (λ node.
        walked-Agree root_line item node.identity _
          (walk_incoming-EndsWell host client root matcher item node.identity depth))

  candidate-Agree :
      (symbol : Text) (candidates : List ResolvedSymbol)
      → Agree depth
          (with_candidate host client root matcher depth symbol candidates)
          (raw_candidate host client root matcher depth symbol candidates)
  candidate-Agree symbol [] = refl
  candidate-Agree symbol (c ∷ []) =
      and_then-Agree depth (prepare_call_hierarchy client c.info) _ _ (below-Agree (root_line_of c))
  candidate-Agree symbol (one ∷ two ∷ more) = refl

  symbols-Agree :
      (filter_path symbol : Text) (symbols : List SymbolInformation)
      → Agree depth
          (with_symbols host client root matcher depth filter_path symbol symbols)
          (raw_symbols host client root matcher depth filter_path symbol symbols)
  symbols-Agree filter_path symbol [] = refl
  symbols-Agree filter_path symbol (s ∷ symbols) =
      and_then-Agree depth
        (resolve_callers_candidates host root filter_path matcher (s ∷ symbols) symbol) _ _
        (candidate-Agree symbol)

client-Agree :
    (host : LspHost) (client : LspClient) (opts : CallersOptions) (root symbol : Text)
    → Agree
        (pos_part opts.depth)
        (find_with_client host client opts root symbol)
        (find_raw_with_client host client opts root symbol)
unfolding find_with_client find_raw_with_client
client-Agree host client opts root symbol =
    and_then-Agree (pos_part opts.depth) (new_workspace_ignore_matcher host root) _ _ (λ matcher.
      and_then-Agree (pos_part opts.depth)
        (wrap (str "workspace/symbol request failed: ") (client.workspace_symbol symbol)) _ _
        (symbols-Agree host client root matcher (pos_part opts.depth) opts.filter_path symbol))

-- With a language server, the search for callers that gives a text and the one that gives records
-- agree: both fail with one message, or the text is the print of the records, each on its line, and
-- its last line counts them.
pub find_callers-Agree :
    (host : LspHost) (client : LspClient) (opts : CallersOptions)
    → Agree
        (pos_part opts.depth)
        (find_callers host (some client) opts)
        (find_callers_raw host (some client) opts)
unfolding find_callers find_callers_raw
find_callers-Agree host client opts = elim (Bool-cases (is_empty (trim_space opts.symbol))) [
  | inl e ↦ rw e refl
  | inr e ↦ rw e (elim (Bool-cases (leb_ℤ opts.depth (pos 0))) [
    | inl d ↦ rw d refl
    | inr d ↦ rw d (
        and_then-Agree (pos_part opts.depth) (resolve_workspace_root host opts.workspace_root) _ _
          (λ root. client-Agree host client opts root (trim_space opts.symbol)))
  ])
]
