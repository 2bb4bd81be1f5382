-- ===== src/Engine/Examples.antt =====
-- Runs of the engine's parts, and their theorems at concrete inputs.
use codesight.Prelude.{
  ℕ, suc, ◌+◌, ◌-◌, ◌*◌, ◌/◌, ◌^◌, ◌≤◌, ◌<◌, ◌≡◌, ◌↔◌, ◌⊎◌, refl, true, false, ◌&&◌, List, [], ◌∷◌,
  arith, map, length, keep, All, none,
}
use codesight.Prelude.Int.{ℤ, pos, ◌≤ℤ◌, ◌<ℤ◌, sub_ℕ, eqb_ℤ, leb_ℤ}
use codesight.Text.{Text, str, trim_space, eqt, split, has_byte}
use codesight.Text.Unicode.{ascii}
use codesight.Engine.{SymReference, SymCaller, CodeSlice}
use codesight.Engine.Budget.{
  compute_budget, base_total, compute_budget-shares, compute_budget_overflow, granted,
}
use codesight.Engine.Router.{
  classify, intent_symbol, intent_path, intent_text, intent_ast, intent_name, classify_symbol_iff,
  classify_mode, IsSymbolQuery, override_intent, has_known_extension, looks_like_qualified_name,
}
use codesight.Engine.Scoring.{
  score_references, scored_refs, higher_ref, score_ref, segments, count_by_file, is_test_file,
  penalty,
}
use codesight.Engine.Scoring.Ranking.{IsTop, score_references-IsTop, score_references-stable}
use codesight.Engine.Scoring.Weights.{score_ref_bounds, score_ref_same_file}
use codesight.Engine.Slicer.{
  find_salient_slices_by_text, scan, slice_definition, header_slice, newline,
}
use codesight.Engine.Slicer.TextScan.{InRange, IsAscending, find_salient_slices_by_text-IsAscending}
use codesight.Engine.Slicer.View.{slice_definition-HeaderThen, HeaderThen, Within}

deep_small : compute_budget (str "small") (pos 3) ≡ record {
  total_lines = pos 120;
  definition_lines = pos 60;
  reference_lines = pos 30;
  caller_lines = pos 18;
  meta_lines = pos 12;
}
unfolding compute_budget
deep_small = refl

compute_budget-shares_example :
    (80 ≤ granted (str "auto") 2)
    × (granted (str "auto") 2 ≤ 240)
    × (compute_budget (str "auto") (pos 2) ≡ record {
      total_lines = pos (granted (str "auto") 2);
      definition_lines = pos (granted (str "auto") 2 / 2);
      reference_lines = pos (granted (str "auto") 2 / 4);
      caller_lines = pos (3 * granted (str "auto") 2 / 20);
      meta_lines = pos (
          granted (str "auto") 2
          - granted (str "auto") 2 / 2
          - granted (str "auto") 2 / 4
          - 3 * granted (str "auto") 2 / 20);
    })
    × (granted (str "auto") 2 / 2 + granted (str "auto") 2 / 4 + 3 * granted (str "auto") 2 / 20
        ≤ granted (str "auto") 2)
compute_budget-shares_example = compute_budget-shares (str "auto") 2 (omega arith)

abbrev huge_depth : ℕ
huge_depth = 2 ^ 59

huge_low : 2 ^ 63 ≤ base_total (str "small") (pos huge_depth) + 20 * (huge_depth - 1)
unfolding base_total
huge_low = omega arith

huge_high : base_total (str "small") (pos huge_depth) + 20 * (huge_depth - 1) < 2 ^ 64
unfolding base_total
huge_high = omega arith

compute_budget_overflow_example :
    (compute_budget (str "small") (pos huge_depth)).total_lines <ℤ pos 0
compute_budget_overflow_example =
    compute_budget_overflow (str "small") huge_depth huge_low huge_high

routes :
    (classify ascii (str " auth.Login ") (str "auto") ≡ intent_symbol)
    × (classify ascii (str "pkg/auth.go") [] ≡ intent_path)
    × (classify ascii (str "Main.GO") [] ≡ intent_path)
    × (classify ascii (str "connection refused") [] ≡ intent_text)
    × (classify ascii (str "func {}") [] ≡ intent_ast)
    × (classify ascii (str "a . b") (str "bogus") ≡ intent_symbol)
unfolding classify override_intent trim_space has_known_extension looks_like_qualified_name
routes = (refl, refl, refl, refl, refl, refl)

classify_symbol_iff_example :
    (classify ascii (str "a.b c") [] ≡ intent_symbol) ↔ IsSymbolQuery ascii (str "a.b c") []
classify_symbol_iff_example = classify_symbol_iff ascii (str "a.b c") []

classify_mode_example : classify ascii (str "a/b.go") (intent_name intent_text) ≡ intent_text
classify_mode_example = classify_mode ascii (str "a/b.go") intent_text

abbrev ref_at : Text → ℕ → Text → SymReference
ref_at file line snippet = record {
  file = file;
  line = line;
  snippet = snippet;
  score = pos 0;
  reason = [];
}

abbrev own_ref : SymReference
own_ref = ref_at (str "pkg/a.go") 3 (str "Login()")

abbrev far_ref : SymReference
far_ref = ref_at (str "cmd/b.go") 9 (str "var x = Login")

abbrev two_refs : List SymReference
two_refs = far_ref ∷ own_ref ∷ []

abbrev ranked : SymReference → ℤ × Text
ranked r = (r.score, r.reason)

best_first :
    map ranked (score_references two_refs (str "pkg/a.go") 1)
    ≡ (pos 14, str "direct call + same file") ∷ []
unfolding score_references
best_first = refl

score_references-IsTop_example :
    IsTop higher_ref 1
      (scored_refs two_refs (str "pkg/a.go"))
      (score_references two_refs (str "pkg/a.go") 1)
score_references-IsTop_example = score_references-IsTop two_refs (str "pkg/a.go") 1

abbrev one_caller : List SymCaller
one_caller =
    record {
      symbol = str "main";
      file = str "cmd/b.go";
      line = 4;
      depth = 1;
      score = pos 0;
      reason = [];
    }
    ∷ []

score_references-stable_example :
    keep
      (λ r. eqt r.file (str "pkg/a.go") && eqb_ℤ r.score (pos 14))
      (score_references two_refs (str "pkg/a.go") 0)
    ≡ keep
        (λ r. eqt r.file (str "pkg/a.go") && eqb_ℤ r.score (pos 14))
        (scored_refs two_refs (str "pkg/a.go"))
score_references-stable_example =
    score_references-stable two_refs (str "pkg/a.go") (str "pkg/a.go") (pos 14)

score_ref_bounds_example :
    (sub_ℕ 0 (2 * segments (str "pkg/a.go"))
      ≤ℤ (score_ref (str "pkg/a.go") (str "pkg") (count_by_file two_refs) far_ref).score)
    × ((score_ref (str "pkg/a.go") (str "pkg") (count_by_file two_refs) far_ref).score
        ≤ℤ pos (8 * segments (str "pkg/a.go")))
score_ref_bounds_example =
    score_ref_bounds (str "pkg/a.go") (str "pkg") (count_by_file two_refs) far_ref

few_copies : penalty own_ref (count_by_file two_refs) ≤ penalty far_ref (count_by_file two_refs)
unfolding penalty count_by_file eqt
few_copies = omega arith

own_calls : has_byte b'(' own_ref.snippet ≡ true
unfolding has_byte
own_calls = refl

no_tests : is_test_file far_ref.file ≡ true → is_test_file own_ref.file ≡ true
unfolding is_test_file
no_tests h = cc

score_ref_same_file_example :
    (score_ref (str "pkg/a.go") (str "pkg") (count_by_file two_refs) far_ref).score
    ≤ℤ (score_ref (str "pkg/a.go") (str "pkg") (count_by_file two_refs) own_ref).score
score_ref_same_file_example =
    score_ref_same_file (str "pkg/a.go") (str "pkg") (count_by_file two_refs) own_ref far_ref refl
      (λ h. own_calls) no_tests few_copies

abbrev small_source : Text
small_source = str "func f() {\n  if err != nil {\n  }\n  os.Open(x)\n}"

abbrev span : CodeSlice → ℕ × ℕ
span s = (s.start_line, s.end_line)

found_lines : map span (find_salient_slices_by_text small_source 1 5) ≡ (2, 5) ∷ []
unfolding find_salient_slices_by_text split eqt
found_lines = refl

find_salient_slices_by_text-IsAscending_example :
    (length (find_salient_slices_by_text small_source 1 5) ≤ 3)
    × All (InRange 1 5) (find_salient_slices_by_text small_source 1 5)
    × IsAscending (find_salient_slices_by_text small_source 1 5)
    × (scan small_source 1 5
          (suc (length (split newline small_source)))
          (split newline small_source)
          (1 - 1)
          []
        ≡ find_salient_slices_by_text small_source 1 5)
find_salient_slices_by_text-IsAscending_example =
    find_salient_slices_by_text-IsAscending small_source 1 5 (omega arith)

slice_definition-HeaderThen_example :
    ((leb_ℤ (sub_ℕ (5 + 1) 1) (pos 3) ≡ true)
      × ((slice_definition small_source 1 5 none (pos 3)).1 ≡ [])
      × ((slice_definition small_source 1 5 none (pos 3)).2 ≡ str "full_body"))
    ⊎ ((leb_ℤ (sub_ℕ (5 + 1) 1) (pos 3) ≡ false)
        × ((slice_definition small_source 1 5 none (pos 3)).2 ≡ str "signature_plus_slices")
        × HeaderThen small_source 1 5
            (header_slice small_source 1 5)
            (slice_definition small_source 1 5 none (pos 3)).1
        × Within 1 5 (header_slice small_source 1 5))
slice_definition-HeaderThen_example =
    slice_definition-HeaderThen small_source 1 5 none (pos 3) (omega arith) (omega arith)
