-- ===== src/Lsp/Formatter/Examples.antt =====
-- References of a small search, and the theorems about them.
use codesight.Prelude.{ℕ, ◌≡◌, refl, List, [], ◌∷◌, map, length}
use codesight.Prelude.Int.{pos}
use codesight.Text.{Text, str}
use codesight.Lsp.Formatter.{
  before_reference, reference_key, ReferenceLine, compact_references, dedupe_and_sort_references,
  shown_references, format_references_output,
}
use codesight.Lsp.Formatter.Grouping.{IsGrouping, all_refs, compact_references-IsGrouping}
use codesight.Lsp.Distinct.{IsDistinct}
use codesight.Lsp.Formatter.Distinct.{dedupe_and_sort_references-IsDistinct}

abbrev ref : Text → ℕ → Text → ReferenceLine
ref path line snippet = record { path = path; line = pos line; snippet = snippet }

abbrev found : List ReferenceLine
found =
    ref (str "b.go") 2 (str " f()")
    ∷ ref (str "a.go") 9 (str "import f")
    ∷ ref (str "a.go") 7 (str "f(1)")
    ∷ ref (str "b.go") 2 (str " f()")
    ∷ ref (str "a.go") 3 (str "f(2)")
    ∷ []

printed :
    format_references_output found []
    ≡ str "a.go (2 refs)\n  :3  f(2)\n  :7  f(1)\nb.go (1 ref)\n  :2  f()\n3 references found"
unfolding format_references_output
printed = refl

-- Two references of different files with the same key: the second is lost.
one_key :
    map
      (λ (r : ReferenceLine). r.path)
      (dedupe_and_sort_references (ref (str "a") 1 (str "2:s") ∷ ref (str "a:1") 2 (str "s") ∷ []))
    ≡ str "a" ∷ []
unfolding dedupe_and_sort_references
one_key = refl

compact_references-IsGrouping_example :
    IsGrouping (shown_references found) (compact_references found).0
    × ((compact_references found).1 ≡ length (all_refs (compact_references found).0))
compact_references-IsGrouping_example = compact_references-IsGrouping found

dedupe_and_sort_references-IsDistinct_example :
    IsDistinct reference_key before_reference found (dedupe_and_sort_references found)
dedupe_and_sort_references-IsDistinct_example = dedupe_and_sort_references-IsDistinct found
