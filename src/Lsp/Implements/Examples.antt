-- ===== src/Lsp/Implements/Examples.antt =====
-- Implementations of a small search, and the theorem about them.
use codesight.Prelude.{ℕ, ◌≡◌, refl, List, [], ◌∷◌, All}
use codesight.Prelude.Int.{pos}
use codesight.Text.{Text, str, has_byte}
use codesight.Lsp.Implements.{
  ImplementationLine, arranged_implementations, format_implements_output,
}
use codesight.Lsp.Implements.Lines.{HasPath, IsArranged, arranged_implementations-IsArranged}

abbrev implemented : Text → Text → ℕ → ImplementationLine
implemented name path line = record { name = name; path = path; line = pos line }

abbrev lines : List ImplementationLine
lines =
    implemented (str "T") (str "b.go") 4
    ∷ implemented (str "S") (str "b.go") 9
    ∷ implemented (str "S") (str "a.go") 2
    ∷ implemented (str "S") (str "b.go") 1
    ∷ []

printed :
    format_implements_output (arranged_implementations lines)
    ≡ str "S (a.go)\nS (b.go)\nT (b.go)\n3 implementations"
unfolding format_implements_output arranged_implementations
printed = refl

lines-HasPath : All HasPath lines
unfolding has_byte
lines-HasPath = (refl, (refl, (refl, (refl, tt))))

arranged_implementations-IsArranged_example : IsArranged lines (arranged_implementations lines)
arranged_implementations-IsArranged_example =
    arranged_implementations-IsArranged lines lines-HasPath
