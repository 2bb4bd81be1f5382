-- ===== src/Lsp/Formatter.antt =====
-- pkg/lsp/formatter.go: references and candidates as text, sorted and without repetitions.
pub mod Grouping
pub mod Distinct
mod Examples
use codesight.Prelude.{
  ℕ, zero, suc, ◌+◌, ◌≡◌, Bool, true, false, not, List, [], ◌∷◌, ◌++◌, map, length, keep, ◌==◌,
  if◌then◌else◌,
}
use codesight.Prelude.Int.{ℤ, ltb_ℤ, eqb_ℤ}
use codesight.Prelude.Sort.{sort}
use codesight.Text.{Text, str, eqt, less_text, has_prefix, trim_space, join, decimal}
use codesight.Text.FilePath.{is_empty}
use codesight.Ignore.{elem}
use codesight.Lsp.{decimal_ℤ}
use codesight.Lsp.Order.{by}
use codesight.Lsp.Distinct.{distinct_by}

pub record ReferenceLine : Type 0 where
  pub path : Text
  pub line : ℤ
  pub snippet : Text

pub record SymbolCandidate : Type 0 where
  pub path : Text
  pub line : ℤ
  pub kind : Text

pub record ReferenceGroup : Type 0 where
  pub path : Text
  pub refs : List ReferenceLine

unfoldable pub before_reference : ReferenceLine → ReferenceLine → Bool
unfolding eqt less_text
before_reference a b =
    by (eqt a.path b.path) (less_text a.path b.path)
      (by (eqb_ℤ a.line b.line) (ltb_ℤ a.line b.line) (less_text a.snippet b.snippet))

unfoldable pub before_candidate : SymbolCandidate → SymbolCandidate → Bool
unfolding eqt less_text
before_candidate a b =
    by (eqt a.path b.path) (less_text a.path b.path)
      (by (eqb_ℤ a.line b.line) (ltb_ℤ a.line b.line) (less_text a.kind b.kind))

abbrev pub normalize_snippet : Text → Text
normalize_snippet snippet = trim_space snippet

unfoldable pub is_import_reference : Text → Bool
unfolding has_prefix trim_space
is_import_reference snippet = has_prefix (str "import ") (normalize_snippet snippet)

-- The key by which repetitions are found.
unfoldable pub reference_key : ReferenceLine → Text
unfolding decimal
reference_key ref = ref.path ++ b':' ∷ (decimal_ℤ ref.line ++ b':' ∷ ref.snippet)

unfoldable pub dedupe_and_sort_references : List ReferenceLine → List ReferenceLine
unfolding sort before_reference reference_key distinct_by
dedupe_and_sort_references references =
    distinct_by reference_key [] (sort before_reference references)

-- A reference joins the group behind it where the paths agree.
unfoldable pub add_to_groups : ReferenceLine → List ReferenceGroup → List ReferenceGroup
unfolding eqt
add_to_groups ref [] = record { path = ref.path; refs = ref ∷ [] } ∷ []
add_to_groups ref (group ∷ []) =
    if eqt group.path ref.path
    then record group { refs = group.refs ++ ref ∷ [] } ∷ []
    else group ∷ record { path = ref.path; refs = ref ∷ [] } ∷ []
add_to_groups ref (group ∷ next ∷ groups) = group ∷ add_to_groups ref (next ∷ groups)

unfoldable pub group_references : List ReferenceGroup → List ReferenceLine → List ReferenceGroup
unfolding add_to_groups
group_references groups [] = groups
group_references groups (ref ∷ refs) = group_references (add_to_groups ref groups) refs

-- The references that are shown: imports are passed over.
abbrev pub shown_references : List ReferenceLine → List ReferenceLine
shown_references references =
    keep (λ ref. not (is_import_reference ref.snippet)) (dedupe_and_sort_references references)

-- The groups, and how many references they hold.
unfoldable pub compact_references : List ReferenceLine → List ReferenceGroup × ℕ
unfolding group_references dedupe_and_sort_references is_import_reference
compact_references references =
    (group_references [] (shown_references references), length (shown_references references))

abbrev reference_text : ReferenceLine → Text
reference_text ref =
    str "  :" ++ (decimal_ℤ ref.line ++ (str "  " ++ normalize_snippet ref.snippet))

abbrev group_title : ReferenceGroup → Text
group_title group =
    group.path
    ++ (str " ("
        ++ (decimal (length group.refs)
            ++ (str " "
                ++ ((if length group.refs == 1 then str "ref" else str "refs") ++ str ")"))))

abbrev group_lines : List ReferenceGroup → List Text
group_lines [] = []
group_lines (group ∷ groups) =
    group_title group ∷ map reference_text group.refs ++ group_lines groups

unfoldable pub format_references_output : List ReferenceLine → Text → Text
unfolding compact_references decimal trim_space join
format_references_output references fallback_note =
    let compact = compact_references references in
    join (str "\n") (
      (if is_empty fallback_note then [] else fallback_note ∷ [])
      ++ (group_lines compact.0 ++ (decimal compact.1 ++ str " references found") ∷ []))

abbrev candidate_line : SymbolCandidate → Text
candidate_line candidate =
    str "\n  - "
    ++ (candidate.path
        ++ b':' ∷ (decimal_ℤ candidate.line ++ (str " (" ++ (candidate.kind ++ str ")"))))

abbrev all_text : List Text → Text
all_text [] = []
all_text (s ∷ rest) = s ++ all_text rest

-- `quoted` is the symbol as %q prints it.
unfoldable pub format_ambiguous_symbol_error : Text → List SymbolCandidate → Text
unfolding sort before_candidate decimal
format_ambiguous_symbol_error quoted candidates =
    str "ambiguous symbol "
    ++ (quoted
        ++ (str " — "
            ++ (decimal (length candidates)
                ++ (str " definitions found. Use --path to narrow scope."
                    ++ all_text (map candidate_line (sort before_candidate candidates))))))
