-- ===== src/Splitter/Examples.antt =====
-- Runs of the fallback splitter, and its theorem at a concrete input.
use codesight.Prelude.{
  ℕ, ◌+◌, ◌-◌, ◌^◌, ◌<◌, ◌≡◌, ◌⊎◌, refl, List, [], ◌∷◌, arith, length, map, All, Option, none, some,
}
use codesight.Prelude.Int.{pos, negsuc}
use codesight.Text.{Text, str, split, join, trim_space}
use codesight.Splitter.{Chunk, new_fallback_splitter, split_code, newline}
use codesight.Splitter.Cover.{
  IsChunk, Covered, InBlank, split_code-Covered, IsSane, new_fallback_splitter-IsSane,
}

abbrev five_lines : Text
five_lines = str "a\nb\n\n\nc"

abbrev span : Chunk → ℕ × ℕ
span c = (c.start_line, c.end_line)

abbrev spans : Option (List Chunk) → Option (List (ℕ × ℕ))
spans none = none
spans (some chunks) = some (map span chunks)

two_by_one :
    spans (split_code (new_fallback_splitter (pos 2) (pos 0)) five_lines (str "go") (str "x.go"))
    ≡ some ((1, 2) ∷ (5, 5) ∷ [])
unfolding split_code new_fallback_splitter trim_space join
two_by_one = refl

overlapping :
    spans (split_code (new_fallback_splitter (pos 3) (pos 1)) five_lines (str "go") (str "x.go"))
    ≡ some ((1, 3) ∷ (3, 5) ∷ [])
unfolding split_code new_fallback_splitter trim_space join
overlapping = refl

-- A size and an overlap at the end of the range of an int: the sum wraps, and the slice panics.
wrapped :
    split_code
      (new_fallback_splitter (pos (2 ^ 63 - 1)) (pos (2 ^ 63 - 2)))
      (str "\n")
      (str "go")
      (str "x.go")
    ≡ none
unfolding split_code new_fallback_splitter trim_space join
wrapped = refl

third_in_file : 4 < length (split newline five_lines)
unfolding split
third_in_file = omega arith

small_enough :
    length (split newline five_lines) + (new_fallback_splitter (pos 2) (negsuc 3)).chunk_size
    < 2 ^ 63
unfolding split new_fallback_splitter
small_enough = omega arith

split_code-Covered_example :
    (let f = new_fallback_splitter (pos 2) (negsuc 3) in
      (chunks : List Chunk) × (split_code f five_lines (str "go") (str "x.go") ≡ some chunks)
      × All (IsChunk f (split newline five_lines)) chunks
      × (Covered 4 chunks ⊎ InBlank f (split newline five_lines) 4))
split_code-Covered_example =
    split_code-Covered (pos 2) (negsuc 3) five_lines (str "go") (str "x.go") 4 small_enough
      third_in_file

new_fallback_splitter-IsSane_example : IsSane (new_fallback_splitter (pos 8) (pos 9))
new_fallback_splitter-IsSane_example = new_fallback_splitter-IsSane (pos 8) (pos 9)
