-- ===== src/Text/Fields.antt =====
-- strings.Fields.
use codesight.Prelude.{ℕ, zero, suc, ◌≡◌, refl, List, [], ◌∷◌, reverse, drop, length}
use codesight.Text.{Text, str, space_width}

-- The word that is collected, in front of the other words, if it is one.
abbrev end_word : Text → List Text → List Text
end_word [] words = words
end_word (c ∷ s) words = reverse (c ∷ s) ∷ words

-- The collected bytes are given backwards. Each round drops a byte at least.
unfoldable pub fields_from : ℕ → Text → Text → List Text
fields_from zero word s = end_word word []
fields_from (suc f) word [] = end_word word []
fields_from (suc f) word (c ∷ s) = elim (space_width (c ∷ s)) [
  | zero ↦ fields_from f (c ∷ word) s
  | suc w ↦ end_word word (fields_from f [] (drop w s))
]

unfoldable pub fields : Text → List Text
unfolding fields_from space_width
fields s = fields_from (length s) [] s

two_words : fields (str " a  bc\n") ≡ str "a" ∷ str "bc" ∷ []
unfolding fields
two_words = refl
