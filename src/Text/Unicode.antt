-- ===== src/Text/Unicode.antt =====
-- The part of Go's Unicode tables that the program asks for: a parameter of the model. The decoding
-- of UTF-8 is written out.
use codesight.Prelude.{
  ℕ, suc, zero, ◌+◌, ◌-◌, ◌*◌, Bool, List, [], ◌∷◌, leb, ltb, ◌&&◌, ◌||◌, if◌then◌else◌, drop, map,
}
use codesight.Text.{Text}

pub record Unicode : Type 0 where
  pub to_lower : Text → Text
  pub is_letter : ℕ → Bool
  pub is_digit : ℕ → Bool
  pub is_upper : ℕ → Bool

-- U+FFFD, of an invalid byte
abbrev pub rune_error : ℕ
rune_error = 0xFFFD

abbrev is_follow : ℕ → Bool
is_follow b = leb 0x80 b && leb b 0xBF

abbrev rune2 : ℕ → ℕ → ℕ × ℕ
rune2 a b = if is_follow b then ((a - 0xC0) * 64 + (b - 0x80), 2) else (rune_error, 1)

abbrev rune3 : ℕ → ℕ → ℕ → ℕ × ℕ
rune3 a b c =
    let r : ℕ = (a - 0xE0) * 4096 + (b - 0x80) * 64 + (c - 0x80) in
    if is_follow b && is_follow c && leb 0x800 r && (ltb r 0xD800 || ltb 0xDFFF r)
    then (r, 3)
    else (rune_error, 1)

abbrev rune4 : ℕ → ℕ → ℕ → ℕ → ℕ × ℕ
rune4 a b c d =
    let r : ℕ = (a - 0xF0) * 262144 + (b - 0x80) * 4096 + (c - 0x80) * 64 + (d - 0x80) in
    if is_follow b && is_follow c && is_follow d && leb 0x10000 r && leb r 0x10FFFF
    then (r, 4)
    else (rune_error, 1)

-- The first rune and its width (utf8.DecodeRuneInString), of a first byte and the rest.
abbrev pub first_rune : ℕ → Text → ℕ × ℕ
first_rune a (b ∷ c ∷ d ∷ s) =
    if ltb a 0x80
    then (a, 1)
    else if leb 0xC2 a && leb a 0xDF
    then rune2 a b
    else if leb 0xE0 a && leb a 0xEF
    then rune3 a b c
    else if leb 0xF0 a && leb a 0xF4
    then rune4 a b c d
    else (rune_error, 1)
first_rune a (b ∷ c ∷ []) =
    if ltb a 0x80
    then (a, 1)
    else if leb 0xC2 a && leb a 0xDF
    then rune2 a b
    else if leb 0xE0 a && leb a 0xEF
    then rune3 a b c
    else (rune_error, 1)
first_rune a (b ∷ []) =
    if ltb a 0x80 then (a, 1) else if leb 0xC2 a && leb a 0xDF then rune2 a b else (rune_error, 1)
first_rune a [] = if ltb a 0x80 then (a, 1) else (rune_error, 1)

-- `for _, r := range s`
unfoldable pub runes : ℕ → Text → List ℕ
runes f [] = []
runes zero (a ∷ s) = []
runes (suc f) (a ∷ s) = let (r, w) = first_rune a s in r ∷ runes f (drop (w - 1) s)

-- Tables for ASCII only, for runs of the model.
abbrev pub ascii : Unicode
ascii = record {
  to_lower = map (λ c. if leb b'A' c && leb c b'Z' then c + 32 else c);
  is_letter = λ c. leb b'A' c && leb c b'Z' || leb b'a' c && leb c b'z';
  is_digit = λ c. leb b'0' c && leb c b'9';
  is_upper = λ c. leb b'A' c && leb c b'Z';
}
