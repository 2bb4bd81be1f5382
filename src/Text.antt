-- ===== src/Text.antt =====
-- Go strings as lists of bytes, with what the program uses of Go's `strings`, `path/filepath` and
-- `fmt` packages. These are the standard library's functions, not the repository's.
pub mod Trim
pub mod Order
pub mod Split
pub mod Fields
pub mod FilePath
pub mod Unicode
pub mod Result
use Prim.Native.Char.{code}
use Prim.Native.String.{String}
use codesight.Prelude.{
  ℕ, zero, suc, ◌+◌, ◌-◌, ◌*◌, ◌/◌, ◌%◌, ◌≡◌, refl, ◌↔◌, Bool, true, false, ◌&&◌, ◌||◌, List, [],
  ◌∷◌, ◌++◌, reverse, arith, ltb, leb, ◌==◌, if◌then◌else◌, length, drop, ap, Option, none, some,
}

abbrev pub Text : Type 0
Text = List ℕ

-- The UTF-8 bytes of a code point.
abbrev pub encode : ℕ → Text
encode c =
    if ltb c 0x80
    then c ∷ []
    else if ltb c 0x800
    then (0xC0 + c / 64) ∷ (0x80 + c % 64) ∷ []
    else (0xE0 + c / 4096) ∷ (0x80 + c / 64 % 64) ∷ (0x80 + c % 64) ∷ []

-- A literal of the source, below U+10000.
abbrev pub str : String → Text
str String.[] = []
str (String.◌∷◌ c s) = encode (code c) ++ str s

-- ==
unfoldable pub eqt : Text → Text → Bool
eqt [] [] = true
eqt (a ∷ s) (b ∷ t) = a == b && eqt s t
eqt _ _ = false

-- < on strings, byte by byte
unfoldable pub less_text : Text → Text → Bool
less_text [] [] = false
less_text [] (b ∷ t) = true
less_text (a ∷ s) [] = false
less_text (a ∷ s) (b ∷ t) = ltb a b || a == b && less_text s t

-- strings.HasPrefix, the prefix first
unfoldable pub has_prefix : Text → Text → Bool
has_prefix [] s = true
has_prefix (a ∷ p) [] = false
has_prefix (a ∷ p) (b ∷ s) = a == b && has_prefix p s

-- strings.HasSuffix, the suffix first
unfoldable pub has_suffix : Text → Text → Bool
unfolding has_prefix
has_suffix p s = has_prefix (reverse p) (reverse s)

-- strings.Contains, the part first
unfoldable pub contains : Text → Text → Bool
unfolding has_prefix
contains p [] = has_prefix p []
contains p (c ∷ s) = has_prefix p (c ∷ s) || contains p s

-- Is the byte in the text?
unfoldable pub has_byte : ℕ → Text → Bool
has_byte b [] = false
has_byte b (c ∷ s) = c == b || has_byte b s

-- strings.TrimPrefix, the prefix first
unfoldable pub trim_prefix : Text → Text → Text
unfolding has_prefix
trim_prefix p s = if has_prefix p s then drop (length p) s else s

-- strings.TrimSuffix, the suffix first
unfoldable pub trim_suffix : Text → Text → Text
unfolding trim_prefix
trim_suffix p s = reverse (trim_prefix (reverse p) (reverse s))

-- strings.Count of a byte
unfoldable pub count_byte : ℕ → Text → ℕ
count_byte b [] = 0
count_byte b (c ∷ s) = if c == b then suc (count_byte b s) else count_byte b s

-- The bytes of the white-space runes of Go's unicode.IsSpace, of one, two and three bytes.
abbrev pub white1 : ℕ → Bool
white1 a = leb 9 a && leb a 13 || a == 32

abbrev pub white2 : ℕ → ℕ → Bool
white2 a b = a == 0xC2 && (b == 0x85 || b == 0xA0)

abbrev pub white3 : ℕ → ℕ → ℕ → Bool
white3 a b c =
    a == 0xE1 && b == 0x9A && c == 0x80
    || a == 0xE2 && b == 0x80 && (leb 0x80 c && leb c 0x8A || c == 0xA8 || c == 0xA9 || c == 0xAF)
    || a == 0xE2 && b == 0x81 && c == 0x9F
    || a == 0xE3 && b == 0x80 && c == 0x80

-- The width of the white-space rune in front, 0 where there is none.
unfoldable pub space_width : Text → ℕ
space_width [] = 0
space_width (a ∷ []) = if white1 a then 1 else 0
space_width (a ∷ b ∷ []) = if white1 a then 1 else if white2 a b then 2 else 0
space_width (a ∷ b ∷ c ∷ s) =
    if white1 a then 1 else if white2 a b then 2 else if white3 a b c then 3 else 0

-- The same at the end of a text that is given backwards.
unfoldable pub space_width_back : Text → ℕ
space_width_back [] = 0
space_width_back (a ∷ []) = if white1 a then 1 else 0
space_width_back (b ∷ a ∷ []) = if white1 b then 1 else if white2 a b then 2 else 0
space_width_back (c ∷ b ∷ a ∷ s) =
    if white1 c then 1 else if white2 b c then 2 else if white3 a b c then 3 else 0

-- Drop runes from the front while they are white. Each round drops a byte at least.
unfoldable pub skip_white : (Text → ℕ) → ℕ → Text → Text
skip_white width zero s = s
skip_white width (suc f) s = elim (width s) [
  | zero ↦ s
  | suc w ↦ skip_white width f (drop (suc w) s)
]

unfoldable pub trim_left : Text → Text
unfolding skip_white space_width
trim_left s = skip_white space_width (length s) s

unfoldable pub trim_right : Text → Text
unfolding skip_white space_width_back
trim_right s = reverse (skip_white space_width_back (length s) (reverse s))

-- strings.TrimSpace
unfoldable pub trim_space : Text → Text
unfolding trim_left trim_right
trim_space s = trim_right (trim_left s)

abbrev cons_head : ℕ → List Text → List Text
cons_head c [] = (c ∷ []) ∷ []
cons_head c (p ∷ ps) = (c ∷ p) ∷ ps

-- strings.Split by one byte
unfoldable pub split : ℕ → Text → List Text
split b [] = [] ∷ []
split b (c ∷ s) = let parts = split b s in if c == b then [] ∷ parts else cons_head c parts

-- strings.Join, the separator first
unfoldable pub join : Text → List Text → Text
join sep [] = []
join sep (x ∷ []) = x
join sep (x ∷ y ∷ xs) = x ++ (sep ++ join sep (y ∷ xs))

-- strings.Cut at the first byte `b`
unfoldable pub cut : ℕ → Text → Option (Text × Text)
cut b [] = none
cut b (c ∷ s) =
    if c == b
    then some ([], s)
    else elim (cut b s) [ none ↦ none | some (before, after) ↦ some (c ∷ before, after) ]

-- The decimal digits of a number (%d). The fuel is the number and one more.
unfoldable pub digits : ℕ → ℕ → Text
digits zero n = []
digits (suc f) n =
    let high = digits f (n / 10) in if ltb n 10 then (48 + n) ∷ [] else high ++ (48 + n % 10) ∷ []

unfoldable pub decimal : ℕ → Text
unfolding digits
decimal n = digits (suc n) n

pub eqt_refl : (s : Text) → eqt s s ≡ true
unfolding eqt
eqt_refl [] = refl
eqt_refl (a ∷ s) = ground (arith, eqt_refl s)

pub eqt→eq : (s t : Text) → eqt s t ≡ true → s ≡ t
unfolding eqt
eqt→eq [] [] h = refl
eqt→eq [] (b ∷ t) h = cc
eqt→eq (a ∷ s) [] h = cc
eqt→eq (a ∷ s) (b ∷ t) h = ground (arith, eqt→eq s t)

pub eqt_sym : (s t : Text) → eqt s t ≡ eqt t s
unfolding eqt
eqt_sym [] [] = refl
eqt_sym [] (b ∷ t) = refl
eqt_sym (a ∷ s) [] = refl
eqt_sym (a ∷ s) (b ∷ t) = ground (arith, eqt_sym s t)

pub eqt_iff : (s t : Text) → (eqt s t ≡ true) ↔ (s ≡ t)
eqt_iff s t = (eqt→eq s t, λ e. rw e (eqt_refl t))
