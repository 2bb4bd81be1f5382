-- ===== src/Lsp/Framing/RoundTrip.antt =====
-- What is written as a message is read back, and what follows it is left.
use codesight.Prelude.{
  ℕ, zero, suc, ◌+◌, ◌-◌, ◌*◌, ◌/◌, ◌%◌, ◌^◌, ◌<◌, ◌≡◌, ◌≢◌, refl, sym, ap, subst, ◌∙◌, Bool, true,
  false, ◌||◌, [], ◌∷◌, ◌++◌, reverse, append_assoc, arith, length, length-append, take, drop, any,
  not, All, All-append, ltb, ◌==◌, Bool-cases, inl, inr, some,
}
use mathlib.Core.List.{reverse-append}
use codesight.Prelude.Int.{ℤ, pos, negsuc}
use codesight.Text.{
  Text, str, eqt, cut, digits, decimal, trim_space, space_width, space_width_back, trim_left,
  trim_right, skip_white,
}
use codesight.Text.Trim.{trim_space-fixed}
use codesight.Text.FilePath.{is_empty}
use codesight.Text.Unicode.{Unicode}
use codesight.Lsp.Framing.{
  message, length_is, is_digit, digits_value, atoi, trim_line, read_payload, header_line,
  read_headers, read_lsp_message, write_lsp_message,
}

abbrev IsDigit : ℕ → Type 0
IsDigit c = is_digit c ≡ true

digits-IsDigit : (f n : ℕ) → All IsDigit (digits f n)
unfolding digits
digits-IsDigit zero n = tt
digits-IsDigit (suc f) n = elim (Bool-cases (ltb n 10)) [
  | inl e ↦ rw e (ground arith, tt)
  | inr e ↦ rw e (All-append _ (digits f (n / 10)) _ (digits-IsDigit f (n / 10)) (ground arith, tt))
]

digits_value-snoc :
    (read v : ℕ) (s : Text) (c : ℕ)
    → digits_value read s ≡ some v
    → is_digit c ≡ true
    → digits_value read (s ++ c ∷ []) ≡ some (v * 10 + (c - 48))
unfolding digits_value
digits_value-snoc read v [] c h d = ground arith
digits_value-snoc read v (x ∷ s) c h d =
    ground (arith, digits_value-snoc (read * 10 + (x - 48)) v s c)

absurd : (n : ℕ) → n < 0 → ⊥
absurd n h = omega arith

digits_value-digits : (f n : ℕ) → n < f → digits_value 0 (digits f n) ≡ some n
unfolding digits digits_value
digits_value-digits zero n h = elim (absurd n h) [ ]
digits_value-digits (suc f) n h = elim (Bool-cases (ltb n 10)) [
  | inl e ↦ rw e (ground arith)
  | inr e ↦ rw e (
      digits_value-snoc 0 (n / 10) (digits f (n / 10)) (48 + n % 10)
        (digits_value-digits f (n / 10) (ground arith)) (ground arith)
      ∙ ap some (omega arith))
]

-- A digit in front is neither white space nor a sign.
space_width-digit : (c : ℕ) (s : Text) → is_digit c ≡ true → space_width (c ∷ s) ≡ 0
unfolding space_width
space_width-digit c [] h = ground arith
space_width-digit c (a ∷ []) h = ground arith
space_width-digit c (a ∷ b ∷ s) h = ground arith

space_width_back-digit : (c : ℕ) (s : Text) → is_digit c ≡ true → space_width_back (c ∷ s) ≡ 0
unfolding space_width_back
space_width_back-digit c [] h = ground arith
space_width_back-digit c (a ∷ []) h = ground arith
space_width_back-digit c (a ∷ b ∷ s) h = ground arith

space_width_back-nil : space_width_back [] ≡ 0
unfolding space_width_back
space_width_back-nil = refl

space_width-nil : space_width [] ≡ 0
unfolding space_width
space_width-nil = refl

back-digits : (s : Text) → All IsDigit s → space_width_back s ≡ 0
back-digits [] h = space_width_back-nil
back-digits (c ∷ s) h = space_width_back-digit c s h.0

front-digits : (s : Text) → All IsDigit s → space_width s ≡ 0
front-digits [] h = space_width-nil
front-digits (c ∷ s) h = space_width-digit c s h.0

All-reverse_digits : (s : Text) → All IsDigit s → All IsDigit (reverse s)
All-reverse_digits [] h = tt
All-reverse_digits (c ∷ s) h =
    subst (All IsDigit) (sym (reverse-append (c ∷ []) s))
      (All-append _ (reverse s) (c ∷ []) (All-reverse_digits s h.1) (h.0, tt))

trim_left-space : (s : Text) → trim_left (32 ∷ s) ≡ trim_left s
unfolding trim_left skip_white space_width
trim_left-space [] = refl
trim_left-space (a ∷ []) = refl
trim_left-space (a ∷ b ∷ s) = refl

-- The value of the header: one blank, and digits.
trim_space-digits : (s : Text) → All IsDigit s → trim_space (32 ∷ s) ≡ s
unfolding trim_space
trim_space-digits s h =
    ap trim_right (trim_left-space s)
    ∙ trim_space-fixed s (front-digits s h) (back-digits (reverse s) (All-reverse_digits s h))

atoi-digits :
    (s : Text) (n : ℕ)
    → All IsDigit s
    → digits_value 0 s ≡ some n
    → s ≢ []
    → n < 2 ^ 63
    → atoi s ≡ some (pos n)
unfolding atoi
atoi-digits [] n h e ne l = elim (ne refl) [ ]
atoi-digits (c ∷ s) n h e ne l = ground (arith, h.0, e)

-- A byte that ends no line.
abbrev is_plain : ℕ → Bool
is_plain c = not (c == 13 || c == 10)

IsPlain-all : (s : Text) → any (λ c. not (is_plain c)) s ≡ false → All (λ c. is_plain c ≡ true) s
IsPlain-all [] h = tt
IsPlain-all (c ∷ s) h = (ground arith, IsPlain-all s (ground arith))

digits-IsPlain : (s : Text) → All IsDigit s → All (λ c. is_plain c ≡ true) s
digits-IsPlain [] h = tt
digits-IsPlain (c ∷ s) h = (ground (arith, h.0), digits-IsPlain s h.1)

cut_line :
    (s t : Text)
    → All (λ c. is_plain c ≡ true) s
    → cut 10 (s ++ 13 ∷ 10 ∷ t) ≡ some (s ++ 13 ∷ [], t)
unfolding cut
cut_line [] t h = refl
cut_line (c ∷ s) t h = rw (cut_line s t h.1) (ground (arith, h.0))

trim_line_plain :
    (s : Text) → All (λ c. is_plain c ≡ true) s → trim_line ((s ++ 13 ∷ []) ++ 10 ∷ []) ≡ s
unfolding trim_line
trim_line_plain [] h = refl
trim_line_plain (c ∷ s) h = rw (trim_line_plain s h.1) (ground (arith, h.0))

take-all : (p rest : Text) → take (length p) (p ++ rest) ≡ p
take-all [] rest = refl
take-all (c ∷ p) rest = ap (λ q. c ∷ q) (take-all p rest)

drop-all : (p rest : Text) → drop (length p) (p ++ rest) ≡ rest
drop-all [] rest = refl
drop-all (c ∷ p) rest = drop-all p rest

not_short : (p rest : Text) → ltb (length (p ++ rest)) (length p) ≡ false
not_short p rest = ground (arith, length-append p rest)

read_payload-all : (p rest : Text) → read_payload (pos (length p)) (p ++ rest) ≡ message p rest
unfolding read_payload
read_payload-all p rest = rw (not_short p rest) (rw (take-all p rest) (rw (drop-all p rest) refl))

-- The name of the header, and its length.
header_line-digits :
    (unicode : Unicode) (known : ℤ) (s : Text) (n : ℕ)
    → unicode.to_lower (str "Content-Length") ≡ str "content-length"
    → All IsDigit s
    → digits_value 0 s ≡ some n
    → s ≢ []
    → n < 2 ^ 63
    → header_line unicode known (str "Content-Length") (32 ∷ s) ≡ length_is (pos n)
unfolding header_line trim_space eqt
header_line-digits unicode known s n lower h e ne l =
    rw lower (rw (trim_space-digits s h) (rw (atoi-digits s n h e ne l) (ground arith)))

abbrev header_name : Text
header_name = str "Content-Length: "

-- The line of the header, with its digits.
header_line-cut :
    (s t : Text)
    → All IsDigit s
    → cut 10 (header_name ++ (s ++ 13 ∷ 10 ∷ t)) ≡ some (header_name ++ (s ++ 13 ∷ []), t)
header_line-cut s t h =
    cut_line (header_name ++ s) t
      (All-append _ header_name s (IsPlain-all header_name refl) (digits-IsPlain s h))

header_line-trim :
    (s : Text)
    → All IsDigit s
    → trim_line ((header_name ++ (s ++ 13 ∷ [])) ++ 10 ∷ []) ≡ header_name ++ s
header_line-trim s h =
    trim_line_plain (header_name ++ s)
      (All-append _ header_name s (IsPlain-all header_name refl) (digits-IsPlain s h))

header_line-name : (s : Text) → cut 58 (header_name ++ s) ≡ some (str "Content-Length", 32 ∷ s)
unfolding cut
header_line-name s = refl

-- The empty line ends the header.
read_headers-end :
    (unicode : Unicode) (f : ℕ) (p rest : Text)
    → read_headers unicode (suc f) (pos (length p)) (13 ∷ 10 ∷ (p ++ rest)) ≡ message p rest
unfolding read_headers trim_line cut
read_headers-end unicode f p rest = read_payload-all p rest

-- One round: a line with a length.
read_headers-line :
    (unicode : Unicode) (f : ℕ) (known n : ℤ) (stream line rest trimmed name value : Text)
    → cut 10 stream ≡ some (line, rest)
    → trim_line (line ++ 10 ∷ []) ≡ trimmed
    → is_empty trimmed ≡ false
    → cut 58 trimmed ≡ some (name, value)
    → header_line unicode known name value ≡ length_is n
    → read_headers unicode (suc f) known stream ≡ read_headers unicode f n rest
unfolding read_headers
read_headers-line unicode f known n stream line rest trimmed name value h t ne c l =
    rw (read_headers, h) (rw (read_headers, t) (rw ne (rw c (rw l refl))))

read-digits :
    (unicode : Unicode) (f : ℕ) (s p rest : Text)
    → unicode.to_lower (str "Content-Length") ≡ str "content-length"
    → All IsDigit s
    → digits_value 0 s ≡ some (length p)
    → s ≢ []
    → length p < 2 ^ 63
    → read_headers unicode
        (suc (suc f))
        (negsuc 0)
        (header_name ++ (s ++ 13 ∷ 10 ∷ 13 ∷ 10 ∷ (p ++ rest)))
      ≡ message p rest
read-digits unicode f s p rest lower h e ne l =
    read_headers-line unicode (suc f) (negsuc 0) (pos (length p)) _ _ (13 ∷ 10 ∷ (p ++ rest)) _ _ _
      (header_line-cut s (13 ∷ 10 ∷ (p ++ rest)) h) (header_line-trim s h) refl (header_line-name s)
      (header_line-digits unicode (negsuc 0) s (length p) lower h e ne l)
    ∙ read_headers-end unicode f p rest

snoc-ne-nil : (s : Text) (c : ℕ) → s ++ c ∷ [] ≢ []
snoc-ne-nil [] c e = cc
snoc-ne-nil (x ∷ s) c e = cc

digits-ne-nil : (f n : ℕ) → digits (suc f) n ≢ []
unfolding digits
digits-ne-nil f n = elim (Bool-cases (ltb n 10)) [
  | inl e ↦ rw e (λ h. cc)
  | inr e ↦ rw e (snoc-ne-nil (digits f (n / 10)) (48 + n % 10))
]

write-stream :
    (p rest : Text)
    → write_lsp_message p ++ rest
      ≡ header_name ++ (decimal (length p) ++ 13 ∷ 10 ∷ 13 ∷ 10 ∷ (p ++ rest))
unfolding write_lsp_message
write-stream p rest =
    ap (λ s. header_name ++ s) (append_assoc (decimal (length p)) (13 ∷ 10 ∷ 13 ∷ 10 ∷ p) rest)

decimal-digits : (n : ℕ) → decimal n ≡ digits (suc n) n
unfolding decimal
decimal-digits n = refl

read-stream :
    (unicode : Unicode) (s : Text)
    → read_lsp_message unicode s ≡ read_headers unicode (length s) (negsuc 0) s
unfolding read_lsp_message
read-stream unicode s = refl

-- A message of less than 2^63 bytes that is written to a stream is read back from it, and what follows
-- it on the stream is left to be read.
pub read_lsp_message-write_lsp_message :
    (unicode : Unicode) (payload rest : Text)
    → unicode.to_lower (str "Content-Length") ≡ str "content-length"
    → length payload < 2 ^ 63
    → read_lsp_message unicode (write_lsp_message payload ++ rest) ≡ message payload rest
read_lsp_message-write_lsp_message unicode payload rest lower l =
    let n = length payload in
    let ds = digits (suc n) n in
    ap (read_lsp_message unicode) (
      write-stream payload rest
      ∙ ap (λ s. header_name ++ (s ++ 13 ∷ 10 ∷ 13 ∷ 10 ∷ (payload ++ rest))) (decimal-digits n))
    ∙ read-stream unicode _
    ∙ read-digits unicode _ ds payload rest lower (digits-IsDigit (suc n) n)
        (digits_value-digits (suc n) n (omega arith)) (digits-ne-nil n n) l
