-- ===== src/Lsp/Framing.antt =====
-- pkg/lsp/client.go: the framing of messages. A stream is the list of the bytes that are still to be
-- read; its end is the end of the file. strconv.Atoi is written out for an int of 64 bits.
pub mod RoundTrip
mod Examples
use codesight.Prelude.{
  ℕ, zero, suc, ◌+◌, ◌-◌, ◌*◌, ◌^◌, ◌≡◌, Bool, true, false, not, ◌&&◌, ◌||◌, List, [], ◌∷◌, ◌++◌,
  length, take, drop, ltb, leb, ◌==◌, if◌then◌else◌, Option, none, some,
}
use codesight.Prelude.Int.{ℤ, pos, negsuc, ltb_ℤ}
use codesight.Text.{Text, str, eqt, cut, trim_space, decimal}
use codesight.Text.FilePath.{is_empty}
use codesight.Text.Unicode.{Unicode}

unfoldable pub write_lsp_message : Text → Text
unfolding decimal
write_lsp_message payload =
    str "Content-Length: " ++ (decimal (length payload) ++ (str "\r\n\r\n" ++ payload))

-- How a read ends without a message.
pub data ReadError : Type 0 where
  end_of_stream : ReadError
  malformed_header : Text → ReadError
  invalid_length : Text → ReadError
  negative_length : Text → ReadError
  missing_length : ReadError

pub data ReadResult : Type 0 where
  message : Text → Text → ReadResult
  read_error : ReadError → ReadResult

abbrev pub is_digit : ℕ → Bool
is_digit c = leb 48 c && leb c 57

-- The value of digits behind those that are read already.
unfoldable pub digits_value : ℕ → Text → Option ℕ
digits_value read [] = some read
digits_value read (c ∷ s) =
    let rest = digits_value (read * 10 + (c - 48)) s in if is_digit c then rest else none

abbrev in_range : ℕ → (ℕ → ℤ) → Option ℕ → Option ℤ
in_range limit sign none = none
in_range limit sign (some n) = if ltb n limit then some (sign n) else none

abbrev negative : ℕ → ℤ
negative zero = pos 0
negative (suc n) = negsuc n

abbrev unsigned : Text → (ℕ → ℤ) → ℕ → Option ℤ
unsigned [] sign limit = none
unsigned (c ∷ s) sign limit = in_range limit sign (digits_value 0 (c ∷ s))

-- strconv.Atoi
unfoldable pub atoi : Text → Option ℤ
unfolding digits_value
atoi [] = none
atoi (c ∷ s) =
    if c == b'-'
    then unsigned s negative (2 ^ 63 + 1)
    else if c == b'+'
    then unsigned s pos (2 ^ 63)
    else unsigned (c ∷ s) pos (2 ^ 63)

-- strings.TrimRight with the set "\r\n"
unfoldable pub trim_line : Text → Text
trim_line [] = []
trim_line (c ∷ s) =
    let rest = trim_line s in if is_empty rest && (c == b'\r' || c == b'\n') then [] else c ∷ rest

-- io.ReadFull of the payload; without a header there is no length.
unfoldable pub read_payload : ℤ → Text → ReadResult
read_payload (negsuc n) stream = read_error missing_length
read_payload (pos n) stream =
    if ltb (length stream) n
    then read_error end_of_stream
    else message (take n stream) (drop n stream)

-- What a header line says: the length that is known behind it, or an error.
pub data HeaderLine : Type 0 where
  length_is : ℤ → HeaderLine
  bad_line : ReadError → HeaderLine

module _ (unicode : Unicode) where
  -- A negative length is an error, as is one that is no number.
  abbrev checked_length : Text → Option ℤ → HeaderLine
  checked_length value none = bad_line (invalid_length value)
  checked_length value (some n) =
      if ltb_ℤ n (pos 0) then bad_line (negative_length value) else length_is n

  -- A header of another name changes nothing.
  unfoldable pub header_line : ℤ → Text → Text → HeaderLine
  unfolding trim_space eqt atoi
  header_line known name value =
      if eqt (trim_space (unicode.to_lower name)) (str "content-length")
      then checked_length (trim_space value) (atoi (trim_space value))
      else length_is known

  -- The loop over the header lines. Each takes a byte at least, so that the length of the stream is
  -- fuel enough: without fuel the stream is at its end.
  unfoldable pub read_headers : ℕ → ℤ → Text → ReadResult
  unfolding cut trim_line header_line read_payload
  read_headers zero known stream = read_error end_of_stream
  read_headers (suc f) known stream = elim (cut b'\n' stream) [
    | none ↦ read_error end_of_stream
    | some (line, rest) ↦
        let trimmed = trim_line (line ++ b'\n' ∷ []) in
        if is_empty trimmed then read_payload known rest else elim (cut b':' trimmed) [
          | none ↦ read_error (malformed_header trimmed)
          | some (name, value) ↦ elim (header_line known name value) [
            | bad_line failure ↦ read_error failure
            | length_is n ↦ read_headers f n rest
          ]
        ]
  ]

  unfoldable pub read_lsp_message : Text → ReadResult
  unfolding read_headers
  read_lsp_message stream = read_headers (length stream) (negsuc zero) stream
