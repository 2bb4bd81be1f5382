-- ===== src/Splitter.antt =====
-- pkg/splitter/splitter.go and pkg/splitter/fallback.go: chunks of code, and the splitter by lines
-- with overlap that serves every language.
pub mod Cover
pub mod Language
mod Examples
use codesight.Prelude.{
  ℕ, zero, suc, ◌+◌, ◌-◌, ◌/◌, ◌≤◌, ◌<◌, ◌≡◌, refl, Bool, true, false, List, [], ◌∷◌, arith, ltb,
  leb, ◌==◌, ◌%◌, ◌^◌, ◌&&◌, if◌then◌else◌, length, take, drop, Option, none, some,
}
use codesight.Prelude.Int.{ℤ, pos, negsuc, ltb_ℤ, leb_ℤ, pos_part, to_int64}
use codesight.Text.{Text, str, trim_space, split, join}

pub record Chunk : Type 0 where
  pub content : Text
  pub file_path : Text
  pub start_line : ℕ
  pub end_line : ℕ
  pub language : Text
  pub node_type : Text

pub record FallbackSplitter : Type 0 where
  pub chunk_size : ℕ
  pub overlap : ℕ

-- A chunk size that is not positive becomes 80.
abbrev sane_size : ℤ → ℕ
sane_size (pos zero) = 80
sane_size (pos (suc n)) = suc n
sane_size (negsuc n) = 80

-- A negative overlap becomes 0.
abbrev sane_overlap : ℤ → ℕ
sane_overlap (pos n) = n
sane_overlap (negsuc n) = 0

unfoldable pub new_fallback_splitter : ℤ → ℤ → FallbackSplitter
new_fallback_splitter chunk_size overlap =
    let size = sane_size chunk_size in
    let wanted = sane_overlap overlap in
    record { chunk_size = size; overlap = if leb size wanted then size / 4 else wanted }

abbrev pub newline : ℕ
newline = 10

abbrev is_blank : Text → Bool
is_blank s = elim (trim_space s) [ [] ↦ true | c ∷ t ↦ false ]

abbrev add_chunk : Chunk → Option (List Chunk) → Option (List Chunk)
add_chunk c none = none
add_chunk c (some chunks) = some (c ∷ chunks)

module _ (f : FallbackSplitter) where
  -- The distance between the starts of two windows, 1 at least.
  abbrev pub step : ℕ
  step = if leb (f.chunk_size - f.overlap) 0 then 1 else f.chunk_size - f.overlap

  -- The end of the window at line index `i`; the sum is that of Go's int, which wraps, so that the
  -- end may be negative.
  abbrev pub window_end : List Text → ℕ → ℤ
  window_end lines i =
      let end = to_int64 ((i + f.chunk_size) % 2 ^ 64) in
      if ltb_ℤ (pos (length lines)) end then pos (length lines) else end

  -- lines[i:end], joined; none is the panic of a slice out of range.
  abbrev pub slice : List Text → ℕ → ℤ → Option Text
  slice lines i (negsuc n) = none
  slice lines i (pos end) =
      if leb i end && leb end (length lines)
      then some (join (newline ∷ []) (take (end - i) (drop i lines)))
      else none

  abbrev chunk_at : List Text → Text → Text → ℕ → ℤ → Text → Chunk
  chunk_at lines language file_path i end content = record {
    content = content;
    file_path = file_path;
    start_line = i + 1;
    end_line = pos_part end;
    language = language;
    node_type = str "block";
  }

  -- The chunk of a window, if it is not blank, before the rest; a window that reaches the end is the
  -- last.
  abbrev with_window :
      List Text → Text → Text → ℕ → ℤ → Option Text → Option (List Chunk) → Option (List Chunk)
  with_window lines language file_path i end none rest = none
  with_window lines language file_path i end (some content) rest =
      if is_blank content
      then rest
      else add_chunk (chunk_at lines language file_path i end content)
          (if leb_ℤ (pos (length lines)) end then some [] else rest)

  -- The loop, on fuel; none is a panic. A blank window is passed over, and does not end the loop. A
  -- step beyond the greatest int gives a negative index, at which the slice panics.
  unfoldable pub split_loop : ℕ → List Text → Text → Text → ℕ → Option (List Chunk)
  split_loop zero lines language file_path i = some []
  split_loop (suc fuel) lines language file_path i =
      let rest =
        if ltb (i + step) (2 ^ 63)
        then split_loop fuel lines language file_path (i + step)
        else none in
      if ltb i (length lines)
      then with_window lines language file_path i (window_end lines i)
          (slice lines i (window_end lines i)) rest
      else some []

  -- FallbackSplitter.Split; its error is always nil, and none is a panic.
  unfoldable pub split_code : Text → Text → Text → Option (List Chunk)
  unfolding split_loop split
  split_code code language file_path =
      let lines = split newline code in split_loop (length lines) lines language file_path 0
