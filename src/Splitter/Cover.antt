-- ===== src/Splitter/Cover.antt =====
-- What the fallback splitter promises: proper chunks, and no line lost but in blank windows.
use codesight.Prelude.{
  ℕ, zero, suc, ◌+◌, ◌-◌, ◌^◌, ◌≤◌, ◌<◌, ◌≡◌, refl, true, false, ◌&&◌, ◌⊎◌, inl, inr, List, [], ◌∷◌,
  arith, ltb, leb, min, length, take, drop, All, Bool-cases, if_both, if_true, if◌then◌else◌,
  lt→ltb, ltb→lt, some,
}
use codesight.Prelude.Int.{ℤ, pos, negsuc, leb_ℤ}
use codesight.Text.{Text, split, join}
use codesight.Splitter.{
  Chunk, FallbackSplitter, new_fallback_splitter, step, window_end, slice, chunk_at, with_window,
  is_blank, split_loop, split_code, newline,
}

-- A splitter whose windows are not empty and overlap by less than a window.
pub record IsSane (f : FallbackSplitter) : Type 0 where
  pub some_lines : 1 ≤ f.chunk_size
  pub less_overlap : f.overlap < f.chunk_size

-- Every pair of settings, negative ones and overlaps above the size included, makes a sane splitter.
pub new_fallback_splitter-IsSane : (size overlap : ℤ) → IsSane (new_fallback_splitter size overlap)
unfolding new_fallback_splitter
new_fallback_splitter-IsSane (pos zero) overlap = ground arith
new_fallback_splitter-IsSane (pos (suc n)) overlap = ground arith
new_fallback_splitter-IsSane (negsuc n) overlap = ground arith

-- The end of the window at line index `i`, and its text, in unbounded numbers.
abbrev pub last_line : FallbackSplitter → List Text → ℕ → ℕ
last_line f lines i = min (i + f.chunk_size) (length lines)

abbrev pub window : FallbackSplitter → List Text → ℕ → Text
window f lines i = join (newline ∷ []) (take (last_line f lines i - i) (drop i lines))

-- A chunk of a text of `n` lines: a run of lines, no longer than the window, and not blank.
pub record IsChunk (f : FallbackSplitter) (lines : List Text) (c : Chunk) : Type 0 where
  pub start : ℕ
  pub starts : c.start_line ≡ start + 1
  pub ends : c.end_line ≡ last_line f lines start
  pub forward : c.start_line ≤ c.end_line
  pub inside : c.end_line ≤ length lines
  pub small : c.end_line ≤ start + f.chunk_size
  pub text : c.content ≡ window f lines start
  pub not_blank : is_blank c.content ≡ false

-- Line index `j` stands in one of the chunks.
abbrev pub Covered : ℕ → List Chunk → Type 0
Covered j [] = ⊥
Covered j (c ∷ cs) = ((c.start_line ≤ suc j) × (suc j ≤ c.end_line)) ⊎ Covered j cs

-- Line index `j` stands in a window of white space.
pub record InBlank (f : FallbackSplitter) (lines : List Text) (j : ℕ) : Type 0 where
  pub start : ℕ
  pub from_start : start ≤ j
  pub before_end : j < last_line f lines start
  pub blank : is_blank (window f lines start) ≡ true

module _ (f : FallbackSplitter) (sane : IsSane f) (lines : List Text)
    (language file_path : Text) where
  step_bounds : (1 ≤ step f) × (step f ≤ f.chunk_size)
  step_bounds = ground arith

  abbrev plain_chunk : ℕ → Chunk
  plain_chunk i =
      chunk_at f lines language file_path i (pos (last_line f lines i)) (window f lines i)

  -- The loop in unbounded numbers.
  unfoldable plain_loop : ℕ → ℕ → List Chunk
  plain_loop zero i = []
  plain_loop (suc fuel) i =
      let rest = plain_loop fuel (i + step f) in
      if ltb i (length lines)
      then (if is_blank (window f lines i)
          then rest
          else plain_chunk i ∷ (if leb (length lines) (last_line f lines i) then [] else rest))
      else []

  plain_chunk-IsChunk :
      (i : ℕ)
      → ltb i (length lines) ≡ true
      → is_blank (window f lines i) ≡ false
      → IsChunk f lines (plain_chunk i)
  plain_chunk-IsChunk i run text = record {
    start = i;
    starts = refl;
    ends = refl;
    forward = ground arith;
    inside = omega arith;
    small = omega arith;
    text = refl;
    not_blank = text;
  }

  plain_loop-IsChunk : (fuel i : ℕ) → All (IsChunk f lines) (plain_loop fuel i)
  unfolding plain_loop
  plain_loop-IsChunk zero i = tt
  plain_loop-IsChunk (suc fuel) i = elim (Bool-cases (ltb i (length lines))) [
    | inr out ↦ rw out tt
    | inl run ↦ rw run (elim (Bool-cases (is_blank (window f lines i))) [
      | inl blank ↦ rw blank (plain_loop-IsChunk fuel (i + step f))
      | inr text ↦ rw text (
        plain_chunk-IsChunk i run text,
        if_both (All (IsChunk f lines)) (leb (length lines) (last_line f lines i)) tt
            (plain_loop-IsChunk fuel (i + step f)),
      )
    ])
  ]

  plain_loop-Covered :
      (fuel i j : ℕ)
      → i ≤ j
      → j < length lines
      → length lines ≤ fuel + i
      → Covered j (plain_loop fuel i) ⊎ InBlank f lines j
  unfolding plain_loop
  plain_loop-Covered zero i j from to enough = absurd (omega arith)
  plain_loop-Covered (suc fuel) i j from to enough =
      rw (lt→ltb i (length lines) (omega arith)) (elim (Bool-cases (is_blank (window f lines i))) [
        | inl blank ↦ rw blank (elim (Bool-cases (ltb j (last_line f lines i))) [
          | inl here ↦
              inr (record {
                start = i;
                from_start = from;
                before_end = ltb→lt j _ here;
                blank = blank;
              })
          | inr later ↦
              plain_loop-Covered fuel (i + step f) j (past later) to (omega (arith, step_bounds))
        ])
        | inr text ↦ rw text (elim (Bool-cases (ltb j (last_line f lines i))) [
          | inl here ↦ inl (inl (omega arith, ltb→lt j _ here))
          | inr later ↦
              rw (open_end later)
                (elim (plain_loop-Covered fuel (i + step f) j (past later) to
                  (omega (arith, step_bounds))) [ inl c ↦ inl (inr c) | inr b ↦ inr b ])
        ])
      ])
    where
      open_end :
          ltb j (last_line f lines i) ≡ false → leb (length lines) (last_line f lines i) ≡ false
      open_end later = ground arith

      past : ltb j (last_line f lines i) ≡ false → i + step f ≤ j
      past later = ground (arith, step_bounds)

  -- Where no sum is beyond the greatest int, a window ends where it does in unbounded numbers, no slice
  -- panics, and the loop is the plain one.
  module _ (small : length lines + f.chunk_size < 2 ^ 63) where
    window_end_lem : (i : ℕ) → i < length lines → window_end f lines i ≡ pos (last_line f lines i)
    window_end_lem i h = ground arith

    slice-window :
        (i : ℕ)
        → i < length lines
        → slice f lines i (pos (last_line f lines i)) ≡ some (window f lines i)
    slice-window i h =
        if_true (leb i (last_line f lines i) && leb (last_line f lines i) (length lines)) _ _
          (ground arith)

    with_window_lem :
        (i : ℕ) (rest : List Chunk)
        → with_window f lines language file_path i
            (pos (last_line f lines i))
            (some (window f lines i))
            (some rest)
          ≡ some (
              if is_blank (window f lines i)
              then rest
              else plain_chunk i ∷ (if leb (length lines) (last_line f lines i) then [] else rest))
    with_window_lem i rest = elim (Bool-cases (is_blank (window f lines i))) [
      | inl blank ↦ rw blank refl
      | inr text ↦
          let same : leb_ℤ (pos (length lines)) (pos (last_line f lines i))
              ≡ leb (length lines) (last_line f lines i) =
            ground arith in
          rw (text, same)
            (elim (Bool-cases (leb (length lines) (last_line f lines i))) [
              | inl last ↦ rw last refl
              | inr more ↦ rw more refl
            ])
    ]

    split_loop-plain_loop :
        (fuel i : ℕ) → split_loop f fuel lines language file_path i ≡ some (plain_loop fuel i)
    unfolding split_loop plain_loop
    split_loop-plain_loop zero i = refl
    split_loop-plain_loop (suc fuel) i = elim (Bool-cases (ltb i (length lines))) [
      | inr out ↦ rw out refl
      | inl run ↦
          let inside = ltb→lt i (length lines) run in
          let fits : ltb (i + step f) (2 ^ 63) ≡ true = lt→ltb _ _ (omega (arith, step_bounds)) in
          rw
            (
              run,
              fits,
              split_loop-plain_loop fuel (i + step f),
              window_end_lem i inside,
              slice-window i inside,
            )
            (with_window_lem i (plain_loop fuel (i + step f)))
    ]

-- Where the number of lines and the chunk size add up to less than 2 ^ 63, `Split` does not panic,
-- every chunk that it returns is a proper one, and every line of the code stands in a chunk or in a
-- window that is all white space: nothing else is lost.
pub split_code-Covered :
    (size overlap : ℤ) (code language file_path : Text) (j : ℕ)
    → length (split newline code) + (new_fallback_splitter size overlap).chunk_size < 2 ^ 63
    → j < length (split newline code)
    → (let f = new_fallback_splitter size overlap in
        (chunks : List Chunk) × (split_code f code language file_path ≡ some chunks)
        × All (IsChunk f (split newline code)) chunks
        × (Covered j chunks ⊎ InBlank f (split newline code) j))
unfolding split_code
split_code-Covered size overlap code language file_path j small h =
    let f = new_fallback_splitter size overlap in
    let sane = new_fallback_splitter-IsSane size overlap in
    let lines = split newline code in
    (
      plain_loop f sane lines language file_path (length lines) 0,
      split_loop-plain_loop f sane lines language file_path small (length lines) 0,
      plain_loop-IsChunk f sane lines language file_path (length lines) 0,
      plain_loop-Covered f sane lines language file_path (length lines) 0 j (omega arith) h
          (omega arith),
    )
