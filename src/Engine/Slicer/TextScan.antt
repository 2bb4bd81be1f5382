-- ===== src/Engine/Slicer/TextScan.antt =====
-- The fallback that looks for salient lines without a syntax tree.
use codesight.Prelude.{
  ℕ, zero, suc, ◌+◌, ◌-◌, ◌≤◌, ◌<◌, ◌≡◌, refl, Bool, true, List, [], ◌∷◌, ◌++◌, arith,
  if◌then◌else◌, length, length-append, All, All-snoc, All-map, Bool-cases, inl, inr, if_both,
}
use mathlib.Core.Path.{ap₂}
use codesight.Text.{Text, split}
use codesight.Engine.{CodeSlice}
use codesight.Engine.Slicer.{
  scan, scan_slice_end, scan_runs, line_at, is_salient_line, salient_slice,
  find_salient_slices_by_text, newline,
}

-- A slice of lines of the definition.
pub record InRange (start_line end_line : ℕ) (s : CodeSlice) : Type 0 where
  pub from_start : start_line ≤ s.start_line
  pub forward : s.start_line ≤ s.end_line
  pub to_end : s.end_line ≤ end_line

-- Each slice begins behind the end of every earlier one.
abbrev pub IsAscending : List CodeSlice → Type 0
IsAscending [] = Unit
IsAscending (s ∷ rest) = All (λ (t : CodeSlice). s.end_line < t.start_line) rest × IsAscending rest

IsAscending-snoc :
    (xs : List CodeSlice) (x : CodeSlice)
    → IsAscending xs
    → All (λ (s : CodeSlice). s.end_line < x.start_line) xs
    → IsAscending (xs ++ x ∷ [])
IsAscending-snoc [] x h k = (tt, tt)
IsAscending-snoc (y ∷ xs) x h k = (All-snoc _ xs x h.0 k.0, IsAscending-snoc xs x h.1 k.1)

module _ (source : Text) (start_line end_line : ℕ) where
  -- What holds at index `i` of the loop.
  record Inv (i : ℕ) (slices : List CodeSlice) : Type 0 where
    few : length slices ≤ 3
    at_start : start_line ≤ i + 1
    passed : All (λ (s : CodeSlice). s.end_line ≤ i) slices
    in_range : All (InRange start_line end_line) slices
    ascending : IsAscending slices

  scan_slice_end_bounds :
      (n i : ℕ)
      → i < end_line
      → i < n
      → (i ≤ scan_slice_end source start_line end_line n i)
        × (scan_slice_end source start_line end_line n i < end_line)
  scan_slice_end_bounds n i h k = ground arith

  Inv-take :
      (i last : ℕ) (s : CodeSlice) (slices : List CodeSlice)
      → Inv i slices
      → length slices < 3
      → s.start_line ≡ i + 1
      → s.end_line ≡ last + 1
      → i ≤ last
      → last < end_line
      → Inv (last + 1) (slices ++ s ∷ [])
  Inv-take i last s slices v room from to forward inside = record {
    few = omega (arith, length-append slices (s ∷ []));
    at_start = omega arith;
    passed = All-snoc _ slices s (All-map (λ t p. omega arith) slices v.passed) (omega arith);
    in_range =
        All-snoc _ slices s v.in_range
          (record { from_start = omega arith; forward = omega arith; to_end = omega arith });
    ascending =
        IsAscending-snoc slices s v.ascending (All-map (λ t p. omega arith) slices v.passed);
  }

  Inv-next : (i : ℕ) (slices : List CodeSlice) → Inv i slices → Inv (i + 1) slices
  Inv-next i slices v = record {
    few = v.few;
    at_start = omega arith;
    passed = All-map (λ t p. omega arith) slices v.passed;
    in_range = v.in_range;
    ascending = v.ascending;
  }

  runs_facts :
      (lines : List Text) (i : ℕ) (slices : List CodeSlice)
      → scan_runs source start_line end_line lines i slices ≡ true
      → (i < end_line) × (i < length lines) × (length slices < 3)
  runs_facts lines i slices h = ground arith

  Inv-found :
      (lines : List Text) (i : ℕ) (is_io : Bool) (slices : List CodeSlice)
      → Inv i slices
      → scan_runs source start_line end_line lines i slices ≡ true
      → Inv (scan_slice_end source start_line end_line (length lines) i + 1) (
          slices
          ++ salient_slice lines is_io
              (i + 1)
              (scan_slice_end source start_line end_line (length lines) i + 1)
            ∷ [])
  Inv-found lines i is_io slices v run =
      let (in_def, in_file, room) = runs_facts lines i slices run in
      let (forward, inside) = scan_slice_end_bounds (length lines) i in_def in_file in
      Inv-take i _ _ slices v room refl refl forward inside

  -- The slices are in order whatever the fuel.
  scan-Inv :
      (f : ℕ) (lines : List Text) (i : ℕ) (slices : List CodeSlice)
      → Inv i slices
      → (j : ℕ) × Inv j (scan source start_line end_line f lines i slices)
  unfolding scan
  scan-Inv zero lines i slices v = (i, v)
  scan-Inv (suc f) lines i slices v =
      elim (Bool-cases (scan_runs source start_line end_line lines i slices)) [
        | inr stop ↦ rw stop (i, v)
        | inl run ↦ rw run (
            if_both (λ r. (j : ℕ) × Inv j r) (is_salient_line (line_at lines i))
              (scan-Inv f lines _ _ (Inv-found lines i _ slices v run))
              (scan-Inv f lines (i + 1) slices (Inv-next i slices v)))
      ]

  -- More fuel than lines are left changes nothing: the loop ends by its own tests.
  scan-fuel :
      (f : ℕ) (lines : List Text) (i : ℕ) (slices : List CodeSlice)
      → length lines ≤ f + i
      → scan source start_line end_line (suc f) lines i slices
        ≡ scan source start_line end_line f lines i slices
  unfolding scan
  scan-fuel zero lines i slices h = ground arith
  scan-fuel (suc f) lines i slices h =
      elim (Bool-cases (scan_runs source start_line end_line lines i slices)) [
        | inr stop ↦ rw stop refl
        | inl run ↦
            let (in_def, in_file, _) = runs_facts lines i slices run in
            let (forward, _) = scan_slice_end_bounds (length lines) i in_def in_file in
            rw run (
              ap₂ (λ x y. if is_salient_line (line_at lines i) then x else y)
                (scan-fuel f lines _ _ (omega arith))
                (scan-fuel f lines (i + 1) slices (omega arith)))
      ]

  -- The fallback finds at most three slices, each a run of lines of the definition, and each begins
  -- behind the end of the one before; the loop has ended by its own tests.
  pub find_salient_slices_by_text-IsAscending :
      1 ≤ start_line
      → (length (find_salient_slices_by_text source start_line end_line) ≤ 3)
        × All (InRange start_line end_line) (find_salient_slices_by_text source start_line end_line)
        × IsAscending (find_salient_slices_by_text source start_line end_line)
        × (scan source start_line end_line
              (suc (length (split newline source)))
              (split newline source)
              (start_line - 1)
              []
            ≡ find_salient_slices_by_text source start_line end_line)
  find_salient_slices_by_text-IsAscending h =
      let lines = split newline source in
      let (j, v) = scan-Inv (length lines) lines (start_line - 1) [] (record {
        few = omega arith;
        at_start = omega arith;
        passed = tt;
        in_range = tt;
        ascending = tt;
      }) in
      unfold find_salient_slices_by_text in
      (
        v.few,
        v.in_range,
        v.ascending,
        scan-fuel (length lines) lines (start_line - 1) [] (omega arith),
      )
