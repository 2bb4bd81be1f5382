-- ===== src/Engine/Scoring/Weights.antt =====
-- How the weights of a reference add up.
use codesight.Prelude.{ℕ, ◌+◌, ◌*◌, ◌≤◌, ◌≡◌, refl, true, List, [], ◌∷◌, arith, length}
use codesight.Prelude.Int.{pos, sub_ℕ, ◌≤ℤ◌, sub_ℕ_mono, sub_ℕ-le_pos}
use codesight.Text.{Text, eqt_refl, eqt_iff, has_byte, split}
use codesight.Text.Split.{length-split}
use codesight.Text.FilePath.{slash}
use codesight.Engine.{SymReference}
use codesight.Engine.Scoring.{
  score_ref, shared_segments, segments, path_proximity_score, bonus, penalty, same_place,
  is_test_file,
}

shared_segments-le : (ps qs : List Text) → shared_segments ps qs ≤ length qs
unfolding shared_segments
shared_segments-le [] qs = omega arith
shared_segments-le (p ∷ ps) [] = omega arith
shared_segments-le (p ∷ ps) (q ∷ qs) = ground (arith, shared_segments-le ps qs)

shared_segments_self : (ps : List Text) → shared_segments ps ps ≡ length ps
unfolding shared_segments
shared_segments_self [] = refl
shared_segments_self (p ∷ ps) = ground (arith, eqt_refl p, shared_segments_self ps)

segments_pos : (def_file : Text) → 1 ≤ segments def_file
unfolding segments
segments_pos def_file = omega (arith, length-split slash def_file)

proximity-le : (file def_file : Text) → path_proximity_score file def_file ≤ 2 * segments def_file
unfolding path_proximity_score segments
proximity-le file def_file =
    omega (arith, shared_segments-le (split slash file) (split slash def_file))

proximity_self : (def_file : Text) → path_proximity_score def_file def_file ≡ 2 * segments def_file
unfolding path_proximity_score segments
proximity_self def_file = omega (arith, shared_segments_self (split slash def_file))

bonus-le : (ref : SymReference) (def_file def_dir : Text) → bonus ref def_file def_dir ≤ 6
unfolding bonus
bonus-le ref def_file def_dir = ground arith

penalty-le : (ref : SymReference) (counts : Text → ℕ) → penalty ref counts ≤ 2
unfolding penalty
penalty-le ref counts = ground arith

mul_mono : {a b : ℕ} (n : ℕ) → a ≤ b → a * n ≤ b * n
mul_mono n h = grind arith

bonus_mono :
    (def_file def_dir : Text) (own other : SymReference)
    → own.file ≡ def_file
    → (has_byte b'(' other.snippet ≡ true → has_byte b'(' own.snippet ≡ true)
    → (is_test_file other.file ≡ true → is_test_file own.file ≡ true)
    → bonus other def_file def_dir ≤ bonus own def_file def_dir
unfolding bonus same_place
bonus_mono def_file def_dir own other here calls tests = ground (arith, eqt_iff own.file def_file)

-- A score lies between -2 and 8, both times the number of segments of the definition's file.
pub score_ref_bounds :
    (def_file def_dir : Text) (counts : Text → ℕ) (ref : SymReference)
    → (sub_ℕ 0 (2 * segments def_file) ≤ℤ (score_ref def_file def_dir counts ref).score)
      × ((score_ref def_file def_dir counts ref).score ≤ℤ pos (8 * segments def_file))
unfolding score_ref
score_ref_bounds def_file def_dir counts ref =
    let b = bonus ref def_file def_dir in
    let p = penalty ref counts in
    let n = segments def_file in
    let near = path_proximity_score ref.file def_file in
    let gain = mul_mono n (bonus-le ref def_file def_dir) in
    let loss = mul_mono n (penalty-le ref counts) in
    (
      sub_ℕ_mono 0 (2 * n) (b * n + near) (p * n) (omega (arith, loss)),
      sub_ℕ-le_pos (b * n + near) (p * n) (8 * n)
          (omega (arith, gain, proximity-le ref.file def_file)),
    )

-- A reference in the definition's own file is scored no lower than one in any other file, where the
-- other is a call, a test file or free of the duplicate penalty only if it is too.
pub score_ref_same_file :
    (def_file def_dir : Text) (counts : Text → ℕ) (own other : SymReference)
    → own.file ≡ def_file
    → (has_byte b'(' other.snippet ≡ true → has_byte b'(' own.snippet ≡ true)
    → (is_test_file other.file ≡ true → is_test_file own.file ≡ true)
    → penalty own counts ≤ penalty other counts
    → (score_ref def_file def_dir counts other).score
      ≤ℤ (score_ref def_file def_dir counts own).score
unfolding score_ref
score_ref_same_file def_file def_dir counts own other here calls tests dup =
    let n = segments def_file in
    let gain = mul_mono n (bonus_mono def_file def_dir own other here calls tests) in
    let loss = mul_mono n dup in
    let full : path_proximity_score own.file def_file ≡ 2 * n = rw here (proximity_self def_file) in
    sub_ℕ_mono (bonus other def_file def_dir * n + path_proximity_score other.file def_file)
      (penalty other counts * n)
      (bonus own def_file def_dir * n + path_proximity_score own.file def_file)
      (penalty own counts * n) (omega (arith, gain, loss, full, proximity-le other.file def_file))
