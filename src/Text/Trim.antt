-- ===== src/Text/Trim.antt =====
-- Laws of `trim_space`.
use mathlib.Core.List.{reverse-reverse, reverse-append, reverse_aux}
use codesight.Prelude.{
  ℕ, zero, suc, ◌+◌, ◌≤◌, ◌≡◌, refl, sym, ap, ◌∙◌, [], ◌∷◌, ◌++◌, reverse, arith, length,
  length-drop, drop, take, take-append-drop, ◌⊎◌, inl, inr, append_assoc,
}
use codesight.Text.{
  Text, space_width, space_width_back, skip_white, trim_left, trim_right, trim_space,
}

ℕ-cases : (n : ℕ) → (n ≡ 0) ⊎ ((m : ℕ) × (n ≡ suc m))
ℕ-cases zero = inl refl
ℕ-cases (suc m) = inr (m, refl)

module _ (width : Text → ℕ) where
  -- Enough rounds leave a text with no white space in front.
  skip_white-done :
      (f : ℕ) (s : Text) → width [] ≡ 0 → length s ≤ f → width (skip_white width f s) ≡ 0
  unfolding skip_white
  skip_white-done zero [] e h = e
  skip_white-done zero (c ∷ s) e h = absurd (omega arith)
  skip_white-done (suc f) s e h = elim (ℕ-cases (width s)) [
    | inl z ↦ rw (z, skip_white) z
    | inr (w, z) ↦
        rw (z, skip_white)
          (skip_white-done f (drop (suc w) s) e (omega (arith, length-drop (suc w) s)))
  ]

  skip_white-fixed : (f : ℕ) (s : Text) → width s ≡ 0 → skip_white width f s ≡ s
  unfolding skip_white
  skip_white-fixed zero s e = refl
  skip_white-fixed (suc f) s e = rw (e, skip_white)

  -- What is skipped is a part in front.
  skip_white-suffix : (f : ℕ) (s : Text) → (w : Text) × (s ≡ w ++ skip_white width f s)
  unfolding skip_white
  skip_white-suffix zero s = ([], refl)
  skip_white-suffix (suc f) s = elim (ℕ-cases (width s)) [
    | inl z ↦ ([], rw (z, skip_white) refl)
    | inr (w, z) ↦
        let (front, e) = skip_white-suffix f (drop (suc w) s) in
        (
          take (suc w) s ++ front,
          rw (z, skip_white)
              (sym (take-append-drop (suc w) s)
                ∙ ap (λ t. take (suc w) s ++ t) e
                ∙ sym (append_assoc (take (suc w) s) front _)),
        )
  ]

-- A text with no white space in front has none in front of its own beginning.
space_width-prefix : (x z : Text) → space_width (x ++ z) ≡ 0 → space_width x ≡ 0
unfolding space_width
space_width-prefix [] z h = refl
space_width-prefix (a ∷ []) [] h = h
space_width-prefix (a ∷ []) (d ∷ []) h = ground arith
space_width-prefix (a ∷ []) (d ∷ e ∷ z) h = ground arith
space_width-prefix (a ∷ b ∷ []) [] h = h
space_width-prefix (a ∷ b ∷ []) (d ∷ z) h = ground arith
space_width-prefix (a ∷ b ∷ c ∷ x) z h = h

length-reverse_aux : (s t : Text) → length (reverse_aux s t) ≡ length s + length t
length-reverse_aux [] t = omega arith
length-reverse_aux (c ∷ s) t = omega (arith, length-reverse_aux s (c ∷ t))

length-reverse-le : (s : Text) → length (reverse s) ≤ length s
length-reverse-le s = omega (arith, length-reverse_aux s [])

pub trim_left-clean : (s : Text) → space_width (trim_left s) ≡ 0
unfolding trim_left
trim_left-clean s = skip_white-done space_width (length s) s refl (omega arith)

trim_left-fixed : (s : Text) → space_width s ≡ 0 → trim_left s ≡ s
unfolding trim_left
trim_left-fixed s = skip_white-fixed space_width (length s) s

trim_right-clean : (s : Text) → space_width_back (reverse (trim_right s)) ≡ 0
unfolding trim_right
trim_right-clean s =
    rw reverse-reverse
      (skip_white-done space_width_back (length s) (reverse s) refl (length-reverse-le s))

trim_right-fixed : (s : Text) → space_width_back (reverse s) ≡ 0 → trim_right s ≡ s
unfolding trim_right
trim_right-fixed s e =
    ap reverse (skip_white-fixed space_width_back (length s) (reverse s) e) ∙ reverse-reverse s

trim_right-prefix : (s : Text) → (z : Text) × (s ≡ trim_right s ++ z)
unfolding trim_right
trim_right-prefix s =
    let (w, e) = skip_white-suffix space_width_back (length s) (reverse s) in
    (reverse w, sym (reverse-reverse s) ∙ ap reverse e ∙ reverse-append w _)

-- A trimmed text has no white space at either end.
pub trim_space-clean :
    (s : Text) → (space_width (trim_space s) ≡ 0) × (space_width_back (reverse (trim_space s)) ≡ 0)
unfolding trim_space
trim_space-clean s =
    let (z, e) = trim_right-prefix (trim_left s) in
    (
      space_width-prefix (trim_right (trim_left s)) z (rw (← e) (trim_left-clean s)),
      trim_right-clean (trim_left s),
    )

pub trim_space-fixed :
    (s : Text) → space_width s ≡ 0 → space_width_back (reverse s) ≡ 0 → trim_space s ≡ s
unfolding trim_space
trim_space-fixed s front back = rw (trim_left-fixed s front) (trim_right-fixed s back)

-- Trimming twice is trimming once.
pub trim_space_idem : (s : Text) → trim_space (trim_space s) ≡ trim_space s
trim_space_idem s =
    let (front, back) = trim_space-clean s in trim_space-fixed (trim_space s) front back
