-- ===== src/Index/Staleness.antt =====
-- When an index counts as up to date.
use codesight.Prelude.{
  ◌≡◌, ◌≢◌, ◌↔◌, ◌⊎◌, inl, inr, refl, true, false, not, [], ◌∷◌, arith, Option, none, some,
}
use codesight.Prelude.Int.{ℤ}
use codesight.Text.{Text, str, eqt, eqt_iff, trim_space, has_prefix}
use codesight.Text.FilePath.{is_empty}
use codesight.Index.{IndexMetadata, is_stale, staleness_info, stale_by, info_text}

-- Neither trimmed text is empty, and they are equal.
pub record SameTrimmed (a b : Text) : Type 0 where
  pub present : trim_space a ≢ []
  pub equal : trim_space a ≡ trim_space b

-- A text is present and equal to another.
abbrev Same : Text → Text → Type 0
Same a b = (a ≢ []) × (a ≡ b)

empty_or : (a : Text) → (is_empty a ≡ true × a ≡ []) ⊎ (is_empty a ≡ false × a ≢ [])
empty_or [] = inl (refl, refl)
empty_or (c ∷ a) = inr (refl, λ e. cc)

stale_by-false :
    (a b c d : Text)
    → (stale_by a b c d ≡ false) ↔ (
        ((is_empty a ≡ false × is_empty b ≡ false) × eqt a b ≡ true)
        × ((is_empty c ≡ false × is_empty d ≡ false) × eqt c d ≡ true))
stale_by-false a b c d = ground (arith)

Same-iff : (a b : Text) → ((is_empty a ≡ false × is_empty b ≡ false) × eqt a b ≡ true) ↔ Same a b
Same-iff a b = ground (arith, empty_or a, empty_or b, eqt_iff a b)

SameTrimmed-iff :
    (a b : Text)
    → ((is_empty (trim_space a) ≡ false × is_empty (trim_space b) ≡ false)
        × eqt (trim_space a) (trim_space b) ≡ true)
      ↔ SameTrimmed a b
SameTrimmed-iff a b = (
  (λ h.
      let (there, back) = Same-iff (trim_space a) (trim_space b) in
      let (present, same) = there h in record { present = present; equal = same }),
  (λ h. let (there, back) = Same-iff (trim_space a) (trim_space b) in back (h.present, h.equal)),
)

-- An index is fresh exactly where it records a commit and a fingerprint of the ignore rules, and both
-- are, up to white space at their ends, the present ones.
pub is_stale-false_iff :
    (meta : IndexMetadata) (commit rules : Text)
    → (is_stale (some meta) commit rules ≡ false)
      ↔ (SameTrimmed meta.commit_sha commit × SameTrimmed meta.ignore_fingerprint rules)
unfolding is_stale
is_stale-false_iff meta commit rules = ground (
  arith,
  stale_by-false (trim_space meta.commit_sha) (trim_space commit)
      (trim_space meta.ignore_fingerprint) (trim_space rules),
  SameTrimmed-iff meta.commit_sha commit,
  SameTrimmed-iff meta.ignore_fingerprint rules,
)

info_text-stale_by :
    (meta : IndexMetadata) (age : ℤ) (a b c d : Text)
    → has_prefix (str "up to date") (info_text meta age a b c d) ≡ not (stale_by a b c d)
unfolding has_prefix
info_text-stale_by meta age a b c d = ground (arith)

-- The message says "up to date" exactly where the index is not stale.
pub staleness_info-is_stale :
    (meta : Option IndexMetadata) (age : ℤ) (commit rules : Text)
    → has_prefix (str "up to date") (staleness_info meta age commit rules)
      ≡ not (is_stale meta commit rules)
unfolding staleness_info is_stale
staleness_info-is_stale none age commit rules = unfold has_prefix in refl
staleness_info-is_stale (some meta) age commit rules =
    info_text-stale_by meta age (trim_space meta.commit_sha) (trim_space commit)
      (trim_space meta.ignore_fingerprint) (trim_space rules)
