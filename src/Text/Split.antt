-- ===== src/Text/Split.antt =====
-- Laws of `split` and `join`.
use codesight.Prelude.{ℕ, suc, ◌≡◌, ◌≢◌, refl, List, [], ◌∷◌, arith, length}
use codesight.Text.{Text, split, join, cons_head, count_byte}

cons_head-ne-nil : (c : ℕ) (ps : List Text) → cons_head c ps ≢ []
cons_head-ne-nil c [] h = cc
cons_head-ne-nil c (p ∷ ps) h = cc

split-ne-nil : (b : ℕ) (s : Text) → split b s ≢ []
unfolding split
split-ne-nil b [] h = cc
split-ne-nil b (c ∷ s) h = ground (arith, cons_head-ne-nil c (split b s))

join-nil_head : (b : ℕ) (ps : List Text) → ps ≢ [] → join (b ∷ []) ([] ∷ ps) ≡ b ∷ join (b ∷ []) ps
unfolding join
join-nil_head b [] h = absurd (h refl)
join-nil_head b (p ∷ ps) h = refl

join-cons_head :
    (sep : Text) (c : ℕ) (ps : List Text) → ps ≢ [] → join sep (cons_head c ps) ≡ c ∷ join sep ps
unfolding join
join-cons_head sep c [] h = absurd (h refl)
join-cons_head sep c (p ∷ []) h = refl
join-cons_head sep c (p ∷ q ∷ ps) h = refl

-- Joining the parts of a split gives the text back.
pub join-split : (b : ℕ) (s : Text) → join (b ∷ []) (split b s) ≡ s
unfolding split
join-split b [] = unfold join in refl
join-split b (c ∷ s) = ground (
  arith,
  join-split b s,
  join-nil_head b (split b s) (split-ne-nil b s),
  join-cons_head (b ∷ []) c (split b s) (split-ne-nil b s),
)

length-cons_head : (c : ℕ) (ps : List Text) → ps ≢ [] → length (cons_head c ps) ≡ length ps
length-cons_head c [] h = absurd (h refl)
length-cons_head c (p ∷ ps) h = refl

-- There is one part more than separators.
pub length-split : (b : ℕ) (s : Text) → length (split b s) ≡ suc (count_byte b s)
unfolding split count_byte
length-split b [] = refl
length-split b (c ∷ s) =
    ground (arith, length-split b s, length-cons_head c (split b s) (split-ne-nil b s))
