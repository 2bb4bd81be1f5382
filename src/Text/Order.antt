-- ===== src/Text/Order.antt =====
-- The order of texts is a strict weak order, and unrelated texts are equal.
use codesight.Prelude.{◌≡◌, refl, true, false, [], ◌∷◌, arith}
use codesight.Prelude.Sort.{IsWeakOrder}
use codesight.Text.{Text, less_text}

less_text-asym : (s t : Text) → less_text s t ≡ true → less_text t s ≡ false
unfolding less_text
less_text-asym [] [] h = cc
less_text-asym [] (b ∷ t) h = refl
less_text-asym (a ∷ s) [] h = cc
less_text-asym (a ∷ s) (b ∷ t) h = ground (arith, less_text-asym s t)

less_text_trans :
    (s t u : Text) → less_text t s ≡ false → less_text u t ≡ false → less_text u s ≡ false
unfolding less_text
less_text_trans [] [] u h k = k
less_text_trans [] (b ∷ t) [] h k = refl
less_text_trans [] (b ∷ t) (c ∷ u) h k = refl
less_text_trans (a ∷ s) [] u h k = cc
less_text_trans (a ∷ s) (b ∷ t) [] h k = cc
less_text_trans (a ∷ s) (b ∷ t) (c ∷ u) h k = ground (arith, less_text_trans s t u)

pub less_text_refl : (s : Text) → less_text s s ≡ false
unfolding less_text
less_text_refl [] = refl
less_text_refl (a ∷ s) = ground (arith, less_text_refl s)

-- Two texts neither of which is less are equal.
pub less_text_tied : (s t : Text) → less_text s t ≡ false → less_text t s ≡ false → s ≡ t
unfolding less_text
less_text_tied [] [] h k = refl
less_text_tied [] (b ∷ t) h k = cc
less_text_tied (a ∷ s) [] h k = cc
less_text_tied (a ∷ s) (b ∷ t) h k = ground (arith, less_text_tied s t)

pub less_text-IsWeakOrder : IsWeakOrder less_text
less_text-IsWeakOrder = record { asym = less_text-asym; trans = less_text_trans }
