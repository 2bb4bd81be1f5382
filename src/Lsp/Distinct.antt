-- ===== src/Lsp/Distinct.antt =====
-- The removal of repetitions that the queries of pkg/lsp share: a list is gone through with the set of the
-- keys that are taken, and what has a key of the set is left out.
use codesight.Prelude.{
  ℕ, suc, ◌≡◌, refl, sym, subst, Bool, true, false, ◌||◌, List, [], ◌∷◌, arith, map, get_elem?, All,
  All-map, Bool-cases, inl, inr, if◌then◌else◌, some,
}
use codesight.Prelude.Sort.{IsWeakOrder, IsSorted, sort, sort-IsSorted, All-sort, All-unsort}
use codesight.Text.{Text, eqt, eqt_refl, eqt_sym}
use codesight.Ignore.{elem}
use codesight.Ignore.Rules.{NoRepeat}

-- The first item of each key is kept.
unfoldable pub distinct_by : {A : Type 0} → (A → Text) → List Text → List A → List A
unfolding eqt
distinct_by key seen [] = []
distinct_by key seen (a ∷ xs) =
    let repeated = elem (key a) seen in
    let rest = distinct_by key (if repeated then seen else key a ∷ seen) xs in
    if repeated then rest else a ∷ rest

-- The item stands somewhere in the list.
pub record IsAmong {A : Type 0} (items : List A) (a : A) : Type 0 where
  pub place : ℕ
  pub at : get_elem? items place ≡ some a

-- Sorted, each key once, nothing invented, and no key of the items lost.
pub record IsDistinct {A : Type 0} (key : A → Text) (less : A → A → Bool) (items out : List A)
    : Type 0 where
  pub sorted : IsSorted less out
  pub once : NoRepeat (map key out)
  pub drawn : All (IsAmong items) out
  pub complete : All (λ a. elem (key a) (map key out) ≡ true) items

All-IsAmong : {A : Type 0} (items : List A) → All (IsAmong items) items
All-IsAmong [] = tt
All-IsAmong (a ∷ xs) = (
  record { place = 0; at = refl },
  All-map (λ r h. record { place = suc h.place; at = h.at }) xs (All-IsAmong xs),
)

module _ {A : Type 0} (key : A → Text) where
  All-distinct :
      (P : A → Type 0) (seen : List Text) (xs : List A) → All P xs → All P (distinct_by key seen xs)
  unfolding distinct_by
  All-distinct P seen [] h = tt
  All-distinct P seen (a ∷ xs) h = elim (Bool-cases (elem (key a) seen)) [
    | inl e ↦ rw e (All-distinct P seen xs h.1)
    | inr e ↦ rw e (h.0, All-distinct P (key a ∷ seen) xs h.1)
  ]

  distinct-IsSorted :
      (less : A → A → Bool) (seen : List Text) (xs : List A)
      → IsSorted less xs
      → IsSorted less (distinct_by key seen xs)
  unfolding distinct_by
  distinct-IsSorted less seen [] h = tt
  distinct-IsSorted less seen (a ∷ xs) h = elim (Bool-cases (elem (key a) seen)) [
    | inl e ↦ rw e (distinct-IsSorted less seen xs h.1)
    | inr e ↦
        rw e (All-distinct _ (key a ∷ seen) xs h.0, distinct-IsSorted less (key a ∷ seen) xs h.1)
  ]

  -- The keys that are taken already are not used again.
  distinct-fresh :
      (seen : List Text) (xs : List A)
      → All (λ a. elem (key a) seen ≡ false) (distinct_by key seen xs)
  unfolding distinct_by
  distinct-fresh seen [] = tt
  distinct-fresh seen (a ∷ xs) = elim (Bool-cases (elem (key a) seen)) [
    | inl e ↦ rw e (distinct-fresh seen xs)
    | inr e ↦ rw e (e, All-map (λ r h. ground arith) _ (distinct-fresh (key a ∷ seen) xs))
  ]

  not-elem :
      (k : Text) (xs : List A) (seen : List Text)
      → All (λ a. elem (key a) (k ∷ seen) ≡ false) xs
      → elem k (map key xs) ≡ false
  not-elem k [] seen h = refl
  not-elem k (a ∷ xs) seen h = ground (arith, h.0, not-elem k xs seen h.1, eqt_sym k (key a))

  distinct-NoRepeat :
      (seen : List Text) (xs : List A) → NoRepeat (map key (distinct_by key seen xs))
  unfolding distinct_by
  distinct-NoRepeat seen [] = tt
  distinct-NoRepeat seen (a ∷ xs) = elim (Bool-cases (elem (key a) seen)) [
    | inl e ↦ rw e (distinct-NoRepeat seen xs)
    | inr e ↦ rw e (
      not-elem (key a) _ seen (distinct-fresh (key a ∷ seen) xs),
      distinct-NoRepeat (key a ∷ seen) xs,
    )
  ]

  abbrev IsTaken : List Text → List A → A → Type 0
  IsTaken seen out a = (elem (key a) seen || elem (key a) (map key out)) ≡ true

  distinct_repeated :
      (seen : List Text) (a : A) (xs : List A)
      → elem (key a) seen ≡ true
      → distinct_by key seen (a ∷ xs) ≡ distinct_by key seen xs
  unfolding distinct_by
  distinct_repeated seen a xs e = rw e refl

  distinct_new :
      (seen : List Text) (a : A) (xs : List A)
      → elem (key a) seen ≡ false
      → distinct_by key seen (a ∷ xs) ≡ a ∷ distinct_by key (key a ∷ seen) xs
  unfolding distinct_by
  distinct_new seen a xs e = rw e refl

  distinct-IsTaken :
      (seen : List Text) (xs : List A) → All (IsTaken seen (distinct_by key seen xs)) xs
  distinct-IsTaken seen [] = tt
  distinct-IsTaken seen (a ∷ xs) = elim (Bool-cases (elem (key a) seen)) [
    | inl e ↦
        subst (λ out. All (IsTaken seen out) (a ∷ xs)) (sym (distinct_repeated seen a xs e))
          (ground arith, distinct-IsTaken seen xs)
    | inr e ↦
        subst (λ out. All (IsTaken seen out) (a ∷ xs)) (sym (distinct_new seen a xs e))
          (
            ground (arith, eqt_refl (key a)),
            All-map (λ r h. ground (arith, eqt_sym (key r) (key a))) xs
                (distinct-IsTaken (key a ∷ seen) xs),
          )
  ]

  -- What holds of all the items holds of those that are left.
  pub All-arranged :
      (less : A → A → Bool) (P : A → Type 0) (items : List A)
      → All P items
      → All P (distinct_by key [] (sort less items))
  All-arranged less P items h = All-distinct P [] (sort less items) (All-sort less P items h)

  pub distinct_by-IsDistinct :
      (less : A → A → Bool)
      → IsWeakOrder less
      → (items : List A) → IsDistinct key less items (distinct_by key [] (sort less items))
  distinct_by-IsDistinct less order items =
      let sorted = sort less items in
      record {
        sorted = distinct-IsSorted less [] sorted (sort-IsSorted less order items);
        once = distinct-NoRepeat [] sorted;
        drawn = All-distinct _ [] sorted (All-sort less _ items (All-IsAmong items));
        complete = All-unsort less _ items (distinct-IsTaken [] sorted);
      }
