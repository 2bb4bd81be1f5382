-- ===== src/Prelude/Sort.antt =====
-- A stable sort by a Boolean `less`: the contract of Go's `sort.SliceStable` and `sort.Strings`,
-- for an order that is a strict weak order.
use codesight.Prelude.{◌≡◌, refl, ap, Bool, true, false, List, [], ◌∷◌, arith}
use codesight.Prelude.{if◌then◌else◌, keep, length, suc, All, Bool-cases, inl, inr, ◌∙◌}
use mathlib.Core.List.{Perm, Permᴰ}
use mathlib.Core.List.Perm
use mathlib.Core.Logic.{∥∥₁_elim}
use mathlib.Core.Path.{ap₂}

-- `less` never holds both ways, and what is not less is transitive.
pub record IsWeakOrder {ℓ} {A : Type ℓ} (less : A → A → Bool) : Type ℓ where
  pub asym : (a b : A) → less a b ≡ true → less b a ≡ false
  pub trans : (a b c : A) → less b a ≡ false → less c b ≡ false → less c a ≡ false

module _ {ℓ} {A : Type ℓ} (less : A → A → Bool) where
  -- Put `x` in front of the first element that is not less than it.
  unfoldable pub insert : A → List A → List A
  insert x [] = x ∷ []
  insert x (y ∷ ys) = if less y x then y ∷ insert x ys else x ∷ y ∷ ys

  unfoldable pub sort : List A → List A
  unfolding insert
  sort [] = []
  sort (x ∷ xs) = insert x (sort xs)

  -- No later element is less than an earlier one.
  abbrev pub IsSorted : List A → Type 0
  IsSorted [] = Unit
  IsSorted (x ∷ xs) = All (λ y. less y x ≡ false) xs × IsSorted xs

  insert-perm : (x : A) (ys : List A) → Perm (insert x ys) (x ∷ ys)
  unfolding insert
  insert-perm x [] = Perm.refl _
  insert-perm x (y ∷ ys) = elim (Bool-cases (less y x)) [
    | inl e ↦ rw e (Perm.trans (Perm.cons y (insert-perm x ys)) (Perm.swap x y ys))
    | inr e ↦ rw e (Perm.refl _)
  ]

  pub sort-perm : (xs : List A) → Perm (sort xs) xs
  unfolding sort
  sort-perm [] = Perm.refl _
  sort-perm (x ∷ xs) = Perm.trans (insert-perm x (sort xs)) (Perm.cons x (sort-perm xs))

  length-insert : (x : A) (ys : List A) → length (insert x ys) ≡ suc (length ys)
  unfolding insert
  length-insert x [] = refl
  length-insert x (y ∷ ys) = ground (arith, length-insert x ys)

  pub length-sort : (xs : List A) → length (sort xs) ≡ length xs
  unfolding sort
  length-sort [] = refl
  length-sort (x ∷ xs) = length-insert x (sort xs) ∙ ap suc (length-sort xs)

  All-insert : (P : A → Type 0) (x : A) (ys : List A) → P x → All P ys → All P (insert x ys)
  unfolding insert
  All-insert P x [] px h = (px, tt)
  All-insert P x (y ∷ ys) px h = elim (Bool-cases (less y x)) [
    | inl e ↦ rw e (h.0, All-insert P x ys px h.1)
    | inr e ↦ rw e (px, h)
  ]

  pub All-sort : (P : A → Type 0) (xs : List A) → All P xs → All P (sort xs)
  unfolding sort
  All-sort P [] h = tt
  All-sort P (x ∷ xs) h = All-insert P x (sort xs) h.0 (All-sort P xs h.1)

  All-uninsert : (P : A → Type 0) (x : A) (ys : List A) → All P (insert x ys) → P x × All P ys
  unfolding insert
  All-uninsert P x [] = λ h. h
  All-uninsert P x (y ∷ ys) = elim (Bool-cases (less y x)) [
    | inl e ↦ rw e (λ h. let rest = All-uninsert P x ys h.1 in (rest.0, (h.0, rest.1)))
    | inr e ↦ rw e (λ h. h)
  ]

  pub All-unsort : (P : A → Type 0) (xs : List A) → All P (sort xs) → All P xs
  unfolding sort
  All-unsort P [] h = tt
  All-unsort P (x ∷ xs) h =
      let rest = All-uninsert P x (sort xs) h in (rest.0, All-unsort P xs rest.1)

  module _ (order : IsWeakOrder less) where
    -- Stability: the elements of a class whose members are not less than one another keep their
    -- places among themselves.
    module _ (p : A → Bool) (tied : (a b : A) → p a ≡ true → p b ≡ true → less a b ≡ false) where
      keep-insert : (x : A) (ys : List A) → keep p (insert x ys) ≡ keep p (x ∷ ys)
      unfolding insert
      keep-insert x [] = refl
      keep-insert x (y ∷ ys) = ground (arith, keep-insert x ys, tied y x)

      pub keep-sort : (xs : List A) → keep p (sort xs) ≡ keep p xs
      unfolding sort
      keep-sort [] = refl
      keep-sort (x ∷ xs) = ground (arith, keep-insert x (sort xs), keep-sort xs)

    All-not-less :
        (x y : A) (ys : List A)
        → less y x ≡ false
        → All (λ z. less z y ≡ false) ys
        → All (λ z. less z x ≡ false) ys
    All-not-less x y [] h k = tt
    All-not-less x y (z ∷ ys) h k = (order.trans x y z h k.0, All-not-less x y ys h k.1)

    insert-IsSorted : (x : A) (ys : List A) → IsSorted ys → IsSorted (insert x ys)
    unfolding insert
    insert-IsSorted x [] h = (tt, tt)
    insert-IsSorted x (y ∷ ys) h = elim (Bool-cases (less y x)) [
      | inl e ↦ rw e (All-insert _ x ys (order.asym y x e) h.0, insert-IsSorted x ys h.1)
      | inr e ↦ rw e ((e, All-not-less x y ys e h.0), h)
    ]

    pub sort-IsSorted : (xs : List A) → IsSorted (sort xs)
    unfolding sort
    sort-IsSorted [] = tt
    sort-IsSorted (x ∷ xs) = insert-IsSorted x (sort xs) (sort-IsSorted xs)

-- A total order sorts two arrangements of the same items to the same list.
module _ {A : Type 0} (less : A → A → Bool) (order : IsWeakOrder less)
    (tied_eq : (a b : A) → less a b ≡ false → less b a ≡ false → a ≡ b) where
  insert_comm :
      (x y : A) (zs : List A) → insert less x (insert less y zs) ≡ insert less y (insert less x zs)
  unfolding insert
  insert_comm x y [] = ground (arith, tied_eq x y, order.asym x y, order.asym y x)
  insert_comm x y (z ∷ zs) = ground (
    arith,
    insert_comm x y zs,
    tied_eq x y,
    order.asym x y,
    order.asym y x,
    order.trans x y z,
    order.trans y x z,
    order.trans x z y,
    order.trans y z x,
    order.asym z x,
    order.asym z y,
  )

  sort-Permᴰ : {xs ys : List A} → Permᴰ xs ys → sort less xs ≡ sort less ys
  unfolding sort
  sort-Permᴰ Permᴰ.nil = refl
  sort-Permᴰ (Permᴰ.cons {b} {l₁} e p) =
      ap (λ x. insert less x (sort less l₁)) e ∙ ap (insert less b) (sort-Permᴰ p)
  sort-Permᴰ (Permᴰ.swap {a} {b} {a'} {b'} {l} e d) =
      insert_comm a b (sort less l) ∙ ap₂ (λ x y. insert less x (insert less y (sort less l))) d e
  sort-Permᴰ (Permᴰ.trans p q) = sort-Permᴰ p ∙ sort-Permᴰ q

  pub sort-perm_eq : {xs ys : List A} → IsSet A → Perm xs ys → sort less xs ≡ sort less ys
  sort-perm_eq is_set p = ∥∥₁_elim p (hlevel is_set) sort-Permᴰ
