-- ===== src/Lsp/Callers/Reserved.antt =====
-- How often an identity stands among those that are taken, before and after a level is reserved.
use codesight.Prelude.{
  ℕ, suc, ◌+◌, ◌≤◌, ◌≡◌, refl, sym, subst, ap, ◌∙◌, inl, inr, false, not, ◌&&◌, List, [], ◌∷◌, ◌++◌,
  append_assoc, map, arith, All, get_elem?, if◌then◌else◌, Bool-cases, if_true, if_false, some,
}
use codesight.Text.{Text, eqt, eqt_refl, eqt→eq}
use codesight.Ignore.{elem}
use codesight.Ignore.Rules.{NoRepeat}
use codesight.Lsp.Callers.{HierarchyNode, CallerOutputLine, output_line, reserve}

-- How often a text stands in a list.
abbrev pub times : Text → List Text → ℕ
times t [] = 0
times t (x ∷ xs) = (if eqt t x then 1 else 0) + times t xs

times-append : (t : Text) (xs ys : List Text) → times t (xs ++ ys) ≡ times t xs + times t ys
times-append t [] ys = omega arith
times-append t (x ∷ xs) ys = omega (arith, times-append t xs ys)

times-elem : (t : Text) (xs : List Text) → elem t xs ≡ false → times t xs ≡ 0
times-elem t [] h = refl
times-elem t (x ∷ xs) h = ground (arith, times-elem t xs)

elem-times : (t : Text) (xs : List Text) → times t xs ≡ 0 → elem t xs ≡ false
elem-times t [] h = refl
elem-times t (x ∷ xs) h = ground (arith, elem-times t xs)

-- What stands no more than once in a list is not repeated.
pub NoRepeat-times : (xs : List Text) → ((t : Text) → times t xs ≤ 1) → NoRepeat xs
NoRepeat-times [] h = tt
NoRepeat-times (x ∷ xs) h =
    (elem-times x xs (ground (arith, h x, eqt_refl x)), NoRepeat-times xs (λ t. omega (arith, h t)))

abbrev pub identity_of : HierarchyNode → Text
identity_of node = node.identity

abbrev pub identity_shown : ℕ × HierarchyNode → Text
identity_shown shown = shown.1.identity

abbrev pub line_shown : ℕ × HierarchyNode → CallerOutputLine
line_shown shown = output_line shown.0 shown.1

pub map-append :
    {A B : Type 0} (f : A → B) (xs ys : List A) → map f (xs ++ ys) ≡ map f xs ++ map f ys
map-append f [] ys = refl
map-append f (x ∷ xs) ys = ap (λ rest. f x ∷ rest) (map-append f xs ys)

pub times-shown :
    (t : Text) (xs ys : List (ℕ × HierarchyNode))
    → times t (map identity_shown (xs ++ ys))
      ≡ times t (map identity_shown xs) + times t (map identity_shown ys)
times-shown t xs ys =
    ap (times t) (map-append identity_shown xs ys)
    ∙ times-append t (map identity_shown xs) (map identity_shown ys)

pub lines-chain :
    {A : Type 0} (before middle end : List A) (x : A) (xs ys : List A)
    → end ≡ middle ++ ys
    → middle ≡ (before ++ x ∷ []) ++ xs
    → end ≡ before ++ x ∷ (xs ++ ys)
lines-chain before middle end x xs ys h k =
    h
    ∙ ap (λ l. l ++ ys) k
    ∙ append_assoc (before ++ x ∷ []) xs ys
    ∙ append_assoc before (x ∷ []) (xs ++ ys)

pub All-get :
    {A : Type 0} (P : A → Type 0) (xs : List A)
    → ((i : ℕ) (x : A) → get_elem? xs i ≡ some x → P x)
    → All P xs
All-get P [] h = tt
All-get P (x ∷ xs) h = (h 0 x refl, All-get P xs (λ i y e. h (suc i) y e))

pub times-fresh :
    (t x : Text) (xs : List Text) → elem x xs ≡ false → times t xs ≤ 1 → times t (x ∷ xs) ≤ 1
times-fresh t x xs h k = elim (Bool-cases (eqt t x)) [
  | inl e ↦ omega (
    arith,
    times-elem t xs (subst (λ y. elem y xs ≡ false) (sym (eqt→eq t x e)) h),
    if_true {A = ℕ} _ 1 0 e,
  )
  | inr e ↦ omega (arith, k, if_false {A = ℕ} _ 1 0 e)
]

-- What the reservation of a level does to the identities that are taken.
pub record Reserved (P : HierarchyNode → Type 0) (seen : List Text)
    (level : List Text × List HierarchyNode) : Type 0 where
  pub counted : (t : Text) → times t level.0 ≡ times t seen + times t (map identity_of level.1)
  pub distinct : (t : Text) → times t seen ≤ 1 → times t level.0 ≤ 1
  pub kept : All P level.1

pub reserve-Reserved :
    (P : HierarchyNode → Type 0) (ancestors seen : List Text) (nodes : List HierarchyNode)
    → All P nodes
    → Reserved P seen (reserve ancestors seen nodes)
unfolding reserve
reserve-Reserved P ancestors seen [] h = record {
  counted = λ t. omega arith;
  distinct = λ t k. k;
  kept = tt;
}
reserve-Reserved P ancestors seen (node ∷ nodes) h =
    elim (Bool-cases (not (elem node.identity ancestors) && not (elem node.identity seen))) [
      | inl fresh ↦
          let ih = reserve-Reserved P ancestors (node.identity ∷ seen) nodes h.1 in
          rw fresh (record {
            counted = λ t. omega (arith, ih.counted t);
            distinct = λ t k. ih.distinct t (times-fresh t node.identity seen (ground arith) k);
            kept = (h.0, ih.kept);
          })
      | inr stale ↦ rw stale (reserve-Reserved P ancestors seen nodes h.1)
    ]
