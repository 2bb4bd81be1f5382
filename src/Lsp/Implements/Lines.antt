-- ===== src/Lsp/Implements/Lines.antt =====
-- Implementations without repetitions, in order.
use codesight.Prelude.{
  ◌≡◌, refl, sym, ◌∙◌, Bool, true, false, ◌&&◌, ◌++◌, List, [], ◌∷◌, map, any, All, arith,
}
use codesight.Prelude.Sort.{IsWeakOrder, IsSorted}
use codesight.Prelude.Int.{ltb_ℤ}
use codesight.Text.{Text, eqt, has_byte}
use codesight.Ignore.{elem}
use codesight.Ignore.Rules.{NoRepeat}
use codesight.Lsp.Order.{by-IsWeakOrder, text-IsFieldOrder}
use codesight.Lsp.Distinct.{IsAmong, distinct_by-IsDistinct, All-arranged}
use codesight.Lsp.Implements.{
  ImplementationLine, before_implementation, implementation_key, arranged_implementations,
}

line-IsWeakOrder : IsWeakOrder (λ (a b : ImplementationLine). ltb_ℤ a.line b.line)
line-IsWeakOrder = record { asym = λ a b h. ground arith; trans = λ a b c h k. ground arith }

before_implementation-IsWeakOrder : IsWeakOrder before_implementation
unfolding before_implementation
before_implementation-IsWeakOrder =
    by-IsWeakOrder _ _ (text-IsFieldOrder (λ (i : ImplementationLine). i.path)) _ (
      by-IsWeakOrder _ _ (text-IsFieldOrder (λ (i : ImplementationLine). i.name)) _
        line-IsWeakOrder)

-- Two texts that are joined with a zero byte can be told apart, where the first has no such byte.
eqt-joined :
    (p q m n : Text)
    → has_byte 0 p ≡ false
    → has_byte 0 q ≡ false
    → eqt (p ++ 0 ∷ m) (q ++ 0 ∷ n) ≡ (eqt p q && eqt m n)
unfolding eqt has_byte
eqt-joined [] [] m n h k = refl
eqt-joined [] (b ∷ q) m n h k = ground arith
eqt-joined (a ∷ p) [] m n h k = ground arith
eqt-joined (a ∷ p) (b ∷ q) m n h k = ground (arith, eqt-joined p q m n)

-- The path of an implementation has no zero byte, as no path of a file has one.
abbrev pub HasPath : ImplementationLine → Type 0
HasPath i = has_byte 0 i.path ≡ false

-- The same path and the same name.
abbrev pub same : ImplementationLine → ImplementationLine → Bool
same a b = eqt a.path b.path && eqt a.name b.name

-- No two are the same in path and name.
abbrev pub NoneTwice : List ImplementationLine → Type 0
NoneTwice [] = Unit
NoneTwice (a ∷ is) = (any (same a) is ≡ false) × NoneTwice is

elem-any :
    (a : ImplementationLine) (is : List ImplementationLine)
    → HasPath a
    → All HasPath is
    → elem (implementation_key a) (map implementation_key is) ≡ any (same a) is
elem-any a [] h k = refl
elem-any a (b ∷ is) h k =
    ground (arith, eqt-joined a.path b.path a.name b.name h k.0, elem-any a is h k.1)

NoRepeat-NoneTwice :
    (is : List ImplementationLine)
    → All HasPath is
    → NoRepeat (map implementation_key is)
    → NoneTwice is
NoRepeat-NoneTwice [] h k = tt
NoRepeat-NoneTwice (a ∷ is) h k = (sym (elem-any a is h.0 h.1) ∙ k.0, NoRepeat-NoneTwice is h.1 k.1)

kept-same :
    (items out : List ImplementationLine)
    → All HasPath items
    → All HasPath out
    → All (λ a. elem (implementation_key a) (map implementation_key out) ≡ true) items
    → All (λ a. any (same a) out ≡ true) items
kept-same [] out h k c = tt
kept-same (a ∷ items) out h k c = (sym (elem-any a out h.0 k) ∙ c.0, kept-same items out h.1 k c.1)

-- Sorted, no two the same, nothing invented, and for each that was given one that is the same.
pub record IsArranged (lines out : List ImplementationLine) : Type 0 where
  pub sorted : IsSorted before_implementation out
  pub once : NoneTwice out
  pub drawn : All (IsAmong lines) out
  pub complete : All (λ a. any (same a) out ≡ true) lines

-- Where no path has a zero byte, the implementations are sorted by path, name and line; no two agree in
-- path and name, each is one of those given, and for each that is given one of the same path and name
-- is there.
pub arranged_implementations-IsArranged :
    (lines : List ImplementationLine)
    → All HasPath lines
    → IsArranged lines (arranged_implementations lines)
unfolding arranged_implementations
arranged_implementations-IsArranged lines paths =
    let found =
      distinct_by-IsDistinct implementation_key before_implementation
        before_implementation-IsWeakOrder lines in
    let kept = All-arranged implementation_key before_implementation HasPath lines paths in
    record {
      sorted = found.sorted;
      once = NoRepeat-NoneTwice (arranged_implementations lines) kept found.once;
      drawn = found.drawn;
      complete = kept-same lines (arranged_implementations lines) paths kept found.complete;
    }
