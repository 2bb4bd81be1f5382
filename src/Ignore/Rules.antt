-- ===== src/Ignore/Rules.antt =====
-- What the list of ignore rules holds after it is normalized.
use codesight.Prelude.{
  ◌≡◌, refl, ◌∙◌, Bool, true, false, ◌||◌, inl, inr, List, [], ◌∷◌, ◌++◌, arith, any, Option, none,
  some, Bool-cases,
}
use codesight.Text.{Text, eqt, eqt_iff, eqt→eq}
use codesight.Ignore.{normalize_pattern, normalize_patterns, normalize_onto, add_new, elem}

module _ {A : Type 0} where
  pub any-append : (p : A → Bool) (xs ys : List A) → any p (xs ++ ys) ≡ (any p xs || any p ys)
  any-append p [] ys = refl
  any-append p (x ∷ xs) ys = ground (arith, any-append p xs ys)

-- Does the line normalize to the pattern?
abbrev pub gives : Text → Text → Bool
gives pattern raw = elim (normalize_pattern raw) [ none ↦ false | some q ↦ eqt pattern q ]

elem-of_same : (p q : Text) (ns : List Text) → eqt p q ≡ true → elem q ns ≡ true → elem p ns ≡ true
elem-of_same p q ns same h = rw (eqt→eq p q same) h

elem-add_new :
    (p : Text) (ns : List Text) (raw : Text)
    → elem p (add_new ns (normalize_pattern raw)) ≡ (elem p ns || gives p raw)
elem-add_new p ns raw = by_result (normalize_pattern raw)
  where
    by_result :
        (o : Option Text)
        → elem p (add_new ns o) ≡ (elem p ns || elim o [ none ↦ false | some q ↦ eqt p q ])
    by_result none = ground arith
    by_result (some q) = elim (Bool-cases (elem q ns)) [
      | inl old ↦ rw old (elim (Bool-cases (eqt p q)) [
        | inl same ↦ ground (arith, elem-of_same p q ns same old)
        | inr other ↦ rw other (ground arith)
      ])
      | inr new ↦ rw new (any-append (eqt p) ns (q ∷ []) ∙ ground arith)
    ]

-- A pattern is in the normalized rules exactly where some line normalizes to it.
elem-normalize_onto :
    (p : Text) (ns raws : List Text)
    → elem p (normalize_onto ns raws) ≡ (elem p ns || any (gives p) raws)
elem-normalize_onto p ns [] = ground arith
elem-normalize_onto p ns (raw ∷ raws) =
    elem-normalize_onto p (add_new ns (normalize_pattern raw)) raws
    ∙ ground (arith, elem-add_new p ns raw)

pub elem-normalize_patterns :
    (p : Text) (raws : List Text) → elem p (normalize_patterns raws) ≡ any (gives p) raws
unfolding normalize_patterns
elem-normalize_patterns p raws = elem-normalize_onto p [] raws

-- No rule stands twice.
abbrev pub NoRepeat : List Text → Type 0
NoRepeat [] = Unit
NoRepeat (p ∷ ps) = (elem p ps ≡ false) × NoRepeat ps

eqt_comm : (s t : Text) → eqt s t ≡ eqt t s
eqt_comm s t = ground (arith, eqt_iff s t, eqt_iff t s)

NoRepeat-snoc :
    (ps : List Text) (q : Text) → NoRepeat ps → elem q ps ≡ false → NoRepeat (ps ++ q ∷ [])
NoRepeat-snoc [] q h k = (refl, tt)
NoRepeat-snoc (p ∷ ps) q h k = (
  any-append (eqt p) ps (q ∷ []) ∙ ground (arith, eqt_comm p q),
  NoRepeat-snoc ps q h.1 (ground arith),
)

NoRepeat-add_new : (ns : List Text) (o : Option Text) → NoRepeat ns → NoRepeat (add_new ns o)
NoRepeat-add_new ns none h = h
NoRepeat-add_new ns (some q) h = elim (Bool-cases (elem q ns)) [
  | inl old ↦ rw old h
  | inr new ↦ rw new (NoRepeat-snoc ns q h new)
]

NoRepeat-normalize_onto : (ns raws : List Text) → NoRepeat ns → NoRepeat (normalize_onto ns raws)
NoRepeat-normalize_onto ns [] h = h
NoRepeat-normalize_onto ns (raw ∷ raws) h =
    NoRepeat-normalize_onto (add_new ns (normalize_pattern raw)) raws
      (NoRepeat-add_new ns (normalize_pattern raw) h)

-- The normalized rules hold each pattern that some line normalizes to, no other, and none twice.
pub normalize_patterns-NoRepeat :
    (raws : List Text) (p : Text)
    → (elem p (normalize_patterns raws) ≡ any (gives p) raws) × NoRepeat (normalize_patterns raws)
unfolding normalize_patterns
normalize_patterns-NoRepeat raws p =
    (elem-normalize_onto p [] raws, NoRepeat-normalize_onto [] raws tt)
