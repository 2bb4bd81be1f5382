-- ===== src/Lsp/Formatter/Grouping.antt =====
-- The groups of references: what they hold, and how they are cut.
use codesight.Prelude.{
  ◌≡◌, refl, sym, subst, ap, ◌∙◌, true, false, List, [], ◌∷◌, ◌++◌, append_assoc, append-nil,
  length, All, All-snoc, Bool-cases, inl, inr,
}
use codesight.Text.{eqt, eqt→eq}
use codesight.Lsp.Formatter.{
  ReferenceLine, ReferenceGroup, add_to_groups, group_references, shown_references,
  compact_references,
}

abbrev pub all_refs : List ReferenceGroup → List ReferenceLine
all_refs [] = []
all_refs (group ∷ groups) = group.refs ++ all_refs groups

-- A group has a reference, and all of them have its path.
pub record IsGroup (group : ReferenceGroup) : Type 0 where
  pub first : ReferenceLine
  pub others : List ReferenceLine
  pub are_refs : group.refs ≡ first ∷ others
  pub same_path : All (λ (ref : ReferenceLine). ref.path ≡ group.path) group.refs

-- Groups that follow one another have different paths.
abbrev pub Apart : List ReferenceGroup → Type 0
Apart [] = Unit
Apart (a ∷ []) = Unit
Apart (a ∷ b ∷ groups) = (eqt a.path b.path ≡ false) × Apart (b ∷ groups)

-- The groups hold the references in their order.
pub record IsGrouping (refs : List ReferenceLine) (groups : List ReferenceGroup) : Type 0 where
  pub in_order : all_refs groups ≡ refs
  pub each : All IsGroup groups
  pub apart : Apart groups

new-IsGroup : (ref : ReferenceLine) → IsGroup (record { path = ref.path; refs = ref ∷ [] })
new-IsGroup ref = record { first = ref; others = []; are_refs = refl; same_path = (refl, tt) }

join-IsGroup :
    (ref : ReferenceLine) (group : ReferenceGroup)
    → IsGroup group
    → eqt group.path ref.path ≡ true
    → IsGroup (record group { refs = group.refs ++ ref ∷ [] })
join-IsGroup ref group g e = record {
  first = g.first;
  others = g.others ++ ref ∷ [];
  are_refs = ap (λ refs. refs ++ ref ∷ []) g.are_refs;
  same_path = All-snoc _ group.refs ref g.same_path (sym (eqt→eq group.path ref.path e));
}

all_refs-add :
    (ref : ReferenceLine) (groups : List ReferenceGroup)
    → all_refs (add_to_groups ref groups) ≡ all_refs groups ++ ref ∷ []
unfolding add_to_groups
all_refs-add ref [] = refl
all_refs-add ref (group ∷ []) = elim (Bool-cases (eqt group.path ref.path)) [
  | inl e ↦ rw e (append-nil _ ∙ ap (λ refs. refs ++ ref ∷ []) (sym (append-nil group.refs)))
  | inr e ↦ rw e (ap (λ refs. refs ++ ref ∷ []) (sym (append-nil group.refs)))
]
all_refs-add ref (group ∷ next ∷ groups) =
    ap (λ refs. group.refs ++ refs) (all_refs-add ref (next ∷ groups))
    ∙ sym (append_assoc group.refs (all_refs (next ∷ groups)) (ref ∷ []))

each-add :
    (ref : ReferenceLine) (groups : List ReferenceGroup)
    → All IsGroup groups
    → All IsGroup (add_to_groups ref groups)
unfolding add_to_groups
each-add ref [] h = (new-IsGroup ref, tt)
each-add ref (group ∷ []) h = elim (Bool-cases (eqt group.path ref.path)) [
  | inl e ↦ rw e (join-IsGroup ref group h.0 e, tt)
  | inr e ↦ rw e (h.0, (new-IsGroup ref, tt))
]
each-add ref (group ∷ next ∷ groups) h = (h.0, each-add ref (next ∷ groups) h.1)

-- The group in front keeps its path.
Apart-cons :
    (ref : ReferenceLine) (group next : ReferenceGroup) (groups : List ReferenceGroup)
    → eqt group.path next.path ≡ false
    → Apart (add_to_groups ref (next ∷ groups))
    → Apart (group ∷ add_to_groups ref (next ∷ groups))
unfolding add_to_groups
Apart-cons ref group next [] h k = elim (Bool-cases (eqt next.path ref.path)) [
  | inl e ↦ rw e (h, tt)
  | inr e ↦ rw e (h, (e, tt))
]
Apart-cons ref group next (third ∷ groups) h k = (h, k)

Apart-add :
    (ref : ReferenceLine) (groups : List ReferenceGroup)
    → Apart groups
    → Apart (add_to_groups ref groups)
unfolding add_to_groups
Apart-add ref [] h = tt
Apart-add ref (group ∷ []) h = elim (Bool-cases (eqt group.path ref.path)) [
  | inl e ↦ rw e tt
  | inr e ↦ rw e (e, tt)
]
Apart-add ref (group ∷ next ∷ groups) h =
    Apart-cons ref group next groups h.0 (Apart-add ref (next ∷ groups) h.1)

group_references-IsGrouping :
    (before refs : List ReferenceLine) (groups : List ReferenceGroup)
    → IsGrouping before groups
    → IsGrouping (before ++ refs) (group_references groups refs)
unfolding group_references
group_references-IsGrouping before [] groups g = record {
  in_order = g.in_order ∙ sym (append-nil before);
  each = g.each;
  apart = g.apart;
}
group_references-IsGrouping before (ref ∷ refs) groups g =
    subst (λ all. IsGrouping all (group_references (add_to_groups ref groups) refs))
      (append_assoc before (ref ∷ []) refs)
      (group_references-IsGrouping (before ++ ref ∷ []) refs (add_to_groups ref groups) (record {
        in_order = all_refs-add ref groups ∙ ap (λ all. all ++ ref ∷ []) g.in_order;
        each = each-add ref groups g.each;
        apart = Apart-add ref groups g.apart;
      }))

-- The groups hold exactly the references that are shown, in their order; every group has one at least,
-- all of its path, and the next group has another path. The count is the number of references in them.
pub compact_references-IsGrouping :
    (references : List ReferenceLine)
    → IsGrouping (shown_references references) (compact_references references).0
      × ((compact_references references).1 ≡ length (all_refs (compact_references references).0))
unfolding compact_references
compact_references-IsGrouping references =
    let g =
      group_references-IsGrouping [] (shown_references references) []
        (record { in_order = refl; each = tt; apart = tt }) in
    (g, ap length (sym g.in_order))
