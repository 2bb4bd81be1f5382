-- ===== src/Engine/Scoring/Ranking.antt =====
-- What ranking promises: the best items first, ties in their old order, nothing invented or lost.
use codesight.Prelude.{
  ℕ, ◌≡◌, ap, ◌∙◌, Bool, ◌&&◌, List, [], ◌++◌, arith, ltb, ◌==◌, if◌then◌else◌, length, drop, keep,
  min, take-append-drop, length-take, append-nil,
}
use mathlib.Core.List.{Perm}
use codesight.Prelude.Int.{ℤ, eqb_ℤ}
use codesight.Prelude.Sort.{
  IsWeakOrder, IsSorted, sort, sort-perm, sort-IsSorted, length-sort, keep-sort,
}
use codesight.Text.{Text, eqt}
use codesight.Engine.{SymReference, SymCaller}
use codesight.Engine.Scoring.{
  higher_ref, higher_caller, scored_refs, scored_callers, score_references, score_callers, truncate,
}

-- `kept` is the front of some arrangement of `items` in which no later item goes before an earlier
-- one by `less`, and it has the wanted number of items.
pub record IsTop {A : Type 0} (less : A → A → Bool) (max_items : ℕ) (items kept : List A)
    : Type 0 where
  pub dropped : List A
  pub same_items : Perm (kept ++ dropped) items
  pub ordered : IsSorted less (kept ++ dropped)
  pub size : length kept ≡ (if max_items == 0 then length items else min max_items (length items))

module _ {A : Type 0} where
  -- What `truncate` drops.
  truncated : ℕ → List A → List A
  truncated max_items items =
      if ltb 0 max_items && ltb max_items (length items) then drop max_items items else []

  truncate-append-truncated :
      (k : ℕ) (items : List A) → truncate k items ++ truncated k items ≡ items
  unfolding truncated
  truncate-append-truncated k items = ground (arith, take-append-drop k items, append-nil items)

  length-truncate :
      (k : ℕ) (items : List A)
      → length (truncate k items) ≡ (if k == 0 then length items else min k (length items))
  length-truncate k items = ground (arith, length-take k items)

  truncate-IsTop :
      (less : A → A → Bool)
      → IsWeakOrder less
      → (k : ℕ) (items : List A) → IsTop less k items (truncate k (sort less items))
  truncate-IsTop less order k items =
      let whole = truncate-append-truncated k (sort less items) in
      record {
        dropped = truncated k (sort less items);
        same_items = rw whole (sort-perm less items);
        ordered = rw whole (sort-IsSorted less order items);
        size =
            length-truncate k (sort less items)
            ∙ ap (λ n. if k == 0 then n else min k n) (length-sort less items);
      }

higher_ref-IsWeakOrder : IsWeakOrder higher_ref
higher_ref-IsWeakOrder = record { asym = λ a b h. ground arith; trans = λ a b c h k. ground arith }

higher_caller-IsWeakOrder : IsWeakOrder higher_caller
higher_caller-IsWeakOrder = record {
  asym = λ a b h. ground arith;
  trans = λ a b c h k. ground arith;
}

-- `score_references` returns the best references: the scored list, rearranged by falling score and
-- cut at `max_items` (0 sets no limit), so that no dropped reference has a higher score than a kept
-- one.
pub score_references-IsTop :
    (refs : List SymReference) (def_file : Text) (max_items : ℕ)
    → IsTop higher_ref max_items
        (scored_refs refs def_file)
        (score_references refs def_file max_items)
unfolding score_references
score_references-IsTop refs def_file max_items =
    truncate-IsTop higher_ref higher_ref-IsWeakOrder max_items (scored_refs refs def_file)

-- `score_callers` returns the best callers in the same sense.
pub score_callers-IsTop :
    (callers : List SymCaller) (def_file : Text) (max_items : ℕ)
    → IsTop higher_caller max_items
        (scored_callers callers def_file)
        (score_callers callers def_file max_items)
unfolding score_callers
score_callers-IsTop callers def_file max_items =
    truncate-IsTop higher_caller higher_caller-IsWeakOrder max_items
      (scored_callers callers def_file)

-- Without a limit, the references of one file that have the same score stand in the order in which
-- they were found.
pub score_references-stable :
    (refs : List SymReference) (def_file file : Text) (s : ℤ)
    → keep (λ r. eqt r.file file && eqb_ℤ r.score s) (score_references refs def_file 0)
      ≡ keep (λ r. eqt r.file file && eqb_ℤ r.score s) (scored_refs refs def_file)
unfolding score_references
score_references-stable refs def_file file s =
    keep-sort higher_ref higher_ref-IsWeakOrder (λ r. eqt r.file file && eqb_ℤ r.score s)
      (λ a b p q. ground arith) (scored_refs refs def_file)
