-- ===== src/Engine/Scoring.antt =====
-- pkg/engine/scoring.go. A float64 score is an integer weight plus 2 * shared / n, where n is the
-- number of segments of the definition's file, the same for all items of one call. The model keeps
-- the exact score times n, an integer, so that comparing two scores of a call is comparing integers.
-- The float64 sum is rounded: two items whose exact scores differ compare in the same way in Go (they
-- differ by 1 / n at least), and so do two of the same file, which add the same numbers; but two items
-- of different files with the same exact score may round differently, and Go may then order them by
-- the last bit where the model keeps the order in which they were found.
pub mod Ranking
pub mod Weights
use codesight.Prelude.{
  ℕ, suc, ◌+◌, ◌*◌, ◌≤◌, ◌≡◌, refl, Bool, true, false, ◌&&◌, ◌||◌, List, [], ◌∷◌, ◌++◌, map, arith,
  ltb, leb, ◌==◌, if◌then◌else◌, length, take,
}
use codesight.Prelude.Int.{ℤ, sub_ℕ, ltb_ℤ}
use codesight.Prelude.Sort.{sort}
use codesight.Text.{Text, str, eqt, has_prefix, has_suffix, has_byte, contains, split}
use codesight.Text.FilePath.{base, dir, slash}
use codesight.Engine.{SymReference, SymCaller}

abbrev pub weight_direct_call : ℕ
weight_direct_call = 3

abbrev pub weight_same_file_or_pkg : ℕ
weight_same_file_or_pkg = 2

abbrev pub weight_path_proximity : ℕ
weight_path_proximity = 2

abbrev pub weight_diversity_bonus : ℕ
weight_diversity_bonus = 1

abbrev pub penalty_near_duplicate : ℕ
penalty_near_duplicate = 2

abbrev pub duplicate_threshold_file : ℕ
duplicate_threshold_file = 2

unfoldable pub append_reason : Text → Text → Text
append_reason [] addition = addition
append_reason (c ∷ existing) addition = (c ∷ existing) ++ (str " + " ++ addition)

unfoldable pub is_test_file : Text → Bool
unfolding base has_suffix contains
is_test_file path =
    has_suffix (str "_test.go") (base path)
    || has_suffix (str ".test.ts") (base path)
    || has_suffix (str ".test.js") (base path)
    || has_suffix (str "_test.py") (base path)
    || has_prefix (str "test_") (base path)
    || contains (str "/test/") path
    || contains (str "/tests/") path

-- counts[file] after the loop
unfoldable pub count_by_file : List SymReference → Text → ℕ
count_by_file [] file = 0
count_by_file (ref ∷ refs) file =
    if eqt ref.file file then suc (count_by_file refs file) else count_by_file refs file

-- How many leading segments agree.
unfoldable pub shared_segments : List Text → List Text → ℕ
unfolding eqt
shared_segments (p ∷ ps) (q ∷ qs) = if eqt p q then suc (shared_segments ps qs) else 0
shared_segments _ _ = 0

-- The number of segments by which scores are scaled; it is never 0.
unfoldable pub segments : Text → ℕ
unfolding split
segments def_file = length (split slash def_file)

-- The proximity score times `segments def_file`.
unfoldable pub path_proximity_score : Text → Text → ℕ
unfolding shared_segments split
path_proximity_score file def_file =
    weight_path_proximity * shared_segments (split slash file) (split slash def_file)

-- Same file, or else same package.
unfoldable pub same_place : Text → Text → Text → Bool
unfolding eqt dir
same_place file def_file def_dir = if eqt file def_file then true else eqt (dir file) def_dir

-- What a reference gains and loses, before scaling, apart from proximity.
unfoldable pub bonus : SymReference → Text → Text → ℕ
unfolding same_place is_test_file has_byte
bonus ref def_file def_dir =
    (if has_byte b'(' ref.snippet then weight_direct_call else 0)
    + (if same_place ref.file def_file def_dir then weight_same_file_or_pkg else 0)
    + (if is_test_file ref.file then weight_diversity_bonus else 0)

unfoldable pub penalty : SymReference → (Text → ℕ) → ℕ
penalty ref file_counts =
    if ltb duplicate_threshold_file (file_counts ref.file) then penalty_near_duplicate else 0

unfoldable pub reason_of : SymReference → Text → Text → Text
unfolding append_reason same_place is_test_file has_byte
reason_of ref def_file def_dir =
    let called =
      if has_byte b'(' ref.snippet
      then append_reason ref.reason (str "direct call")
      else ref.reason in
    let placed =
      if eqt ref.file def_file
      then append_reason called (str "same file")
      else if eqt (dir ref.file) def_dir
      then append_reason called (str "same package")
      else called in
    if is_test_file ref.file then append_reason placed (str "test anchor") else placed

unfoldable pub score_ref : Text → Text → (Text → ℕ) → SymReference → SymReference
unfolding bonus penalty reason_of path_proximity_score segments
score_ref def_file def_dir file_counts ref = record ref {
  score =
      sub_ℕ
        (bonus ref def_file def_dir * segments def_file + path_proximity_score ref.file def_file)
        (penalty ref file_counts * segments def_file);
  reason = reason_of ref def_file def_dir;
}

unfoldable pub score_caller : SymCaller → Text → Text → ℤ
unfolding same_place path_proximity_score segments
score_caller caller def_file def_dir =
    sub_ℕ
      ((weight_direct_call
            + (if same_place caller.file def_file def_dir then weight_same_file_or_pkg else 0)
            + (if leb caller.depth 1 then weight_diversity_bonus else 0))
          * segments def_file
        + path_proximity_score caller.file def_file)
      0

-- refs[:maxItems], where a limit is set
abbrev pub truncate {ℓ} : {A : Type ℓ} → ℕ → List A → List A
truncate max_items items =
    if ltb 0 max_items && ltb max_items (length items) then take max_items items else items

abbrev pub higher_ref : SymReference → SymReference → Bool
higher_ref a b = ltb_ℤ b.score a.score

abbrev pub higher_caller : SymCaller → SymCaller → Bool
higher_caller a b = ltb_ℤ b.score a.score

-- The references of a call with their scores, in the order given.
abbrev pub scored_refs : List SymReference → Text → List SymReference
scored_refs refs def_file = map (score_ref def_file (dir def_file) (count_by_file refs)) refs

-- An empty list is returned at once; sorting and cutting it gives the same.
unfoldable pub score_references : List SymReference → Text → ℕ → List SymReference
unfolding sort score_ref count_by_file dir
score_references refs def_file max_items =
    truncate max_items (sort higher_ref (scored_refs refs def_file))

abbrev pub scored_callers : List SymCaller → Text → List SymCaller
scored_callers callers def_file =
    map (λ (c : SymCaller). record c { score = score_caller c def_file (dir def_file) }) callers

unfoldable pub score_callers : List SymCaller → Text → ℕ → List SymCaller
unfolding sort score_caller dir
score_callers callers def_file max_items =
    truncate max_items (sort higher_caller (scored_callers callers def_file))
