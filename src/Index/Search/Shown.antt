-- ===== src/Index/Search/Shown.antt =====
-- Which results of a search are shown, and how they are numbered.
use codesight.Prelude.{
  ℕ, zero, suc, ◌+◌, ◌≡◌, refl, ap, Bool, not, List, [], ◌∷◌, map, length, keep, Bool-cases, inl,
  inr,
}
use codesight.Text.{Text}
use codesight.Ignore.{Matcher}
use codesight.Index.Search.{
  SearchHost, SearchResult, SearchResultEntry, search_result_ignored, entries_from,
}

-- first + 1, first + 2, and so on
abbrev pub numbers_from : ℕ → ℕ → List ℕ
numbers_from first zero = []
numbers_from first (suc n) = (first + 1) ∷ numbers_from (suc first) n

abbrev pub rank_of : {F : Type 0} → SearchResultEntry F → ℕ
rank_of e = e.rank

abbrev pub place_of : {F : Type 0} → SearchResultEntry F → Text × ℕ × ℕ × F
place_of e = (e.file_path, e.start_line, e.end_line, e.score)

abbrev pub result_place : {F : Type 0} → SearchResult F → Text × ℕ × ℕ × F
result_place r = (r.document.file_path, r.document.start_line, r.document.end_line, r.score)

module _ {V F : Type 0} (host : SearchHost V F) (matcher : Matcher) where
  abbrev pub is_shown : SearchResult F → Bool
  is_shown r = not (search_result_ignored host matcher r.document.file_path)

  entries-ranks :
      (first : ℕ) (results : List (SearchResult F))
      → map rank_of (entries_from host matcher first results)
        ≡ numbers_from first (length (entries_from host matcher first results))
  unfolding entries_from
  entries-ranks first [] = refl
  entries-ranks first (r ∷ results) =
      elim (Bool-cases (search_result_ignored host matcher r.document.file_path)) [
        | inl e ↦ rw e (entries-ranks first results)
        | inr e ↦ rw e (ap (λ rest. (first + 1) ∷ rest) (entries-ranks (suc first) results))
      ]

  entries-places :
      (first : ℕ) (results : List (SearchResult F))
      → map place_of (entries_from host matcher first results)
        ≡ map result_place (keep is_shown results)
  unfolding entries_from
  entries-places first [] = refl
  entries-places first (r ∷ results) =
      elim (Bool-cases (search_result_ignored host matcher r.document.file_path)) [
        | inl e ↦ rw e (entries-places first results)
        | inr e ↦ rw e (ap (λ rest. result_place r ∷ rest) (entries-places (suc first) results))
      ]

-- The entries are the results in the order of the store, less those in ignored files; their ranks count
-- from one without a gap.
pub entries_from_lem :
    {V F : Type 0} (host : SearchHost V F) (matcher : Matcher) (results : List (SearchResult F))
    → (map place_of (entries_from host matcher 0 results)
        ≡ map result_place (keep (is_shown host matcher) results))
      × (map rank_of (entries_from host matcher 0 results)
          ≡ numbers_from 0 (length (entries_from host matcher 0 results)))
entries_from_lem host matcher results =
    (entries-places host matcher 0 results, entries-ranks host matcher 0 results)
