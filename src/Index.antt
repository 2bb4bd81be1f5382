-- ===== src/Index.antt =====
-- pkg/version.go and the metadata of pkg/vectorstore/store.go: when an index is out of date, and what
-- is said of it. The age of an index comes in whole minutes, as `time.Since` cut to a minute gives it.
pub mod Staleness
pub mod Run
pub mod Walk
pub mod Search
mod Examples
use codesight.Prelude.{
  ℕ, suc, ◌+◌, ◌/◌, ◌≡◌, refl, Bool, true, false, not, ◌&&◌, ◌||◌, List, [], ◌∷◌, ◌++◌, arith, ltb,
  if◌then◌else◌, length, take, Option, none, some,
}
use codesight.Prelude.Int.{ℤ, pos, negsuc}
use codesight.Text.{Text, str, eqt, trim_space, join, decimal}
use codesight.Text.FilePath.{is_empty}

-- `indexed_at` is a point in time, in nanoseconds.
pub record IndexMetadata : Type 0 where
  pub branch : Text
  pub commit_sha : Text
  pub ignore_fingerprint : Text
  pub indexed_at : ℕ
  pub file_count : ℕ
  pub chunk_count : ℕ

-- "cs_" and the first eight bytes of the hash of the path, in hexadecimal. The hash is a parameter.
abbrev pub collection_name : (Text → Text) → Text → Text
collection_name hash project_path = str "cs_" ++ take 16 (hash project_path)

-- The configured name, or else the one of the path.
unfoldable pub resolve_collection_name : (Text → Text) → Text → Text → Text
unfolding trim_space
resolve_collection_name hash project_path override =
    if is_empty (trim_space override)
    then collection_name hash project_path
    else trim_space override

abbrev stale_by : Text → Text → Text → Text → Bool
stale_by indexed_commit current_commit indexed_rules current_rules =
    if is_empty indexed_rules || is_empty current_rules
    then true
    else if not (eqt indexed_rules current_rules)
    then true
    else if is_empty indexed_commit || is_empty current_commit
    then true
    else not (eqt indexed_commit current_commit)

unfoldable pub is_stale : Option IndexMetadata → Text → Text → Bool
unfolding trim_space eqt
is_stale none current_commit current_rules = true
is_stale (some meta) current_commit current_rules =
    stale_by (trim_space meta.commit_sha) (trim_space current_commit)
      (trim_space meta.ignore_fingerprint) (trim_space current_rules)

-- sha[:7], by bytes
unfoldable pub abbreviate : Text → Text
abbreviate sha = if ltb 7 (length sha) then take 7 sha else sha

unfoldable pub format_age : ℤ → Text
unfolding decimal
format_age (negsuc n) = str "less than a minute"
format_age (pos minutes) =
    if ltb minutes 1
    then str "less than a minute"
    else if ltb minutes 60
    then decimal minutes ++ str "m"
    else if ltb minutes 1440
    then decimal (minutes / 60) ++ str "h"
    else decimal (minutes / 60 / 24) ++ str "d"

abbrev commit_reason : Text → Text → List Text
commit_reason indexed_commit current_commit =
    if is_empty indexed_commit
    then str "missing indexed commit metadata" ∷ []
    else if is_empty current_commit
    then str "current HEAD unavailable" ∷ []
    else if not (eqt indexed_commit current_commit)
    then (str "HEAD is now " ++ abbreviate current_commit) ∷ []
    else []

abbrev rules_reason : Text → Text → List Text
rules_reason indexed_rules current_rules =
    if is_empty indexed_rules
    then str "missing indexed ignore metadata" ∷ []
    else if is_empty current_rules
    then str "current ignore rules unavailable" ∷ []
    else if not (eqt indexed_rules current_rules)
    then str "ignore rules changed" ∷ []
    else []

abbrev or_unknown : List Text → List Text
or_unknown [] = str "status unknown" ∷ []
or_unknown (r ∷ rs) = r ∷ rs

-- "(%d files, %d chunks)"
abbrev counts : IndexMetadata → Text
counts meta =
    str " ("
    ++ (decimal meta.file_count ++ (str " files, " ++ (decimal meta.chunk_count ++ str " chunks)")))

abbrev info_text : IndexMetadata → ℤ → Text → Text → Text → Text → Text
info_text meta age indexed_commit current_commit indexed_rules current_rules =
    if not (is_empty indexed_commit)
      && not (is_empty current_commit)
      && eqt indexed_commit current_commit
      && not (is_empty indexed_rules)
      && not (is_empty current_rules)
      && eqt indexed_rules current_rules
    then str "up to date — indexed " ++ (format_age age ++ (str " ago" ++ counts meta))
    else let reasons = join (str " and ") (
        or_unknown (
          commit_reason indexed_commit current_commit
          ++ rules_reason indexed_rules current_rules)) in
      if not (is_empty indexed_commit)
        && not (is_empty current_commit)
        && not (eqt indexed_commit current_commit)
      then str "stale — indexed "
        ++ (format_age age
            ++ (str " ago at "
                ++ (abbreviate indexed_commit ++ (str ", " ++ (reasons ++ counts meta)))))
      else str "stale — indexed " ++ (format_age age ++ (str " ago, " ++ (reasons ++ counts meta)))

unfoldable pub staleness_info : Option IndexMetadata → ℤ → Text → Text → Text
unfolding trim_space eqt abbreviate format_age
staleness_info none age current_commit current_rules = str "not indexed"
staleness_info (some meta) age current_commit current_rules =
    info_text meta age (trim_space meta.commit_sha) (trim_space current_commit)
      (trim_space meta.ignore_fingerprint) (trim_space current_rules)
