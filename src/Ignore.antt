-- ===== src/Ignore.antt =====
-- pkg/ignore/matcher.go: which paths the ignore rules hide. The file system, `path.Match`,
-- `filepath.Abs`, `filepath.Rel` and the hash are parameters.
pub mod Rules
pub mod Hidden
pub mod Fingerprint
mod Examples
use codesight.Prelude.{
  ℕ, suc, ◌≡◌, refl, Bool, true, false, not, ◌&&◌, ◌||◌, List, [], ◌∷◌, ◌++◌, map, arith,
  if◌then◌else◌, any, length, zero, Option, none, some,
}
use codesight.Prelude.Sort.{sort}
use codesight.Text.{
  Text, str, eqt, less_text, has_prefix, has_suffix, has_byte, contains, trim_space, trim_prefix,
  trim_suffix, split, join,
}
use codesight.Text.FilePath.{base, slash, is_empty, clean, join_path, dir}

-- What the matcher asks of its surroundings.
pub record PathHost : Type 0 where
  -- path.Match: does the pattern (first) match the whole path? An invalid pattern does not.
  pub path_match : Text → Text → Bool
  -- filepath.Abs; none is an error
  pub abs : Text → Option Text
  -- filepath.Rel, the base first
  pub rel : Text → Text → Option Text
  -- the lines of a file of that name in that directory; none where it cannot be opened
  pub ignore_file : Text → Text → Option (List Text)
  -- os.Stat succeeds
  pub exists_path : Text → Bool
  -- sha256 in hexadecimal
  pub hash : Text → Text

abbrev pub default_patterns : List Text
default_patterns = map str (
    ".git" ∷ "node_modules" ∷ "vendor" ∷ "dist" ∷ "build" ∷ ".next" ∷ "__pycache__"
    ∷ ".pytest_cache" ∷ ".mypy_cache" ∷ "target" ∷ ".idea" ∷ ".vscode" ∷ ".DS_Store" ∷ [])

pub record Matcher : Type 0 where
  pub root : Text
  pub patterns : List Text
  pub fingerprint : Text

-- none is a line that holds no pattern.
unfoldable pub normalize_pattern : Text → Option Text
unfolding trim_space has_prefix trim_suffix trim_prefix eqt
normalize_pattern raw =
    let pattern = trim_space raw in
    let bare = trim_prefix (str "./") (trim_suffix (str "/") pattern) in
    if is_empty pattern || has_prefix (str "#") pattern || has_prefix (str "!") pattern
    then none
    else if is_empty bare || eqt bare (str "/")
    then none
    else some bare

abbrev pub elem : Text → List Text → Bool
elem p ps = any (eqt p) ps

-- The pattern goes behind those that are there, once.
abbrev pub add_new : List Text → Option Text → List Text
add_new normalized none = normalized
add_new normalized (some pattern) =
    if elem pattern normalized then normalized else normalized ++ pattern ∷ []

abbrev pub normalize_onto : List Text → List Text → List Text
normalize_onto normalized [] = normalized
normalize_onto normalized (raw ∷ raws) =
    normalize_onto (add_new normalized (normalize_pattern raw)) raws

unfoldable pub normalize_patterns : List Text → List Text
normalize_patterns patterns = normalize_onto [] patterns

module _ (host : PathHost) where
  unfoldable pub fingerprint_for_patterns : List Text → Text
  unfolding join sort less_text
  fingerprint_for_patterns patterns = host.hash (join (0 ∷ []) (sort less_text patterns))

  abbrev pub load_ignore_file : Text → Text → List Text
  load_ignore_file root name = elim (host.ignore_file root name) [ none ↦ [] | some lines ↦ lines ]

  -- The rules in the order in which they are read.
  abbrev pub raw_patterns : Text → List Text → List Text
  raw_patterns root extra =
      default_patterns
      ++ (extra
          ++ (load_ignore_file root (str ".gitignore") ++ load_ignore_file root (str ".csignore")))

  abbrev matcher_at : Text → List Text → Matcher
  matcher_at root extra =
      let patterns = normalize_patterns (raw_patterns root extra) in
      record {
        root = clean root;
        patterns = patterns;
        fingerprint = fingerprint_for_patterns patterns;
      }

  abbrev matcher_of : List Text → Option Text → Option Matcher
  matcher_of extra none = none
  matcher_of extra (some abs_root) = some (matcher_at abs_root extra)

  -- none is an error of filepath.Abs.
  unfoldable pub new_matcher : Text → List Text → Option Matcher
  unfolding clean fingerprint_for_patterns
  new_matcher root extra = matcher_of extra (host.abs root)

  abbrev has_glob : Text → Bool
  has_glob pattern =
      has_byte b'*' pattern
      || has_byte b'?' pattern
      || has_byte b'[' pattern
      || has_byte b']' pattern

  -- Does the pattern match the rest of the path from some segment on?
  abbrev match_from_segments : Text → List Text → Bool
  match_from_segments pattern [] = false
  match_from_segments pattern (seg ∷ segs) =
      host.path_match pattern (join (slash ∷ []) (seg ∷ segs)) || match_from_segments pattern segs

  -- The body of the loop over the patterns, after the leading slash is taken off.
  unfoldable pub matches_bare : Text → Bool → Text → Bool
  unfolding eqt has_byte base split join has_prefix has_suffix contains
  matches_bare rel_path anchored pattern =
      if is_empty pattern
      then false
      else if eqt (base rel_path) pattern
      then true
      else if has_glob pattern
      then host.path_match pattern (base rel_path)
        || host.path_match pattern rel_path
        || not anchored && match_from_segments pattern (split slash rel_path)
      else if has_byte slash pattern
      then eqt rel_path pattern
        || has_prefix (pattern ++ slash ∷ []) rel_path
        || not anchored
          && (contains (slash ∷ pattern ++ slash ∷ []) rel_path
              || has_suffix (slash ∷ pattern) rel_path)
      else elem pattern (split slash rel_path)

  unfoldable pub matches_pattern : Text → Text → Bool
  unfolding matches_bare has_prefix trim_prefix
  matches_pattern rel_path raw_pattern =
      matches_bare rel_path (has_prefix (slash ∷ []) raw_pattern)
        (trim_prefix (slash ∷ []) raw_pattern)

  unfoldable pub matches : Text → List Text → Bool
  unfolding matches_pattern trim_prefix eqt
  matches rel_path patterns =
      let bare = trim_prefix (str "./") rel_path in
      if is_empty bare || eqt bare (str ".") then false else any (matches_pattern bare) patterns

  -- The methods of a matcher that is not nil.
  unfoldable pub matches_relative : Matcher → Text → Bool
  unfolding matches
  matches_relative m rel_path = matches rel_path m.patterns

  -- A path outside the root is not hidden.
  abbrev outside : Text → Bool
  outside rel_path =
      eqt rel_path (str ".") || eqt rel_path (str "..") || has_prefix (str "../") rel_path

  abbrev absolute : Text → Text
  absolute target = elim (host.abs target) [ none ↦ clean target | some path ↦ path ]

  unfoldable pub matches_path : Matcher → Text → Bool
  unfolding matches_relative trim_space
  matches_path m target_path =
      if is_empty (trim_space target_path)
      then false
      else elim (host.rel m.root (absolute target_path)) [
        | none ↦ false
        | some rel_path ↦ if outside rel_path then false else matches_relative m rel_path
      ]

  abbrev has_marker : Text → Bool
  has_marker current =
      any (λ marker. host.exists_path (join_path current marker))
        (map str (".git" ∷ ".gitignore" ∷ ".csignore" ∷ []))

  -- The walk to the parent directories, on fuel; none is a walk that found no marker.
  unfoldable pub find_marked : ℕ → Text → Option Text
  unfolding dir
  find_marked zero current = none
  find_marked (suc f) current =
      let above = find_marked f (dir current) in
      if has_marker current then some current else if eqt (dir current) current then none else above

  -- A path has fewer parents than bytes.
  unfoldable pub find_project_root : Text → Text
  unfolding find_marked clean
  find_project_root start_dir = elim (host.abs start_dir) [
    | none ↦ start_dir
    | some path ↦ elim (find_marked (suc (length (clean path))) (clean path)) [
      | none ↦ clean path
      | some root ↦ root
    ]
  ]
