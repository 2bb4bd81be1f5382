-- ===== src/Index/Walk.antt =====
-- pkg/walker.go: which files of a project are indexed. The tree that filepath.Walk visits is data, in
-- the order of the visit; the size limit is in whole numbers, with int64's wrap-around.
pub mod Listed
mod Examples
use codesight.Prelude.{
  ℕ, ◌*◌, ◌%◌, ◌^◌, Bool, true, false, not, ◌&&◌, List, [], ◌∷◌, ◌++◌, any, map, if◌then◌else◌,
  Option, none, some, arith,
}
use codesight.Prelude.Int.{to_int64, ℤ, pos, negsuc, ltb_ℤ}
use codesight.Text.{Text, str, eqt}
use codesight.Text.FilePath.{ext, join_path, slash}
use codesight.Text.Unicode.{Unicode}
use codesight.Ignore.{PathHost, Matcher, new_matcher, matches_relative, elem}

-- A path that the walk cannot read comes with an error, which the callback passes over.
mutual
  pub data FileTree : Type 0 where
    unreadable : FileTree
    file : ℕ → FileTree
    folder : Entries → FileTree

  pub data Entries : Type 0 where
    no_entries : Entries
    entry : Text → FileTree → Entries → Entries

pub record WalkOptions : Type 0 where
  pub extensions : Option (List Text)
  pub extra_ignore : List Text
  pub max_file_size_kb : ℤ

abbrev default_extensions : List Text
default_extensions = map str (
    ".go" ∷ ".ts" ∷ ".tsx" ∷ ".js" ∷ ".jsx" ∷ ".py" ∷ ".java" ∷ ".rs" ∷ ".c" ∷ ".h" ∷ ".cpp" ∷ ".cc"
    ∷ ".cxx" ∷ ".hpp" ∷ ".hxx" ∷ ".rb" ∷ ".php" ∷ ".cs" ∷ ".swift" ∷ ".kt" ∷ ".scala" ∷ ".sh"
    ∷ ".bash" ∷ ".sql" ∷ [])

abbrev given_or_default : Option (List Text) → List Text
given_or_default none = default_extensions
given_or_default (some extensions) = extensions

abbrev extensions_for_walk : Option WalkOptions → List Text
extensions_for_walk none = default_extensions
extensions_for_walk (some opts) = given_or_default opts.extensions

abbrev extra_ignore_patterns : Option WalkOptions → List Text
extra_ignore_patterns none = []
extra_ignore_patterns (some opts) = opts.extra_ignore

abbrev bytes_of_kb : ℤ → ℤ
bytes_of_kb (negsuc n) = pos 0
bytes_of_kb (pos n) = to_int64 (n * 1024 % 2 ^ 64)

abbrev max_file_size_bytes : Option WalkOptions → ℤ
max_file_size_bytes none = pos 0
max_file_size_bytes (some opts) = bytes_of_kb opts.max_file_size_kb

-- filepath.Rel of an entry, from that of its folder
abbrev pub below : Text → Text → Text
below rel name = if eqt rel (str ".") then name else rel ++ slash ∷ name

abbrev pub matcher_for_walk : PathHost → Text → Option WalkOptions → Option Matcher
matcher_for_walk host root opts = new_matcher host root (extra_ignore_patterns opts)

module _ (host : PathHost) (unicode : Unicode) (opts : Option WalkOptions) (matcher : Matcher) where
  -- Is a file of that path and size to be indexed, as far as its extension and its size go?
  unfoldable pub is_wanted : Text → ℕ → Bool
  unfolding ext
  is_wanted path size =
      elem (unicode.to_lower (ext path)) (extensions_for_walk opts)
      && not
          (ltb_ℤ (pos 0) (max_file_size_bytes opts) && ltb_ℤ (max_file_size_bytes opts) (pos size))

  -- The files from a path on, whose path relative to the root is `rel`.
  unfoldable mutual
    pub walk : Text → Text → FileTree → List Text
    walk path rel unreadable = []
    walk path rel (file size) =
        if matches_relative host matcher rel
        then []
        else if is_wanted path size
        then path ∷ []
        else []
    walk path rel (folder entries) =
        let inside = walk_all path rel entries in
        if matches_relative host matcher rel then [] else inside

    pub walk_all : Text → Text → Entries → List Text
    walk_all path rel no_entries = []
    walk_all path rel (entry name tree entries) =
        walk (join_path path name) (below rel name) tree ++ walk_all path rel entries

  -- walkFiles
  abbrev pub walk_files : Text → FileTree → List Text
  walk_files root tree = walk root (str ".") tree
