-- ===== src/Lsp/Refs/Grep.antt =====
-- pkg/lsp/refs.go: grepFallbackSearcher, over a tree of files that is data. The tree is what
-- filepath.WalkDir visits, in its order; errors of the walk and of its context are left out.
use codesight.Prelude.{ℕ, suc, not, ◌&&◌, List, [], ◌∷◌, ◌++◌, if◌then◌else◌, Option, none, some}
use codesight.Prelude.Int.{pos}
use codesight.Text.{Text, eqt, contains, has_byte, trim_space, split}
use codesight.Text.FilePath.{is_empty}
use codesight.Text.Result.{Result, ok, and_then}
use codesight.Ignore.{Matcher, matches_path}
use codesight.Lsp.{LspHost, relative_path, new_workspace_ignore_matcher}
use codesight.Lsp.Formatter.{ReferenceLine, dedupe_and_sort_references}

-- A folder, a regular file, or something else, with its path; a file that cannot be read has no content.
mutual
  pub data GrepTree : Type 0 where
    folder : Text → GrepEntries → GrepTree
    regular : Text → Option Text → GrepTree
    irregular : Text → GrepTree

  pub data GrepEntries : Type 0 where
    no_entries : GrepEntries
    and_entry : GrepTree → GrepEntries → GrepEntries

-- The lines that hold the symbol, counted from `index`.
unfoldable pub matching_lines : Text → Text → ℕ → List Text → List ReferenceLine
unfolding contains
matching_lines symbol relative index [] = []
matching_lines symbol relative index (line ∷ lines) =
    let rest = matching_lines symbol relative (suc index) lines in
    if contains symbol line
    then record { path = relative; line = pos (suc index); snippet = line } ∷ rest
    else rest

module _ (host : LspHost) (root symbol : Text) (matcher : Matcher) where
  -- A file with a zero byte is passed over.
  unfoldable pub matches_in_file : Text → Option Text → List ReferenceLine
  unfolding has_byte split relative_path matching_lines
  matches_in_file path none = []
  matches_in_file path (some content) =
      if has_byte 0 content
      then []
      else matching_lines symbol (relative_path host root path) 0 (split b'\n' content)

  unfoldable mutual
    unfolding matches_path matches_in_file eqt

    pub grep_tree : GrepTree → List ReferenceLine
    grep_tree (folder path entries) =
        let below = grep_entries entries in
        if not (eqt path root) && matches_path host.paths matcher path then [] else below
    grep_tree (regular path content) =
        if matches_path host.paths matcher path then [] else matches_in_file path content
    grep_tree (irregular path) = []

    pub grep_entries : GrepEntries → List ReferenceLine
    grep_entries no_entries = []
    grep_entries (and_entry tree entries) = grep_tree tree ++ grep_entries entries

-- grepFallbackSearcher.Find on the tree below the root.
unfoldable pub grep_find : LspHost → GrepTree → Text → Text → Result (List ReferenceLine)
unfolding trim_space and_then new_workspace_ignore_matcher grep_tree dedupe_and_sort_references
grep_find host tree root symbol =
    let trimmed = trim_space symbol in
    if is_empty trimmed
    then ok []
    else and_then (new_workspace_ignore_matcher host root)
        (λ matcher. ok (dedupe_and_sort_references (grep_tree host root trimmed matcher tree)))
