-- ===== src/Index/Walk/Examples.antt =====
-- Runs of the walk over a small tree, and its theorem at a concrete input.
use codesight.Prelude.{◌≡◌, ◌↔◌, refl, true, [], ◌∷◌, Option, none, some, false}
use codesight.Prelude.Int.{pos}
use codesight.Text.{str, eqt}
use codesight.Text.FilePath.{join_path, ext}
use codesight.Text.Unicode.{ascii}
use codesight.Ignore.{PathHost, Matcher, matches_relative, elem}
use codesight.Index.Walk.{
  FileTree, file, folder, unreadable, no_entries, entry, WalkOptions, walk, walk_files, is_wanted,
}
use codesight.Index.Walk.Listed.{IsListed, walk_files_iff}

abbrev bare_host : PathHost
bare_host = record {
  path_match = λ pattern path. false;
  abs = λ path. some path;
  rel = λ from path. none;
  ignore_file = λ root name. none;
  exists_path = λ path. false;
  hash = λ bytes. bytes;
}

abbrev gen_matcher : Matcher
gen_matcher = record { root = str "/r"; patterns = str "gen" ∷ []; fingerprint = [] }

abbrev small_limit : Option WalkOptions
small_limit = some (record { extensions = none; extra_ignore = []; max_file_size_kb = pos 1 })

abbrev small_tree : FileTree
small_tree = folder (
    entry (str "a.GO") (file 10) (
      entry (str "big.go") (file 1025) (
        entry (str "gen") (folder (entry (str "b.go") (file 1) no_entries)) (
          entry (str "note.txt") (file 1) (
            entry (str "src") (folder (entry (str "c.py") (file 1024) no_entries))
              (entry (str "x.go") unreadable no_entries))))))

walked :
    walk_files bare_host ascii small_limit gen_matcher (str "/r") small_tree
    ≡ str "/r/a.GO" ∷ str "/r/src/c.py" ∷ []
unfolding walk is_wanted matches_relative join_path ext eqt
walked = refl

walk_files_iff_example :
    (elem
        (str "/r/src/c.py")
        (walk_files bare_host ascii small_limit gen_matcher (str "/r") small_tree)
      ≡ true)
    ↔ IsListed bare_host ascii small_limit gen_matcher
        (str "/r")
        (str ".")
        small_tree
        (str "/r/src/c.py")
walk_files_iff_example =
    walk_files_iff bare_host ascii small_limit gen_matcher (str "/r") (str "/r/src/c.py") small_tree
