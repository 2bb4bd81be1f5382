-- ===== src/Ignore/Examples.antt =====
-- Runs of the matcher over a small host, and the theorems about it at concrete inputs.
use mathlib.Core.List.Perm
use codesight.Prelude.{
  ◌≡◌, ◌≢◌, refl, true, false, List, [], ◌∷◌, ◌++◌, any, none, some, if◌then◌else◌, map,
}
use codesight.Text.{Text, str, eqt, trim_prefix, split}
use codesight.Text.FilePath.{slash}
use codesight.Ignore.{
  PathHost, Matcher, new_matcher, matches_relative, fingerprint_for_patterns, normalize_patterns,
  normalize_pattern, elem, default_patterns,
}
use codesight.Ignore.Rules.{gives, NoRepeat, normalize_patterns-NoRepeat}
use codesight.Ignore.Hidden.{matches_relative_mono, matches_relative-default}
use codesight.Ignore.Fingerprint.{fingerprint_for_patterns-perm}

-- A host whose only glob is `*`, with one ignore file.
abbrev small_host : PathHost
small_host = record {
  path_match = λ pattern path. eqt pattern (str "*");
  abs = λ path. some path;
  rel = λ from path. some path;
  ignore_file = λ root name.
      if eqt name (str ".gitignore")
      then some (map str ("# c" ∷ " /out/ " ∷ "a/b" ∷ "a/b/" ∷ []))
      else none;
  exists_path = λ path. false;
  hash = λ bytes. bytes;
}

rules :
    normalize_patterns (map str ("# c" ∷ " /out/ " ∷ "a/b" ∷ "./a/b/" ∷ "!x" ∷ []))
    ≡ map str ("/out" ∷ "a/b" ∷ [])
unfolding normalize_patterns normalize_pattern
rules = refl

abbrev small_matcher : Matcher
small_matcher = record {
  root = str "/r";
  patterns = default_patterns ++ map str ("/out" ∷ "a/b" ∷ []);
  fingerprint = [];
}

hidden :
    (matches_relative small_host small_matcher (str "./x/a/b/c") ≡ true)
    × (matches_relative small_host small_matcher (str "src/vendor/y.go") ≡ true)
    × (matches_relative small_host small_matcher (str "a/bc") ≡ false)
    × (matches_relative small_host small_matcher (str ".") ≡ false)
unfolding matches_relative
hidden = (refl, refl, refl, refl)

normalize_patterns-NoRepeat_example :
    (elem (str "a/b") (normalize_patterns (str "a/b/" ∷ str "a/b" ∷ []))
      ≡ any (gives (str "a/b")) (str "a/b/" ∷ str "a/b" ∷ []))
    × NoRepeat (normalize_patterns (str "a/b/" ∷ str "a/b" ∷ []))
normalize_patterns-NoRepeat_example =
    normalize_patterns-NoRepeat (str "a/b/" ∷ str "a/b" ∷ []) (str "a/b")

abbrev matcher_with : List Text → Matcher
matcher_with extra = record {
  root = str "/r";
  patterns =
      normalize_patterns
        (default_patterns ++ (extra ++ (map str ("# c" ∷ " /out/ " ∷ "a/b" ∷ "a/b/" ∷ []) ++ [])));
  fingerprint = fingerprint_for_patterns small_host (
      normalize_patterns
        (default_patterns ++ (extra ++ (map str ("# c" ∷ " /out/ " ∷ "a/b" ∷ "a/b/" ∷ []) ++ []))));
}

made : (extra : List Text) → new_matcher small_host (str "/r") extra ≡ some (matcher_with extra)
unfolding new_matcher eqt
made extra = refl

hidden_out : matches_relative small_host (matcher_with []) (str "a/b/c") ≡ true
unfolding matches_relative normalize_patterns normalize_pattern
hidden_out = refl

matches_relative_mono_example :
    matches_relative small_host (matcher_with (str "gen" ∷ [])) (str "a/b/c") ≡ true
matches_relative_mono_example =
    matches_relative_mono small_host (str "/r") [] (str "gen" ∷ []) (matcher_with [])
      (matcher_with (str "gen" ∷ [])) (str "a/b/c") (made []) (made (str "gen" ∷ [])) hidden_out

git_is_default : elem (str ".git") default_patterns ≡ true
unfolding eqt
git_is_default = refl

git_segment : elem (str ".git") (split slash (trim_prefix (str "./") (str "./x/.git/y.go"))) ≡ true
unfolding eqt split trim_prefix
git_segment = refl

not_the_root : trim_prefix (str "./") (str "./x/.git/y.go") ≢ str "."
unfolding trim_prefix
not_the_root e = cc

matches_relative-default_example :
    matches_relative small_host (matcher_with []) (str "./x/.git/y.go") ≡ true
matches_relative-default_example =
    matches_relative-default small_host (str "/r") [] (matcher_with []) (str "./x/.git/y.go")
      (str ".git") (made []) git_is_default git_segment not_the_root

fingerprint_for_patterns-perm_example :
    fingerprint_for_patterns small_host (str "b" ∷ str "a" ∷ [])
    ≡ fingerprint_for_patterns small_host (str "a" ∷ str "b" ∷ [])
fingerprint_for_patterns-perm_example =
    fingerprint_for_patterns-perm small_host (str "b" ∷ str "a" ∷ []) (str "a" ∷ str "b" ∷ [])
      (Perm.swap (str "a") (str "b") [])
