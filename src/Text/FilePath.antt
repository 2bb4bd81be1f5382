-- ===== src/Text/FilePath.antt =====
-- What the program uses of Go's `path` and `path/filepath` on Unix: Base, Ext, Clean, Dir, Join.
use codesight.Prelude.{
  ℕ, ◌≡◌, refl, Bool, true, false, List, [], ◌∷◌, ◌++◌, reverse, ◌==◌, ◌&&◌, if◌then◌else◌, Option,
  none, some,
}
use codesight.Text.{Text, str, eqt, split, join, has_prefix}

abbrev pub slash : ℕ
slash = b'/'

-- The text before the first `b`, or the whole text.
abbrev pub until : ℕ → Text → Text
until b [] = []
until b (c ∷ s) = if c == b then [] else c ∷ until b s

abbrev skip_byte : ℕ → Text → Text
skip_byte b [] = []
skip_byte b (c ∷ s) = let rest = skip_byte b s in if c == b then rest else c ∷ s

abbrev pub is_empty {ℓ} : {A : Type ℓ} → List A → Bool
is_empty [] = true
is_empty (c ∷ s) = false

-- path.Base
unfoldable pub base : Text → Text
base [] = str "."
base (c ∷ s) =
    let tail = skip_byte slash (reverse (c ∷ s)) in
    if is_empty tail then str "/" else reverse (until slash tail)

-- The bytes up to the last dot of a name that is given backwards, the dot with them.
abbrev ext_back : Text → Option Text
ext_back [] = none
ext_back (c ∷ s) =
    if c == slash
    then none
    else if c == b'.'
    then some (c ∷ [])
    else elim (ext_back s) [ none ↦ none | some e ↦ some (c ∷ e) ]

-- filepath.Ext
unfoldable pub ext : Text → Text
ext s = elim (ext_back (reverse s)) [ none ↦ [] | some e ↦ reverse e ]

-- One segment for the cleaned path, whose segments so far are given backwards.
abbrev push_segment : Bool → List Text → Text → List Text
push_segment rooted [] seg =
    if is_empty seg
    then []
    else if eqt seg (str ".")
    then []
    else if eqt seg (str "..") && rooted
    then []
    else seg ∷ []
push_segment rooted (top ∷ done) seg =
    if is_empty seg
    then top ∷ done
    else if eqt seg (str ".")
    then top ∷ done
    else if eqt seg (str "..")
    then (if eqt top (str "..") then seg ∷ top ∷ done else done)
    else seg ∷ top ∷ done

abbrev push_all : Bool → List Text → List Text → List Text
push_all rooted done [] = done
push_all rooted done (seg ∷ segs) = push_all rooted (push_segment rooted done seg) segs

-- filepath.Clean
unfoldable pub clean : Text → Text
unfolding split join eqt has_prefix
clean s =
    let rooted = has_prefix (str "/") s in
    let body = join (str "/") (reverse (push_all rooted [] (split slash s))) in
    if rooted then slash ∷ body else if is_empty body then str "." else body

-- filepath.Dir
unfoldable pub dir : Text → Text
unfolding clean
dir s = clean (reverse (skip_to_slash (reverse s)))
  where
    skip_to_slash : Text → Text
    skip_to_slash [] = []
    skip_to_slash (c ∷ t) = let rest = skip_to_slash t in if c == slash then c ∷ t else rest

-- filepath.Join of two elements
unfoldable pub join_path : Text → Text → Text
unfolding clean
join_path [] [] = []
join_path [] b = clean b
join_path (c ∷ a) [] = clean (c ∷ a)
join_path (c ∷ a) b = clean ((c ∷ a) ++ slash ∷ b)

dir_tests :
    (dir (str "a/b/../c.go") ≡ str "a")
    × (dir (str "x.go") ≡ str ".")
    × (dir (str "/x.go") ≡ str "/")
    × (dir (str "/a//b/") ≡ str "/a/b")
    × (clean (str "../../a/./b") ≡ str "../../a/b")
unfolding dir
dir_tests = (refl, refl, refl, refl, refl)

name_tests :
    (base (str "a/b.go/") ≡ str "b.go")
    × (base (str "//") ≡ str "/")
    × (ext (str "a.b/c.test.ts") ≡ str ".ts")
    × (ext (str "a.b/c") ≡ [])
unfolding base ext
name_tests = (refl, refl, refl, refl)
