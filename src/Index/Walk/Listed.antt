-- ===== src/Index/Walk/Listed.antt =====
-- Which files the walk returns.
use codesight.Prelude.{
  ℕ, ◌≡◌, ◌↔◌, ◌⊎◌, inl, inr, refl, sym, true, false, List, [], ◌∷◌, ◌++◌, Option, arith,
}
use codesight.Text.{Text, str, eqt, eqt_refl, eqt_iff}
use codesight.Text.FilePath.{join_path, ext}
use codesight.Prelude.Int.{pos, ◌≤ℤ◌}
use codesight.Text.Unicode.{Unicode}
use codesight.Ignore.{PathHost, Matcher, matches_relative, elem}
use codesight.Ignore.Rules.{any-append}
use codesight.Index.Walk.{
  FileTree, unreadable, file, folder, Entries, no_entries, entry, WalkOptions, below, is_wanted,
  walk, walk_all, walk_files, extensions_for_walk, max_file_size_bytes,
}

-- The tree has a file of that size at the end of the names.
unfoldable mutual
  pub FileAt : FileTree → List Text → ℕ → Type 0
  FileAt unreadable names size = ⊥
  FileAt (file n) [] size = n ≡ size
  FileAt (file n) (name ∷ names) size = ⊥
  FileAt (folder es) [] size = ⊥
  FileAt (folder es) (name ∷ names) size = FileIn es name names size

  pub FileIn : Entries → Text → List Text → ℕ → Type 0
  FileIn no_entries name names size = ⊥
  FileIn (entry first tree es) name names size =
      ((first ≡ name) × FileAt tree names size) ⊎ FileIn es name names size

-- The path at the end of the names.
abbrev pub path_of : Text → List Text → Text
path_of path [] = path
path_of path (name ∷ names) = path_of (join_path path name) names

module _ (host : PathHost) (unicode : Unicode) (opts : Option WalkOptions) (matcher : Matcher) where
  -- Neither the path nor any on the way to the end of the names is hidden.
  abbrev pub NotHidden : Text → List Text → Type 0
  NotHidden rel [] = matches_relative host matcher rel ≡ false
  NotHidden rel (name ∷ names) =
      (matches_relative host matcher rel ≡ false) × NotHidden (below rel name) names

  -- The file at the end of some names: not hidden, with one of the extensions, and no larger than the
  -- limit, where there is one.
  pub record IsListed (path rel : Text) (tree : FileTree) (p : Text) : Type 0 where
    pub names : List Text
    pub size : ℕ
    pub there : FileAt tree names size
    pub ends : p ≡ path_of path names
    pub visible : NotHidden rel names
    pub has_extension : elem (unicode.to_lower (ext p)) (extensions_for_walk opts) ≡ true
    pub fits : (max_file_size_bytes opts ≤ℤ pos 0) ⊎ (pos size ≤ℤ max_file_size_bytes opts)

  is_wanted_iff :
      (p : Text) (size : ℕ)
      → (is_wanted host unicode opts matcher p size ≡ true) ↔ (
          (elem (unicode.to_lower (ext p)) (extensions_for_walk opts) ≡ true)
          × ((max_file_size_bytes opts ≤ℤ pos 0) ⊎ (pos size ≤ℤ max_file_size_bytes opts)))
  unfolding is_wanted
  is_wanted_iff p size = ground arith

  record IsFound (path rel : Text) (tree : FileTree) (p : Text) : Type 0 where
    pub names : List Text
    pub size : ℕ
    pub there : FileAt tree names size
    pub ends : p ≡ path_of path names
    pub visible : NotHidden rel names
    pub wanted : is_wanted host unicode opts matcher p size ≡ true

  record IsFoundIn (path rel : Text) (entries : Entries) (p : Text) : Type 0 where
    name : Text
    names : List Text
    size : ℕ
    there : FileIn entries name names size
    ends : p ≡ path_of (join_path path name) names
    visible : NotHidden (below rel name) names
    wanted : is_wanted host unicode opts matcher p size ≡ true

  found_file :
      (path rel p : Text) (n : ℕ)
      → elem p (walk host unicode opts matcher path rel (file n)) ≡ true
      → ((matches_relative host matcher rel ≡ false)
          × (is_wanted host unicode opts matcher path n ≡ true))
        × (p ≡ path)
  unfolding walk
  found_file path rel p n h = ground (arith, eqt_iff p path)

  found_folder :
      (path rel p : Text) (es : Entries)
      → elem p (walk host unicode opts matcher path rel (folder es)) ≡ true
      → (matches_relative host matcher rel ≡ false)
        × (elem p (walk_all host unicode opts matcher path rel es) ≡ true)
  unfolding walk
  found_folder path rel p es h = ground arith

  elem-append_or :
      (p : Text) (xs ys : List Text)
      → elem p (xs ++ ys) ≡ true
      → (elem p xs ≡ true) ⊎ (elem p ys ≡ true)
  elem-append_or p xs ys h = ground (arith, any-append (eqt p) xs ys)

  mutual
    unfolding walk walk_all FileAt FileIn

    walk-IsFound :
        (tree : FileTree) (path rel p : Text)
        → elem p (walk host unicode opts matcher path rel tree) ≡ true
        → IsFound path rel tree p
    walk-IsFound unreadable path rel p h = cc
    walk-IsFound (file n) path rel p h =
        let ((shown, good), same) = found_file path rel p n h in
        record {
          names = [];
          size = n;
          there = refl;
          ends = same;
          visible = shown;
          wanted = rw same good;
        }
    walk-IsFound (folder es) path rel p h =
        let (shown, inside) = found_folder path rel p es h in
        let found = walk_all-IsFound es path rel p inside in
        record {
          names = found.name ∷ found.names;
          size = found.size;
          there = found.there;
          ends = found.ends;
          visible = (shown, found.visible);
          wanted = found.wanted;
        }

    walk_all-IsFound :
        (es : Entries) (path rel p : Text)
        → elem p (walk_all host unicode opts matcher path rel es) ≡ true
        → IsFoundIn path rel es p
    walk_all-IsFound no_entries path rel p h = cc
    walk_all-IsFound (entry name tree es) path rel p h =
        elim (elem-append_or p
          (walk host unicode opts matcher (join_path path name) (below rel name) tree)
          (walk_all host unicode opts matcher path rel es) h) [
            | inl here ↦
                let found = walk-IsFound tree (join_path path name) (below rel name) p here in
                record {
                  name = name;
                  names = found.names;
                  size = found.size;
                  there = inl (refl, found.there);
                  ends = found.ends;
                  visible = found.visible;
                  wanted = found.wanted;
                }
            | inr later ↦
                let found = walk_all-IsFound es path rel p later in
                record {
                  name = found.name;
                  names = found.names;
                  size = found.size;
                  there = inr found.there;
                  ends = found.ends;
                  visible = found.visible;
                  wanted = found.wanted;
                }
          ]

  file_found :
      (path rel : Text) (n : ℕ)
      → matches_relative host matcher rel ≡ false
      → is_wanted host unicode opts matcher path n ≡ true
      → elem path (walk host unicode opts matcher path rel (file n)) ≡ true
  unfolding walk
  file_found path rel n shown good = ground (arith, eqt_refl path)

  folder_found :
      (path rel p : Text) (es : Entries)
      → matches_relative host matcher rel ≡ false
      → elem p (walk_all host unicode opts matcher path rel es) ≡ true
      → elem p (walk host unicode opts matcher path rel (folder es)) ≡ true
  unfolding walk
  folder_found path rel p es shown inside = ground arith

  elem_or-append :
      (p : Text) (xs ys : List Text)
      → (elem p xs ≡ true) ⊎ (elem p ys ≡ true)
      → elem p (xs ++ ys) ≡ true
  elem_or-append p xs ys h = ground (arith, any-append (eqt p) xs ys)

  mutual
    unfolding walk_all FileAt FileIn

    IsFound-walk :
        (tree : FileTree) (path rel : Text) (names : List Text) (size : ℕ)
        → FileAt tree names size
        → NotHidden rel names
        → is_wanted host unicode opts matcher (path_of path names) size ≡ true
        → elem (path_of path names) (walk host unicode opts matcher path rel tree) ≡ true
    IsFound-walk unreadable path rel names size never shown good = elim never [ ]
    IsFound-walk (file n) path rel [] size same shown good =
        file_found path rel n shown (rw same good)
    IsFound-walk (file n) path rel (name ∷ names) size never shown good = elim never [ ]
    IsFound-walk (folder es) path rel [] size never shown good = elim never [ ]
    IsFound-walk (folder es) path rel (name ∷ names) size there (shown, deeper) good =
        folder_found path rel (path_of (join_path path name) names) es shown
          (IsFoundIn-walk_all es path rel name names size there deeper good)

    IsFoundIn-walk_all :
        (es : Entries) (path rel name : Text) (names : List Text) (size : ℕ)
        → FileIn es name names size
        → NotHidden (below rel name) names
        → is_wanted host unicode opts matcher (path_of (join_path path name) names) size ≡ true
        → elem
            (path_of (join_path path name) names)
            (walk_all host unicode opts matcher path rel es)
          ≡ true
    IsFoundIn-walk_all no_entries path rel name names size never shown good = elim never [ ]
    IsFoundIn-walk_all (entry first tree es) path rel name names size (inl (same, there)) shown
          good =
        elem_or-append _
          (walk host unicode opts matcher (join_path path first) (below rel first) tree)
          (walk_all host unicode opts matcher path rel es)
          (inl (
            rw same (
              IsFound-walk tree (join_path path name) (below rel name) names size there shown
                good)))
    IsFoundIn-walk_all (entry first tree es) path rel name names size (inr later) shown good =
        elem_or-append _
          (walk host unicode opts matcher (join_path path first) (below rel first) tree)
          (walk_all host unicode opts matcher path rel es)
          (inr (IsFoundIn-walk_all es path rel name names size later shown good))

  IsFound-IsListed :
      (path rel : Text) (tree : FileTree) (p : Text)
      → IsFound path rel tree p
      → IsListed path rel tree p
  IsFound-IsListed path rel tree p h =
      let good = (is_wanted_iff p h.size).0 h.wanted in
      record {
        names = h.names;
        size = h.size;
        there = h.there;
        ends = h.ends;
        visible = h.visible;
        has_extension = good.0;
        fits = good.1;
      }

  -- The walk returns a path exactly where it leads to a file of the tree that has a wanted extension
  -- and size, and neither the file nor any folder on the way to it, the root included, is hidden.
  pub walk_files_iff :
      (root p : Text) (tree : FileTree)
      → (elem p (walk_files host unicode opts matcher root tree) ≡ true)
        ↔ IsListed root (str ".") tree p
  walk_files_iff root p tree = (
    λ h. IsFound-IsListed root (str ".") tree p (walk-IsFound tree root (str ".") p h),
    λ h. rw h.ends (
        IsFound-walk tree root (str ".") h.names h.size h.there h.visible
          (rw (sym h.ends) ((is_wanted_iff p h.size).1 (h.has_extension, h.fits)))),
  )
