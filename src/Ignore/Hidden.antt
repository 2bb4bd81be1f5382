-- ===== src/Ignore/Hidden.antt =====
-- What the ignore rules hide.
use codesight.Prelude.{
  ◌≡◌, ◌≢◌, refl, sym, ◌∙◌, ap, Bool, true, false, not, ◌&&◌, ◌||◌, inl, inr, List, [], ◌∷◌, ◌++◌,
  arith, any, Option, none, some, Bool-cases,
}
use codesight.Text.{
  Text, str, eqt, eqt_iff, eqt→eq, eqt_refl, has_byte, has_prefix, trim_prefix, split,
}
use codesight.Text.FilePath.{slash, is_empty}
use codesight.Ignore.{
  PathHost, Matcher, new_matcher, matcher_of, raw_patterns, default_patterns, normalize_pattern,
  normalize_patterns, matches, matches_pattern, matches_relative, elem, has_glob, load_ignore_file,
}
use codesight.Ignore.Rules.{any-append, gives, elem-normalize_patterns}

any_of_elem :
    (f : Text → Bool) (r : Text) (ys : List Text) → elem r ys ≡ true → f r ≡ true → any f ys ≡ true
any_of_elem f r [] h k = h
any_of_elem f r (y ∷ ys) h k = elim (Bool-cases (eqt r y)) [
  | inl same ↦ ground (arith, eqt→eq r y same)
  | inr other ↦ ground (arith, any_of_elem f r ys)
]

any_mono :
    (f : Text → Bool) (xs ys : List Text)
    → ((r : Text) → elem r xs ≡ true → elem r ys ≡ true)
    → any f xs ≡ true
    → any f ys ≡ true
any_mono f [] ys sub h = cc
any_mono f (x ∷ xs) ys sub h = elim (Bool-cases (f x)) [
  | inl hit ↦ any_of_elem f x ys (sub x (rw (eqt_refl x) refl)) hit
  | inr miss ↦ any_mono f xs ys (λ r k. sub r (ground arith)) (rw miss at h)
]

module _ (host : PathHost) where
  -- A longer list of rules hides all that a shorter one hides.
  matches_mono :
      (rel_path : Text) (ps qs : List Text)
      → ((r : Text) → elem r ps ≡ true → elem r qs ≡ true)
      → matches host rel_path ps ≡ true
      → matches host rel_path qs ≡ true
  unfolding matches
  matches_mono rel_path ps qs sub h =
      ground (arith, any_mono (matches_pattern host (trim_prefix (str "./") rel_path)) ps qs sub)

  -- A pattern with no glob character and no slash.
  abbrev is_plain : Text → Bool
  is_plain p =
      not (is_empty p)
      && not (has_prefix (slash ∷ []) p)
      && not (has_glob host p)
      && not (has_byte slash p)

  matches_pattern-plain :
      (rel_path p : Text)
      → is_plain p ≡ true
      → elem p (split slash rel_path) ≡ true
      → matches_pattern host rel_path p ≡ true
  unfolding matches_pattern trim_prefix
  matches_pattern-plain rel_path p plain h = ground arith

unsome : {A : Type 0} {a b : A} → some a ≡ some b → a ≡ b
unsome e = cc

not_eqt : (s t : Text) → s ≢ t → eqt s t ≡ false
not_eqt s t h = ground (arith, eqt_iff s t)

-- A path with a rule for a segment is not empty.
not_empty :
    (host : PathHost) (rule s : Text)
    → is_plain host rule ≡ true
    → elem rule (split slash s) ≡ true
    → is_empty s ≡ false
unfolding split eqt
not_empty host [] s plain h = cc
not_empty host (c ∷ rule) [] plain h = cc
not_empty host (c ∷ rule) (d ∷ s) plain h = refl

-- One matching rule hides a path that is not the root itself.
matches-hit :
    (host : PathHost) (rel_path rule : Text) (ps : List Text)
    → elem rule ps ≡ true
    → matches_pattern host (trim_prefix (str "./") rel_path) rule ≡ true
    → trim_prefix (str "./") rel_path ≢ str "."
    → is_empty (trim_prefix (str "./") rel_path) ≡ false
    → matches host rel_path ps ≡ true
unfolding matches
matches-hit host rel_path rule ps has_rule hit not_root not_empty =
    let some_hit =
      any_of_elem (matches_pattern host (trim_prefix (str "./") rel_path)) rule ps has_rule hit in
    rw (not_empty, not_eqt (trim_prefix (str "./") rel_path) (str ".") not_root) some_hit

patterns-new_matcher :
    (host : PathHost) (root : Text) (extra : List Text) (m : Matcher)
    → new_matcher host root extra ≡ some m
    → (abs_root : Text) × (host.abs root ≡ some abs_root)
      × (m.patterns ≡ normalize_patterns (raw_patterns host abs_root extra))
unfolding new_matcher
patterns-new_matcher host root extra m h = by_abs (host.abs root) h
  where
    by_abs :
        (o : Option Text)
        → matcher_of host extra o ≡ some m
        → (abs_root : Text) × (o ≡ some abs_root)
          × (m.patterns ≡ normalize_patterns (raw_patterns host abs_root extra))
    by_abs none e = cc
    by_abs (some path) e = (path, refl, ap (λ (k : Matcher). k.patterns) (unsome (sym e)))

-- The default rules are plain, and normalizing leaves them as they are.
default_rule :
    (host : PathHost) (rule : Text)
    → elem rule default_patterns ≡ true
    → (is_plain host rule ≡ true) × (any (gives rule) default_patterns ≡ true)
unfolding normalize_pattern has_byte
default_rule host rule h =
    (ground (arith, any_of_elem (λ p. not (is_plain host p)) rule default_patterns), h)

elem-patterns :
    (host : PathHost) (root : Text) (extra : List Text) (m : Matcher) (rule : Text)
    → new_matcher host root extra ≡ some m
    → (abs_root : Text) × (host.abs root ≡ some abs_root)
      × (elem rule m.patterns ≡ any (gives rule) (raw_patterns host abs_root extra))
elem-patterns host root extra m rule h =
    let (path, good, same) = patterns-new_matcher host root extra m h in
    (path, good, ap (elem rule) same ∙ elem-normalize_patterns rule (raw_patterns host path extra))

any-three :
    (r : Text) (xs ys zs : List Text)
    → any (gives r) (xs ++ (ys ++ zs))
      ≡ (any (gives r) xs || (any (gives r) ys || any (gives r) zs))
any-three r xs ys zs =
    any-append (gives r) xs (ys ++ zs)
    ∙ ap (λ x. any (gives r) xs || x) (any-append (gives r) ys zs)

or_weaken : (a b c d : Bool) → (a || (b || d)) ≡ true → (a || ((b || c) || d)) ≡ true
or_weaken a b c d h = ground arith

more_patterns :
    (host : PathHost) (path : Text) (extra more : List Text) (r : Text)
    → any (gives r) (raw_patterns host path extra) ≡ true
    → any (gives r) (raw_patterns host path (extra ++ more)) ≡ true
more_patterns host path extra more r h =
    let files =
      load_ignore_file host path (str ".gitignore")
      ++ load_ignore_file host path (str ".csignore") in
    any-three r default_patterns (extra ++ more) files
    ∙ ap (λ x. any (gives r) default_patterns || (x || any (gives r) files))
        (any-append (gives r) extra more)
    ∙ or_weaken (any (gives r) default_patterns) (any (gives r) extra) (any (gives r) more)
        (any (gives r) files) (sym (any-three r default_patterns extra files) ∙ h)

-- Extra rules never bring a hidden path back: what a matcher hides, one with more extra rules hides.
pub matches_relative_mono :
    (host : PathHost) (root : Text) (extra more : List Text) (m n : Matcher) (rel_path : Text)
    → new_matcher host root extra ≡ some m
    → new_matcher host root (extra ++ more) ≡ some n
    → matches_relative host m rel_path ≡ true
    → matches_relative host n rel_path ≡ true
unfolding matches_relative
matches_relative_mono host root extra more m n rel_path is_m is_n h =
    matches_mono host rel_path m.patterns n.patterns
      (λ r k.
        let (path, good, of_m) = elem-patterns host root extra m r is_m in
        let (path', good', of_n) = elem-patterns host root (extra ++ more) n r is_n in
        let same : path ≡ path' = unsome (sym good ∙ good') in
        of_n
        ∙ ap (λ x. any (gives r) (raw_patterns host x (extra ++ more))) (sym same)
        ∙ more_patterns host path extra more r (sym of_m ∙ k))
      h

-- A path with a segment that is one of the default rules (.git, node_modules, vendor, …) is hidden by
-- every matcher, whatever the extra rules and the ignore files say.
pub matches_relative-default :
    (host : PathHost) (root : Text) (extra : List Text) (m : Matcher) (rel_path rule : Text)
    → new_matcher host root extra ≡ some m
    → elem rule default_patterns ≡ true
    → elem rule (split slash (trim_prefix (str "./") rel_path)) ≡ true
    → trim_prefix (str "./") rel_path ≢ str "."
    → matches_relative host m rel_path ≡ true
unfolding matches_relative
matches_relative-default host root extra m rel_path rule is_m default segment h =
    let bare = trim_prefix (str "./") rel_path in
    let (path, good, of_m) = elem-patterns host root extra m rule is_m in
    let (plain, given) = default_rule host rule default in
    let has_rule : elem rule m.patterns ≡ true =
      of_m ∙ any-append (gives rule) default_patterns _ ∙ rw given refl in
    let hit = matches_pattern-plain host bare rule plain segment in
    matches-hit host rel_path rule m.patterns has_rule hit h
      (not_empty host rule bare plain segment)
