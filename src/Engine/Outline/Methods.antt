-- ===== src/Engine/Outline/Methods.antt =====
-- Which methods of a long class are shown whole: the third part of pkg/engine/outliner.go.
use codesight.Prelude.{
  ℕ, zero, suc, ◌+◌, ◌-◌, ◌/◌, ◌==◌, Bool, ◌&&◌, ◌||◌, List, [], ◌∷◌, ◌++◌, map, any, leb,
  if◌then◌else◌, keep,
}
use codesight.Prelude.Int.{ℤ, pos, ltb_ℤ, sub_ℕ}
use codesight.Prelude.Sort.{sort}
use codesight.Text.{Text, str, eqt, has_prefix, contains, split, join}
use codesight.Text.Fields.{fields}
use codesight.Text.Unicode.{Unicode}
use codesight.Engine.{OutlineEntry, CodeSlice}
use codesight.Engine.Slicer.{join_lines, newline}

abbrev pub max_top_methods : ℕ
max_top_methods = 4

unfoldable pub is_method : OutlineEntry → Bool
unfolding eqt
is_method e = eqt e.kind (str "method") || eqt e.kind (str "constructor")

-- The first line, and a quarter of the way from it to that of the last entry; `/` cuts toward zero.
abbrev pub quartile : ℕ → ℕ → ℕ
quartile first last =
    if leb first last then first + (last - first) / 4 else first - (first - last) / 4

abbrev last_line_or : ℕ → List OutlineEntry → ℕ
last_line_or line [] = line
last_line_or line (e ∷ es) = last_line_or e.line es

abbrev pub first_quartile : List OutlineEntry → ℕ
first_quartile [] = 0
first_quartile (e ∷ es) = quartile e.line (last_line_or e.line es)

-- The lines of a method; a node never ends before it begins.
abbrev pub line_count : OutlineEntry → ℕ
line_count e = e.end_line + 1 - e.line

pub record Scored : Type 0 where
  pub item : OutlineEntry
  pub score : ℤ

abbrev pub higher : Scored → Scored → Bool
higher a b = ltb_ℤ b.score a.score

-- Go's slices of one range: the lines of the entry, cut as joinLines cuts them.
abbrev method_code : Text → OutlineEntry → Text
method_code source e = join_lines (split newline source) (e.line - 1) (e.end_line - 1)

module _ (unicode : Unicode) where
  unfoldable pub is_constructor_name : Text → Bool
  unfolding eqt has_prefix
  is_constructor_name name =
      eqt (unicode.to_lower name) (str "__init__")
      || eqt (unicode.to_lower name) (str "constructor")
      || eqt (unicode.to_lower name) (str "new")
      || eqt (unicode.to_lower name) (str "init")
      || has_prefix (str "New") name

  unfoldable pub is_constructor : OutlineEntry → Bool
  unfolding is_constructor_name eqt
  is_constructor e = eqt e.kind (str "constructor") || is_constructor_name e.name

  abbrev pub is_public : OutlineEntry → Bool
  is_public e = eqt e.visibility (str "public")

  abbrev pub has_query_word : List Text → OutlineEntry → Bool
  has_query_word words e = any (λ w. contains w (unicode.to_lower e.name)) words

  -- The bonuses of an entry, and the penalty of one that stands on a single line.
  unfoldable pub bonuses : List Text → ℕ → OutlineEntry → ℕ
  unfolding is_constructor eqt contains
  bonuses words quarter e =
      (if is_constructor e then 5 else 0)
      + (if is_public e then 3 else 0)
      + (if leb 10 (line_count e) && leb (line_count e) 40 then 2 else 0)
      + (if has_query_word words e then 2 else 0)
      + (if leb e.line quarter then 1 else 0)

  unfoldable pub score_method : List Text → ℕ → OutlineEntry → Scored
  unfolding bonuses
  score_method words quarter e = record {
    item = e;
    score = sub_ℕ (bonuses words quarter e) (if e.end_line == e.line then 1 else 0);
  }

  abbrev pub scored_methods : List OutlineEntry → Text → List Scored
  scored_methods entries query =
      map (score_method (fields (unicode.to_lower query)) (first_quartile entries)) entries

  unfoldable pub rank_methods : List OutlineEntry → Text → List OutlineEntry
  unfolding sort score_method fields
  rank_methods entries query =
      map (λ (s : Scored). s.item) (sort higher (scored_methods entries query))

  abbrev reason_parts : OutlineEntry → List Text
  reason_parts e =
      (if is_constructor e then str "constructor" ∷ [] else [])
      ++ (if is_public e then str "public" ∷ [] else [])

  abbrev or_relevant : List Text → List Text
  or_relevant [] = str "relevant" ∷ []
  or_relevant (p ∷ ps) = p ∷ ps

  unfoldable pub rank_reason : OutlineEntry → Text
  unfolding is_constructor eqt join
  rank_reason e = join (str ", ") (or_relevant (reason_parts e))

  abbrev pub method_slice : Text → OutlineEntry → CodeSlice
  method_slice source e = record {
    label = str "Method: " ++ e.name;
    start_line = e.line;
    end_line = e.end_line;
    reason = rank_reason e;
    code = method_code source e;
  }

  -- The loop over the ranked methods: `left` more may be shown, `used` lines are taken.
  unfoldable pub expand : Text → ℤ → ℕ → ℕ → List OutlineEntry → List CodeSlice
  unfolding rank_reason join_lines
  expand source budget left used [] = []
  expand source budget zero used (e ∷ es) = []
  expand source budget (suc left) used (e ∷ es) =
      let rest = expand source budget left (used + line_count e) es in
      if ltb_ℤ budget (pos (used + line_count e)) then [] else method_slice source e ∷ rest

  unfoldable pub select_and_expand_top_methods :
      Text → Text → ℤ → List OutlineEntry → List CodeSlice
  unfolding is_method rank_methods expand
  select_and_expand_top_methods source query budget outline =
      expand source budget max_top_methods 0 (rank_methods (keep is_method outline) query)
