-- ===== src/Engine/Outline/Top.antt =====
-- Which methods of a class are expanded: the best ones that fit.
use codesight.Prelude.{
  ℕ, zero, suc, ◌+◌, ◌≤◌, ◌<◌, ◌≡◌, ◌⊎◌, inl, inr, refl, subst, ap, ◌∙◌, List, [], ◌∷◌, map, arith,
  length, take, keep, Bool-cases, if_true, if_false,
}
use mathlib.Core.List.{Perm}
use mathlib.Core.List.Perm
use codesight.Prelude.Int.{pos, ltb_ℤ}
use codesight.Prelude.Sort.{IsWeakOrder, IsSorted, sort, sort-perm, sort-IsSorted}
use codesight.Text.{Text}
use codesight.Text.Unicode.{Unicode}
use codesight.Engine.{OutlineEntry, CodeSlice}
use codesight.Engine.Outline.Methods.{
  Scored, higher, score_method, scored_methods, rank_methods, is_method, line_count, method_slice,
  expand, select_and_expand_top_methods,
}

abbrev pub lines_of : List OutlineEntry → ℕ
lines_of [] = 0
lines_of (e ∷ es) = line_count e + lines_of es

-- The first `count` of the ranked methods are shown: no more than there may be and than fit into the
-- budget, and as many as that.
pub record IsShown (unicode : Unicode) (source : Text) (left budget used : ℕ)
    (ranked : List OutlineEntry) (slices : List CodeSlice) : Type 0 where
  pub count : ℕ
  pub are_first : slices ≡ map (method_slice unicode source) (take count ranked)
  pub few : count ≤ left
  pub fit : used + lines_of (take count ranked) ≤ budget
  pub most :
      (count ≡ left)
      ⊎ (length ranked ≤ count)
      ⊎ (budget < used + lines_of (take (suc count) ranked))

expand-IsShown :
    (unicode : Unicode) (source : Text) (budget left used : ℕ) (es : List OutlineEntry)
    → used ≤ budget
    → IsShown unicode source left budget used es (expand unicode source (pos budget) left used es)
unfolding expand
expand-IsShown unicode source budget left used [] h = record {
  count = 0;
  are_first = refl;
  few = omega arith;
  fit = omega arith;
  most = inr (inl (omega arith));
}
expand-IsShown unicode source budget zero used (e ∷ es) h = record {
  count = 0;
  are_first = refl;
  few = omega arith;
  fit = omega arith;
  most = inl refl;
}
expand-IsShown unicode source budget (suc left) used (e ∷ es) h =
    elim (Bool-cases (ltb_ℤ (pos budget) (pos (used + line_count e)))) [
      | inl full ↦ record {
        count = 0;
        are_first = if_true _ _ _ full;
        few = omega arith;
        fit = omega arith;
        most = inr (inr (ground arith));
      }
      | inr fits ↦
          let ih =
            expand-IsShown unicode source budget left (used + line_count e) es (ground arith) in
          record {
            count = suc ih.count;
            are_first =
                if_false _ _ _ fits
                ∙ ap (λ rest. method_slice unicode source e ∷ rest) ih.are_first;
            few = omega (arith, ih.few);
            fit = omega (arith, ih.fit);
            most = ground (arith, ih.most);
          }
    ]

higher-IsWeakOrder : IsWeakOrder higher
higher-IsWeakOrder = record { asym = λ a b h. ground arith; trans = λ a b c h k. ground arith }

items-score :
    (unicode : Unicode) (words : List Text) (quarter : ℕ) (es : List OutlineEntry)
    → map (λ (s : Scored). s.item) (map (score_method unicode words quarter) es) ≡ es
unfolding score_method
items-score unicode words quarter [] = refl
items-score unicode words quarter (e ∷ es) =
    ap (λ rest. e ∷ rest) (items-score unicode words quarter es)

-- The ranking rearranges the entries by falling score, and the score is that of `score_method`.
pub record IsRanked (unicode : Unicode) (entries : List OutlineEntry) (query : Text)
    (ranked : List OutlineEntry) : Type 0 where
  pub with_scores : List Scored
  pub names : ranked ≡ map (λ (s : Scored). s.item) with_scores
  pub same_items : Perm with_scores (scored_methods unicode entries query)
  pub ordered : IsSorted higher with_scores
  pub kept : Perm ranked entries

rank_methods-IsRanked :
    (unicode : Unicode) (entries : List OutlineEntry) (query : Text)
    → IsRanked unicode entries query (rank_methods unicode entries query)
unfolding rank_methods
rank_methods-IsRanked unicode entries query =
    let scores = scored_methods unicode entries query in
    record {
      with_scores = sort higher scores;
      names = refl;
      same_items = sort-perm higher scores;
      ordered = sort-IsSorted higher higher-IsWeakOrder scores;
      kept =
          subst (Perm _) (items-score unicode _ _ entries)
            (Perm.map (λ (s : Scored). s.item) (sort-perm higher scores));
    }

-- The methods that are expanded are the first of a ranking of all methods and constructors of the
-- outline by falling score: four at most, no more lines than the budget has, and as many as that
-- allows.
pub select_and_expand_top_methods-IsShown :
    (unicode : Unicode) (source query : Text) (budget : ℕ) (outline : List OutlineEntry)
    → (ranked : List OutlineEntry) × IsRanked unicode (keep is_method outline) query ranked
      × IsShown unicode source 4 budget 0 ranked
          (select_and_expand_top_methods unicode source query (pos budget) outline)
unfolding select_and_expand_top_methods
select_and_expand_top_methods-IsShown unicode source query budget outline = (
  rank_methods unicode (keep is_method outline) query,
  rank_methods-IsRanked unicode (keep is_method outline) query,
  expand-IsShown unicode source budget 4 0 (rank_methods unicode (keep is_method outline) query)
      (omega arith),
)
