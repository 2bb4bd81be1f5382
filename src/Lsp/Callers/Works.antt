-- ===== src/Lsp/Callers/Works.antt =====
-- The walk over the callers comes to an end with a result.
use codesight.Prelude.{
  ℕ, zero, suc, ◌+◌, ◌≤◌, ◌<◌, List, [], ◌∷◌, arith, ltb, leb, Bool-cases, inl, inr,
}
use codesight.Text.{Text}
use codesight.Text.Result.{Result, ok, error}
use codesight.Ignore.{Matcher}
use codesight.Lsp.{CallHierarchyItem, LspClient, LspHost}
use codesight.Lsp.Callers.{
  HierarchyNode, Walk, Walked, done, failed, out_of_fuel, then_count, with_nodes, visit_level,
  callers_of, walk_incoming, walk_fuel, start_walk,
}

abbrev pub IsDone : Walked → Type 0
IsDone (done walk count) = Unit
IsDone (failed message) = ⊥
IsDone out_of_fuel = ⊥

abbrev pub IsAnswered : {A : Type 0} → Result A → Type 0
IsAnswered (ok a) = Unit
IsAnswered (error message) = ⊥

then_count-IsDone :
    (below : Walked) (next : Walk → ℕ → Walked)
    → IsDone below
    → ((walk : Walk) (count : ℕ) → IsDone (next walk count))
    → IsDone (then_count below next)
unfolding then_count
then_count-IsDone (done walk count) next h k = k walk count
then_count-IsDone (failed message) next h k = h
then_count-IsDone out_of_fuel next h k = h

with_nodes-IsDone :
    {A : Type 0} (answer : Result A) (next : A → Walked)
    → IsAnswered answer
    → ((a : A) → IsDone (next a))
    → IsDone (with_nodes answer next)
unfolding with_nodes
with_nodes-IsDone (ok a) next h k = k a
with_nodes-IsDone (error message) next h k = h

visit_level-IsDone :
    (below : HierarchyNode → Walk → Walked) (max_depth depth : ℕ)
    → (depth < max_depth → (node : HierarchyNode) (walk : Walk) → IsDone (below node walk))
    → (level : List HierarchyNode) (walk : Walk) (count : ℕ)
    → IsDone (visit_level below max_depth depth level walk count)
unfolding visit_level
visit_level-IsDone below max_depth depth each [] walk count = tt
visit_level-IsDone below max_depth depth each (node ∷ level) walk count =
    elim (Bool-cases (leb max_depth depth)) [
      | inl last ↦ rw last (visit_level-IsDone below max_depth depth each level _ _)
      | inr deeper ↦ rw deeper (
          then_count-IsDone (below node _) _ (each (ground arith) node _) (λ after more.
            visit_level-IsDone below max_depth depth each level after (suc count + more)))
    ]

module _ (host : LspHost) (client : LspClient) (root : Text) (matcher : Matcher)
    (answered : (item : CallHierarchyItem)
      → IsAnswered (callers_of host client root matcher item)) where
  walk-IsDone :
      (f : ℕ) (item : CallHierarchyItem) (max_depth depth : ℕ) (ancestors : List Text) (walk : Walk)
      → max_depth + 2 ≤ f + depth
      → depth ≤ max_depth + 1
      → IsDone (walk_incoming host client root matcher f item max_depth depth ancestors walk)
  unfolding walk_incoming
  walk-IsDone zero item max_depth depth ancestors walk enough d = omega arith
  walk-IsDone (suc f) item max_depth depth ancestors walk enough d =
      elim (Bool-cases (ltb max_depth depth)) [
        | inl stop ↦ rw stop tt
        | inr go ↦ rw go (
            with_nodes-IsDone (callers_of host client root matcher item) _ (answered item) (λ nodes.
              visit_level-IsDone _ max_depth depth
                (λ deeper node after.
                  walk-IsDone f node.item max_depth (suc depth) (node.identity ∷ ancestors) after
                    (omega arith) (omega arith))
                _ _ _))
      ]

-- Where the callers of every item can be found, the walk ends with a result, whatever cycles the calls
-- make.
pub walk_incoming-IsDone :
    (host : LspHost) (client : LspClient) (root : Text) (matcher : Matcher)
    → ((item : CallHierarchyItem) → IsAnswered (callers_of host client root matcher item))
    → (start : CallHierarchyItem) (identity : Text) (max_depth : ℕ)
    → IsDone (
        walk_incoming host client root matcher
          (walk_fuel max_depth)
          start
          max_depth
          1
          (identity ∷ [])
          (start_walk identity))
walk_incoming-IsDone host client root matcher answered start identity max_depth =
    walk-IsDone host client root matcher answered (walk_fuel max_depth) start max_depth 1
      (identity ∷ []) _ (omega arith) (omega arith)
