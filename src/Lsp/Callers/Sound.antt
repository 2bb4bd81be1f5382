-- ===== src/Lsp/Callers/Sound.antt =====
-- What the walk over the callers lists: real callers, at the depth at which they are shown, each once.
use codesight.Prelude.{
  ℕ, zero, suc, ◌+◌, ◌≤◌, ◌<◌, ◌≡◌, refl, sym, subst, ap, ◌∙◌, inl, inr, List, [], ◌∷◌, ◌++◌,
  append-nil, map, arith, length, length-append, All, All-append, All-map, get_elem?, ltb, leb,
  Bool-cases, some,
}
use codesight.Text.{Text}
use codesight.Text.Result.{Result, ok, error}
use codesight.Ignore.{Matcher}
use codesight.Ignore.Rules.{NoRepeat}
use codesight.Lsp.{CallHierarchyItem, LspClient, LspHost}
use codesight.Lsp.Callers.{
  HierarchyNode, CallerOutputLine, Walk, Walked, done, failed, out_of_fuel, output_line, reserve,
  then_count, with_nodes, visit_level, callers_of, walk_incoming, walk_fuel, start_walk,
}
use codesight.Lsp.Callers.Reserved.{
  times, NoRepeat-times, identity_of, identity_shown, line_shown, map-append, times-shown,
  lines-chain, All-get, times-fresh, Reserved, reserve-Reserved,
}

module _ (host : LspHost) (client : LspClient) (root : Text) (matcher : Matcher)
    (start : CallHierarchyItem) where
  -- The node calls the item that the walk starts from, over so many calls.
  pub data IsCaller : ℕ → HierarchyNode → Type 0 where
    direct :
        {nodes : List HierarchyNode} (i : ℕ) {node : HierarchyNode}
        → callers_of host client root matcher start ≡ ok nodes
        → get_elem? nodes i ≡ some node
        → IsCaller 1 node
    further :
        {depth : ℕ} {callee : HierarchyNode} {nodes : List HierarchyNode} (i : ℕ)
        {node : HierarchyNode}
        → IsCaller depth callee
        → callers_of host client root matcher callee.item ≡ ok nodes
        → get_elem? nodes i ≡ some node
        → IsCaller (suc depth) node

  -- A caller that is shown at a depth between two limits.
  pub record IsShown (from max_depth : ℕ) (shown : ℕ × HierarchyNode) : Type 0 where
    pub above : from ≤ shown.0
    pub within : shown.0 ≤ max_depth
    pub calls : IsCaller shown.0 shown.1

  -- What a part of the walk adds: the callers it shows; `level` are those of them that were reserved
  -- before, and `count` is what was counted before.
  record Gathered (from max_depth : ℕ) (level : List HierarchyNode) (walk : Walk) (count : ℕ)
      (after : Walk) (total : ℕ) : Type 0 where
    shown : List (ℕ × HierarchyNode)
    lines : after.output_lines ≡ walk.output_lines ++ map line_shown shown
    counted : total ≡ count + length shown
    callers : All (IsShown from max_depth) shown
    taken :
        (t : Text)
        → times t after.seen + times t (map identity_of level)
          ≡ times t walk.seen + times t (map identity_shown shown)
    distinct : (t : Text) → times t walk.seen ≤ 1 → times t after.seen ≤ 1

  abbrev After : ℕ → ℕ → List HierarchyNode → Walk → ℕ → Walked → Type 0
  After from max_depth level walk count (done after total) =
      Gathered from max_depth level walk count after total
  After from max_depth level walk count (failed message) = Unit
  After from max_depth level walk count out_of_fuel = ⊥

  IsShown-weaken :
      (from max_depth : ℕ) (s : ℕ × HierarchyNode)
      → IsShown (suc from) max_depth s
      → IsShown from max_depth s
  IsShown-weaken from max_depth s h = record {
    above = omega (arith, h.above);
    within = h.within;
    calls = h.calls;
  }

  module _ (max_depth depth : ℕ) (node : HierarchyNode) (level : List HierarchyNode) (walk : Walk)
      (count : ℕ) where
    abbrev with_line : Walk
    with_line = record walk { output_lines = walk.output_lines ++ output_line depth node ∷ [] }

    -- One caller is shown, `below` adds more, and the rest of the level follows.
    After-visit :
        (middle : Walk) (more : ℕ) (end : Walked)
        → IsShown depth max_depth (depth, node)
        → Gathered (suc depth) max_depth [] with_line 0 middle more
        → After depth max_depth level middle (suc count + more) end
        → After depth max_depth (node ∷ level) walk count end
    After-visit middle more (done after total) h g k = record {
      shown = (depth, node) ∷ g.shown ++ k.shown;
      lines =
          lines-chain _ _ _ _ (map line_shown g.shown) _ k.lines g.lines
          ∙ ap (λ rest. walk.output_lines ++ output_line depth node ∷ rest)
              (sym (map-append line_shown g.shown k.shown));
      counted = omega (arith, g.counted, k.counted, length-append g.shown k.shown);
      callers = (
        h,
        All-append _ g.shown k.shown (All-map (IsShown-weaken depth max_depth) g.shown g.callers)
            k.callers,
      );
      taken = λ t. omega (arith, g.taken t, k.taken t, times-shown t g.shown k.shown);
      distinct = λ t e. k.distinct t (g.distinct t e);
    }
    After-visit middle more (failed message) h g k = tt
    After-visit middle more out_of_fuel h g k = k

    After-then :
        (below : Walked) (next : Walk → ℕ → Walked)
        → IsShown depth max_depth (depth, node)
        → After (suc depth) max_depth [] with_line 0 below
        → ((middle : Walk) (more : ℕ)
            → After depth max_depth level middle (suc count + more) (next middle more))
        → After depth max_depth (node ∷ level) walk count (then_count below next)
    unfolding then_count
    After-then (done middle more) next h g k =
        After-visit middle more (next middle more) h g (k middle more)
    After-then (failed message) next h g k = tt
    After-then out_of_fuel next h g k = g

  nothing_below : (from max_depth : ℕ) (walk : Walk) → Gathered from max_depth [] walk 0 walk 0
  nothing_below from max_depth walk = record {
    shown = [];
    lines = sym (append-nil walk.output_lines);
    counted = omega arith;
    callers = tt;
    taken = λ t. omega arith;
    distinct = λ t h. h;
  }

  -- The whole level is shown, where the walk below each of its nodes keeps to the rules.
  visit_level-After :
      (below : HierarchyNode → Walk → Walked) (max_depth depth : ℕ)
      → depth ≤ max_depth
      → ((node : HierarchyNode) (walk : Walk)
          → IsCaller depth node
          → depth < max_depth
          → After (suc depth) max_depth [] walk 0 (below node walk))
      → (level : List HierarchyNode) → All (IsCaller depth) level
      → (walk : Walk) (count : ℕ)
      → After depth max_depth level walk count (visit_level below max_depth depth level walk count)
  unfolding visit_level
  visit_level-After below max_depth depth d each [] h walk count = record {
    shown = [];
    lines = sym (append-nil walk.output_lines);
    counted = omega arith;
    callers = tt;
    taken = λ t. omega arith;
    distinct = λ t k. k;
  }
  visit_level-After below max_depth depth d each (node ∷ level) h walk count =
      let shown = with_line max_depth depth node level walk count in
      let at : IsShown depth max_depth (depth, node) = record {
        above = omega arith;
        within = d;
        calls = h.0;
      } in
      let rest = visit_level-After below max_depth depth d each level h.1 in
      elim (Bool-cases (leb max_depth depth)) [
        | inl last ↦ rw last (
            After-visit max_depth depth node level walk count shown 0 _ at (nothing_below _ _ _) (
              subst
                (λ c.
                  After depth max_depth level shown c
                    (visit_level below max_depth depth level shown (suc count)))
                (omega arith) (rest shown (suc count))))
        | inr deeper ↦ rw deeper (
            After-then max_depth depth node level walk count (below node shown) _ at
              (each node shown h.0 (ground arith)) (λ middle more. rest middle (suc count + more)))
      ]

  After-Reserved :
      (max_depth depth : ℕ) (walk : Walk) (level : List Text × List HierarchyNode)
      → Reserved (IsCaller depth) walk.seen level
      → (end : Walked) → After depth max_depth level.1 (record walk { seen = level.0 }) 0 end
      → After depth max_depth [] walk 0 end
  After-Reserved max_depth depth walk level r (done after total) g = record {
    shown = g.shown;
    lines = g.lines;
    counted = g.counted;
    callers = g.callers;
    taken = λ t. omega (arith, g.taken t, r.counted t);
    distinct = λ t h. g.distinct t (r.distinct t h);
  }
  After-Reserved max_depth depth walk level r (failed message) g = tt
  After-Reserved max_depth depth walk level r out_of_fuel g = g

  callers-All :
      (depth : ℕ) (callee : HierarchyNode) (nodes : List HierarchyNode)
      → IsCaller depth callee
      → callers_of host client root matcher callee.item ≡ ok nodes
      → All (IsCaller (suc depth)) nodes
  callers-All depth callee nodes h e = All-get _ nodes (λ i node at. further i h e at)

  -- The level below an item, where its callers are callers of the start.
  level-After :
      (below : HierarchyNode → Walk → Walked) (max_depth depth : ℕ) (ancestors : List Text)
      (walk : Walk) (callers : Result (List HierarchyNode))
      → depth ≤ max_depth
      → ((node : HierarchyNode) (after : Walk)
          → IsCaller depth node
          → depth < max_depth
          → After (suc depth) max_depth [] after 0 (below node after))
      → ((nodes : List HierarchyNode) → callers ≡ ok nodes → All (IsCaller depth) nodes)
      → After depth max_depth [] walk 0 (
          with_nodes callers (λ nodes.
            let level = reserve ancestors walk.seen nodes in
            visit_level below max_depth depth level.1 (record walk { seen = level.0 }) 0))
  unfolding with_nodes
  level-After below max_depth depth ancestors walk (error message) d each h = tt
  level-After below max_depth depth ancestors walk (ok nodes) d each h =
      let level = reserve ancestors walk.seen nodes in
      let r = reserve-Reserved (IsCaller depth) ancestors walk.seen nodes (h nodes refl) in
      After-Reserved max_depth depth walk level r _ (
        visit_level-After below max_depth depth d each level.1 r.kept
          (record walk { seen = level.0 }) 0)

  -- With a round for each depth that is left and one more, the walk does not run out of fuel.
  walk_incoming-After :
      (f : ℕ) (item : CallHierarchyItem) (max_depth depth : ℕ) (ancestors : List Text) (walk : Walk)
      → max_depth + 2 ≤ f + depth
      → depth ≤ max_depth + 1
      → ((nodes : List HierarchyNode)
          → callers_of host client root matcher item ≡ ok nodes
          → All (IsCaller depth) nodes)
      → After depth max_depth [] walk 0
          (walk_incoming host client root matcher f item max_depth depth ancestors walk)
  unfolding walk_incoming
  walk_incoming-After zero item max_depth depth ancestors walk enough d h = omega arith
  walk_incoming-After (suc f) item max_depth depth ancestors walk enough d h =
      elim (Bool-cases (ltb max_depth depth)) [
        | inl stop ↦ rw stop (nothing_below depth max_depth walk)
        | inr go ↦ rw go (
            level-After _ max_depth depth ancestors walk _ (ground arith)
              (λ node after calls deeper.
                walk_incoming-After f node.item max_depth (suc depth) (node.identity ∷ ancestors)
                  after (omega arith) (omega arith)
                  (λ nodes e. callers-All depth node nodes calls e))
              h)
      ]

-- The lines of a walk from an item: callers of the item, each at its depth, none of them twice and none
-- the item itself.
pub record IsWalk (host : LspHost) (client : LspClient) (root : Text) (matcher : Matcher)
    (start : CallHierarchyItem) (identity : Text) (max_depth : ℕ) (lines : List CallerOutputLine)
    (count : ℕ) : Type 0 where
  pub shown : List (ℕ × HierarchyNode)
  pub are_lines : lines ≡ map line_shown shown
  pub counted : count ≡ length shown
  pub callers : All (IsShown host client root matcher start 1 max_depth) shown
  pub once : NoRepeat (identity ∷ map identity_shown shown)

-- How a walk ends: in lines that are as they should be, or with an error of a request.
abbrev pub EndsWell :
    LspHost → LspClient → Text → Matcher → CallHierarchyItem → Text → ℕ → Walked → Type 0
EndsWell host client root matcher start identity max_depth (done after count) =
    IsWalk host client root matcher start identity max_depth after.output_lines count
EndsWell host client root matcher start identity max_depth (failed message) = Unit
EndsWell host client root matcher start identity max_depth out_of_fuel = ⊥

once-times :
    (identity : Text) (shown : List (ℕ × HierarchyNode)) (seen : List Text)
    → ((t : Text) → times t seen + 0 ≡ times t (identity ∷ []) + times t (map identity_shown shown))
    → ((t : Text) → times t (identity ∷ []) ≤ 1 → times t seen ≤ 1)
    → NoRepeat (identity ∷ map identity_shown shown)
once-times identity shown seen taken distinct =
    NoRepeat-times (identity ∷ map identity_shown shown)
      (λ t. omega (arith, taken t, distinct t (times-fresh t identity [] refl (omega arith))))

Gathered-EndsWell :
    (host : LspHost) (client : LspClient) (root : Text) (matcher : Matcher)
    (start : CallHierarchyItem) (identity : Text) (max_depth : ℕ) (end : Walked)
    → After host client root matcher start 1 max_depth []
        (record { seen = identity ∷ []; output_lines = [] })
        0
        end
    → EndsWell host client root matcher start identity max_depth end
Gathered-EndsWell host client root matcher start identity max_depth (done after count) g = record {
  shown = g.shown;
  are_lines = g.lines;
  counted = omega (arith, g.counted);
  callers = g.callers;
  once = once-times identity g.shown after.seen g.taken g.distinct;
}
Gathered-EndsWell host client root matcher start identity max_depth (failed message) g = tt
Gathered-EndsWell host client root matcher start identity max_depth out_of_fuel g = g

-- The walk from an item never runs out of its fuel. Unless a request or a document fails, each of its
-- lines is a caller of the item, over as many calls as the depth of the line says and no more than are
-- asked for; the item and the callers have different identities, and the count is that of the lines.
pub walk_incoming-EndsWell :
    (host : LspHost) (client : LspClient) (root : Text) (matcher : Matcher)
    (start : CallHierarchyItem) (identity : Text) (max_depth : ℕ)
    → EndsWell host client root matcher start identity max_depth (
        walk_incoming host client root matcher
          (walk_fuel max_depth)
          start
          max_depth
          1
          (identity ∷ [])
          (start_walk identity))
walk_incoming-EndsWell host client root matcher start identity max_depth =
    Gathered-EndsWell host client root matcher start identity max_depth _ (
      walk_incoming-After host client root matcher start (walk_fuel max_depth) start max_depth 1
        (identity ∷ []) _ (omega arith) (omega arith)
        (λ nodes e. All-get _ nodes (λ i node at. direct i e at)))
