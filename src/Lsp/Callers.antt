-- ===== src/Lsp/Callers.antt =====
-- pkg/lsp/callers.go: the callers of a symbol, by a walk over the call hierarchy of the language server.
pub mod Find
pub mod Reserved
pub mod Sound
pub mod Works
pub mod Raw
pub mod Printed
mod Examples
use codesight.Prelude.{
  ℕ, zero, suc, ◌+◌, ◌-◌, ◌≡◌, Bool, true, false, not, ◌&&◌, ◌||◌, List, [], ◌∷◌, ◌++◌, map, length,
  any, ltb, leb, ◌==◌, if◌then◌else◌, Option, none, some,
}
use codesight.Prelude.Int.{ℤ, pos, ltb_ℤ, pos_part}
use codesight.Prelude.Sort.{sort}
use codesight.Text.{Text, str, eqt, less_text, join, decimal}
use codesight.Text.FilePath.{is_empty}
use codesight.Text.Result.{Result, ok, error, and_then, wrap}
use codesight.Ignore.{Matcher, matches_path, elem}
use codesight.Lsp.{
  Position, CallHierarchyItem, LspClient, LspHost, document_uri_to_path, relative_path,
}
use codesight.Lsp.Order.{by}
use codesight.Lsp.Distinct.{distinct_by}

pub record CallerOutputLine : Type 0 where
  pub depth : ℕ
  pub name : Text
  pub path : Text
  pub line : ℕ

pub record HierarchyNode : Type 0 where
  pub item : CallHierarchyItem
  pub name : Text
  pub path : Text
  pub line : ℕ
  pub character : ℕ
  pub identity : Text

abbrev start_position : CallHierarchyItem → Position
start_position item =
    if ltb_ℤ item.selection_range.start.line (pos 0)
    then item.range.start
    else item.selection_range.start

-- Negative numbers are set to zero.
abbrev pub call_hierarchy_position : CallHierarchyItem → ℕ × ℕ
call_hierarchy_position item =
    (pos_part (start_position item).line, pos_part (start_position item).character)

unfoldable pub call_hierarchy_identity : Text → ℕ → ℕ → Text → Text
unfolding decimal
call_hierarchy_identity path line character name =
    path ++ b':' ∷ (decimal line ++ b':' ∷ (decimal character ++ b':' ∷ name))

-- By path, line, character and name.
unfoldable pub before_node : HierarchyNode → HierarchyNode → Bool
unfolding eqt less_text
before_node a b = by (eqt a.path b.path) (less_text a.path b.path) (
    by (a.line == b.line) (ltb a.line b.line)
      (by (a.character == b.character) (ltb a.character b.character) (less_text a.name b.name)))

abbrev pub node_identity : HierarchyNode → Text
node_identity node = node.identity

-- What the walk has gathered: the identities that are taken, and the lines.
pub record Walk : Type 0 where
  pub seen : List Text
  pub output_lines : List CallerOutputLine

-- The fuel of the walk from depth 1: one round for each depth and one more.
abbrev pub walk_fuel : ℕ → ℕ
walk_fuel depth = suc depth

abbrev pub start_walk : Text → Walk
start_walk identity = record { seen = identity ∷ []; output_lines = [] }

-- The end of a walk: its state and the number of callers, an error, or that the fuel ran out.
pub data Walked : Type 0 where
  done : Walk → ℕ → Walked
  failed : Text → Walked
  out_of_fuel : Walked

abbrev pub output_line : ℕ → HierarchyNode → CallerOutputLine
output_line depth node = record {
  depth = depth;
  name = node.name;
  path = node.path;
  line = node.line;
}

-- The nodes of one level that are neither above in the walk nor taken already, and the identities taken
-- with them.
unfoldable pub reserve : List Text → List Text → List HierarchyNode → List Text × List HierarchyNode
unfolding eqt
reserve ancestors seen [] = (seen, [])
reserve ancestors seen (node ∷ nodes) =
    let fresh = not (elem node.identity ancestors) && not (elem node.identity seen) in
    let rest = reserve ancestors (if fresh then node.identity ∷ seen else seen) nodes in
    if fresh then (rest.0, node ∷ rest.1) else rest

-- What follows the walk below one node.
unfoldable pub then_count : Walked → (Walk → ℕ → Walked) → Walked
then_count (done walk count) next = next walk count
then_count (failed message) next = failed message
then_count out_of_fuel next = out_of_fuel

unfoldable pub with_nodes : {A : Type 0} → Result A → (A → Walked) → Walked
with_nodes (ok nodes) next = next nodes
with_nodes (error message) next = failed message

-- The loop over the nodes of a level; `below` walks below a node.
unfoldable pub visit_level :
    (HierarchyNode → Walk → Walked) → ℕ → ℕ → List HierarchyNode → Walk → ℕ → Walked
unfolding then_count
visit_level below max_depth depth [] walk count = done walk count
visit_level below max_depth depth (node ∷ nodes) walk count =
    let shown = record walk { output_lines = walk.output_lines ++ output_line depth node ∷ [] } in
    if leb max_depth depth
    then visit_level below max_depth depth nodes shown (suc count)
    else then_count (below node shown)
        (λ after more. visit_level below max_depth depth nodes after (suc count + more))

module _ (host : LspHost) (client : LspClient) (workspace_root : Text) (matcher : Matcher) where
  abbrev node_at : CallHierarchyItem → Text → ℕ × ℕ → HierarchyNode
  node_at item relative start = record {
    item = item;
    name = item.name;
    path = relative;
    line = start.0 + 1;
    character = start.1;
    identity = call_hierarchy_identity relative start.0 start.1 item.name;
  }

  -- The node without an identity stands for an item in a hidden file.
  abbrev hidden_node : CallHierarchyItem → HierarchyNode
  hidden_node item = record {
    item = item;
    name = [];
    path = [];
    line = 0;
    character = 0;
    identity = [];
  }

  unfoldable pub hierarchy_node_for_item : CallHierarchyItem → Result HierarchyNode
  unfolding and_then document_uri_to_path matches_path call_hierarchy_identity relative_path
  hierarchy_node_for_item item = and_then (document_uri_to_path host item.uri) (λ path.
      if matches_path host.paths matcher path
      then ok (hidden_node item)
      else ok
          (node_at item (relative_path host workspace_root path) (call_hierarchy_position item)))

  -- The nodes of the items that are not hidden; an item without a path is an error.
  unfoldable pub visible_nodes : List CallHierarchyItem → Result (List HierarchyNode)
  unfolding and_then hierarchy_node_for_item
  visible_nodes [] = ok []
  visible_nodes (item ∷ items) = and_then (hierarchy_node_for_item item) (λ node.
      and_then (visible_nodes items)
        (λ rest. ok (if is_empty node.identity then rest else node ∷ rest)))

  unfoldable pub incoming_nodes : List CallHierarchyItem → Result (List HierarchyNode)
  unfolding and_then visible_nodes distinct_by sort before_node
  incoming_nodes incoming =
      and_then (visible_nodes incoming)
        (λ nodes. ok (sort before_node (distinct_by node_identity [] nodes)))

  -- The callers of an item, as the server and the ignore rules give them.
  unfoldable pub callers_of : CallHierarchyItem → Result (List HierarchyNode)
  unfolding and_then incoming_nodes
  callers_of item =
      and_then
        (wrap (str "callHierarchy/incomingCalls request failed: ") (client.incoming_calls item))
        incoming_nodes

  unfoldable pub walk_incoming : ℕ → CallHierarchyItem → ℕ → ℕ → List Text → Walk → Walked
  unfolding with_nodes callers_of reserve visit_level
  walk_incoming zero item max_depth depth ancestors walk = out_of_fuel
  walk_incoming (suc f) item max_depth depth ancestors walk =
      if ltb max_depth depth
      then done walk 0
      else with_nodes (callers_of item) (λ nodes.
        let level = reserve ancestors walk.seen nodes in
        visit_level
          (λ node after.
            walk_incoming f node.item max_depth (suc depth) (node.identity ∷ ancestors) after)
          max_depth depth level.1 (record walk { seen = level.0 }) 0)
