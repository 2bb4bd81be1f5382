-- ===== src/Lsp/Callers/Examples.antt =====
-- A small call graph, and the theorems about the walk on it.
use codesight.Prelude.{
  ℕ, ◌≡◌, refl, false, List, [], ◌∷◌, map, Option, none, some, if◌then◌else◌, if_both,
}
use codesight.Prelude.Int.{pos}
use codesight.Text.{Text, str, eqt}
use codesight.Text.Result.{ok}
use codesight.Ignore.{normalize_patterns, normalize_pattern, Matcher}
use codesight.Lsp.{SymbolInformation, Position, CallHierarchyItem, LspClient, LspHost}
use codesight.Lsp.Callers.{
  CallerOutputLine, Walked, done, failed, out_of_fuel, walk_incoming, walk_fuel, start_walk,
  callers_of, incoming_nodes,
}
use codesight.Lsp.Callers.Find.{CallersOptions, find_callers}
use codesight.Lsp.Callers.Raw.{find_callers_raw}
use codesight.Lsp.Callers.Printed.{Agree, find_callers-Agree}
use codesight.Lsp.Callers.Sound.{EndsWell, walk_incoming-EndsWell}
use codesight.Lsp.Callers.Works.{IsDone, IsAnswered, walk_incoming-IsDone}

abbrev here : Position
here = record { line = pos 0; character = pos 0 }

abbrev item : Text → CallHierarchyItem
item name = record {
  name = name;
  kind = pos 12;
  uri = name;
  range = record { start = here; end = here };
  selection_range = record { start = here; end = here };
  detail = [];
}

abbrev host : LspHost
host = record {
  paths = record {
    path_match = λ p s. false;
    abs = λ s. some s;
    rel = λ b s. some s;
    ignore_file = λ d n. none;
    exists_path = λ s. false;
    hash = λ s. s;
  };
  abs_error = λ s. [];
  parse_url = λ s. ok ([], s);
  path_unescape = λ s. ok s;
  quote = λ s. s;
  read_file = λ s. none;
}

-- main is called by a and b, a by x, x and b by y, and y by z.
abbrev callers_in_graph : Text → List Text
callers_in_graph name =
    if eqt name (str "main")
    then str "a" ∷ str "b" ∷ []
    else if eqt name (str "a")
    then str "x" ∷ []
    else if eqt name (str "x")
    then str "y" ∷ []
    else if eqt name (str "b")
    then str "y" ∷ []
    else if eqt name (str "y")
    then str "z" ∷ []
    else []

abbrev client : LspClient
client = record {
  workspace_symbol = λ s. ok [];
  references = λ u p. ok [];
  prepare = λ u p. ok [];
  incoming_calls = λ i. ok (map item (callers_in_graph i.name));
}

abbrev matcher : Matcher
matcher = record { root = []; patterns = []; fingerprint = [] }

abbrev depth_and_name : CallerOutputLine → ℕ × Text
depth_and_name line = (line.depth, line.name)

abbrev listed : Walked → Option (List (ℕ × Text))
listed (done walk count) = some (map depth_and_name walk.output_lines)
listed (failed message) = none
listed out_of_fuel = none

-- y calls b, which calls main, so it is two calls away, and z three; y is shown at three and z not.
walked :
    listed (
      walk_incoming host client [] matcher
        (walk_fuel 3)
        (item (str "main"))
        3
        1
        (str "main" ∷ [])
        (start_walk (str "main")))
    ≡ some ((1, str "a") ∷ (2, str "x") ∷ (3, str "y") ∷ (1, str "b") ∷ [])
unfolding walk_incoming
walked = refl

walk_incoming-EndsWell_example :
    EndsWell host client [] matcher (item (str "main")) (str "main") 3 (
      walk_incoming host client [] matcher
        (walk_fuel 3)
        (item (str "main"))
        3
        1
        (str "main" ∷ [])
        (start_walk (str "main")))
walk_incoming-EndsWell_example =
    walk_incoming-EndsWell host client [] matcher (item (str "main")) (str "main") 3

answered : (i : CallHierarchyItem) → IsAnswered (callers_of host client [] matcher i)
unfolding callers_of
answered i =
    let Q =
      λ (names : List Text). IsAnswered (incoming_nodes host client [] matcher (map item names)) in
    if_both Q (eqt i.name (str "main")) tt (
      if_both Q (eqt i.name (str "a")) tt (
        if_both Q (eqt i.name (str "x")) tt
          (if_both Q (eqt i.name (str "b")) tt (if_both Q (eqt i.name (str "y")) tt tt))))

walk_incoming-IsDone_example : IsDone (
    walk_incoming host client [] matcher
      (walk_fuel 3)
      (item (str "main"))
      3
      1
      (str "main" ∷ [])
      (start_walk (str "main")))
walk_incoming-IsDone_example =
    walk_incoming-IsDone host client [] matcher answered (item (str "main")) (str "main") 3

abbrev main_symbol : SymbolInformation
main_symbol = record {
  name = str "main";
  kind = pos 12;
  location = record { uri = str "main"; range = record { start = here; end = here } };
  container_name = [];
}

abbrev full_client : LspClient
full_client = record client {
  workspace_symbol = λ s. ok (main_symbol ∷ []);
  prepare = λ u p. ok (item (str "main") ∷ []);
}

abbrev opts : CallersOptions
opts = record {
  workspace_root = str "w";
  filter_path = [];
  symbol = str "main";
  depth = pos 1;
  lsp_binary = [];
  lsp_install = [];
}

text_of_callers :
    find_callers host (some full_client) opts
    ≡ ok (str "main (main:1)\n  <- a (a:1)\n  <- b (b:1)\n2 callers (depth 1)")
unfolding find_callers normalize_patterns normalize_pattern
text_of_callers = refl

find_callers-Agree_example :
    Agree 1
      (find_callers host (some full_client) opts)
      (find_callers_raw host (some full_client) opts)
find_callers-Agree_example = find_callers-Agree host full_client opts
