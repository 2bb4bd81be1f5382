-- ===== src/Engine/Slicer.antt =====
-- pkg/engine/slicer.go: the view of a definition that is longer than its budget. Line numbers start
-- at 1, so `startLine` is at least 1 and `startLine - 1` does not stop at 0. The slices that the
-- syntax tree finds come from a third-party parser and are a parameter.
pub mod View
pub mod TextScan
use codesight.Prelude.{
  ℕ, zero, suc, ◌+◌, ◌-◌, ◌≤◌, ◌≡◌, refl, Bool, true, false, not, ◌&&◌, ◌||◌, List, [], ◌∷◌, ◌++◌,
  map, arith, ltb, leb, if◌then◌else◌, length, take, drop, any, get_elem?, Option, none, some,
  reverse, min, max, ◌==◌,
}
use codesight.Prelude.Int.{ℤ, pos, leb_ℤ, sub_ℕ}
use codesight.Text.{Text, str, eqt, contains, split, join}
use codesight.Engine.{CodeSlice}
use codesight.Engine.Syntax.{Node, node, Nodes, no_nodes, and_node}

abbrev pub header_slice_lines : ℕ
header_slice_lines = 12

abbrev pub salient_slice_max : ℕ
salient_slice_max = 3

abbrev pub salient_slice_size : ℕ
salient_slice_size = 10

abbrev pub newline : ℕ
newline = 10

-- `lines[from:to+1]` joined, with `to` cut to the last line; `from` is never negative here.
unfoldable pub join_lines : List Text → ℕ → ℕ → Text
unfolding join
join_lines lines from to =
    if leb (length lines) from || ltb to from
    then []
    else join (newline ∷ []) (take (suc to - from) (drop from lines))

abbrev drop_breaks : Text → Text
drop_breaks [] = []
drop_breaks (c ∷ s) = let rest = drop_breaks s in if c == newline || c == 13 then rest else c ∷ s

-- The first line of the definition without its line break.
unfoldable pub extract_signature : Text → ℕ → Text
unfolding split
extract_signature source start_line = elim (get_elem? (split newline source) (start_line - 1)) [
  | none ↦ []
  | some line ↦ reverse (drop_breaks (reverse line))
]

abbrev pub contains_any : List Text → Text → Bool
contains_any patterns line = any (λ p. contains p line) patterns

abbrev pub error_patterns : List Text
error_patterns = map str ("if err" ∷ "catch" ∷ "except " ∷ "rescue " ∷ [])

abbrev pub io_patterns : List Text
io_patterns =
    map str (
      "Read" ∷ "Write" ∷ "Open" ∷ "Close" ∷ "Get" ∷ "Post" ∷ "Query" ∷ "Exec" ∷ "Send" ∷ "Recv"
      ∷ [])

abbrev line_at : List Text → ℕ → Text
line_at lines i = elim (get_elem? lines i) [ none ↦ [] | some line ↦ line ]

abbrev is_error_line : Text → Bool
is_error_line line = contains_any error_patterns line

abbrev is_io_line : Text → Bool
is_io_line line = not (is_error_line line) && contains_any io_patterns line

unfoldable pub is_salient_line : Text → Bool
unfolding contains
is_salient_line line = is_error_line line || is_io_line line

-- The slice of the lines `from` to `to`, an I/O site or an error path.
abbrev pub salient_slice : List Text → Bool → ℕ → ℕ → CodeSlice
salient_slice lines is_io from to = record {
  label = if is_io then str "I/O site slice" else str "Error path slice";
  start_line = from;
  end_line = to;
  reason = if is_io then str "external I/O" else str "error handling";
  code = join_lines lines (from - 1) (to - 1);
}

unfoldable pub is_error_path : Text → Text → Bool
unfolding eqt contains
is_error_path kind content =
    eqt kind (str "if_statement")
      && (contains (str "err != nil") content || contains (str "err :=") content)
    || eqt kind (str "try_statement")
    || eqt kind (str "catch_clause")

unfoldable pub is_io_call : Text → Text → Bool
unfolding eqt contains
is_io_call kind content = eqt kind (str "call_expression") && contains_any io_patterns content

module _ (source : Text) (start_line end_line : ℕ) where
  -- The last line of the slice of a node, cut at the slice size and at the definition's end.
  unfoldable pub node_slice_end : ℕ → ℕ → ℕ
  node_slice_end node_line end_row =
      let last = end_row + 1 in
      let cut =
        if ltb salient_slice_size (last - node_line)
        then node_line + salient_slice_size - 1
        else last in
      if ltb end_line cut then end_line else cut

  -- What the walk does at one node, before its children.
  unfoldable pub visit : Text → ℕ → ℕ → Text → List CodeSlice → List CodeSlice
  visit kind start_row end_row content slices =
      let node_line = start_row + 1 in
      if ltb node_line start_line || ltb end_line node_line
      then slices
      else if is_error_path kind content || is_io_call kind content
      then slices
        ++ salient_slice (split newline source) (is_io_call kind content) node_line
            (node_slice_end node_line end_row)
          ∷ []
      else slices

  unfoldable mutual
    unfolding visit

    pub walk : Node → List CodeSlice → List CodeSlice
    walk (node kind start_row end_row start_byte end_byte children) slices =
        let deeper = walk_all children (
          visit kind start_row end_row (take (end_byte - start_byte) (drop start_byte source))
            slices) in
        if leb salient_slice_max (length slices) then slices else deeper

    pub walk_all : Nodes → List CodeSlice → List CodeSlice
    walk_all no_nodes slices = slices
    walk_all (and_node field named n ns) slices = walk_all ns (walk n slices)

  -- findErrorAndIOSlices
  unfoldable pub find_error_and_io_slices : Node → List CodeSlice
  unfolding walk
  find_error_and_io_slices root = walk root []

  -- The index of the last line of a slice that begins at index `i`.
  abbrev pub scan_slice_end : ℕ → ℕ → ℕ
  scan_slice_end line_count i =
      let last = i + salient_slice_size in
      let in_file = if leb line_count last then line_count - 1 else last in
      if leb end_line in_file then end_line - 1 else in_file

  abbrev pub scan_runs : List Text → ℕ → List CodeSlice → Bool
  scan_runs lines i slices =
      ltb i end_line && ltb i (length lines) && ltb (length slices) salient_slice_max

  -- The loop of findSalientSlicesByText, on fuel.
  unfoldable pub scan : ℕ → List Text → ℕ → List CodeSlice → List CodeSlice
  unfolding is_salient_line
  scan zero lines i slices = slices
  scan (suc f) lines i slices =
      let line = line_at lines i in
      let last = scan_slice_end (length lines) i in
      let skipped =
        scan f lines (last + 1)
          (slices ++ salient_slice lines (is_io_line line) (i + 1) (last + 1) ∷ []) in
      let next = scan f lines (i + 1) slices in
      if scan_runs lines i slices then (if is_salient_line line then skipped else next) else slices

  unfoldable pub find_salient_slices_by_text : List CodeSlice
  unfolding scan
  find_salient_slices_by_text =
      scan (length (split newline source)) (split newline source) (start_line - 1) []

  -- `root` is what the parser makes of the source, where the language has one.
  unfoldable pub find_salient_slices : Option Node → List CodeSlice
  unfolding find_salient_slices_by_text find_error_and_io_slices
  find_salient_slices none = find_salient_slices_by_text
  find_salient_slices (some root) = find_error_and_io_slices root

  -- The index of the last line of the header slice.
  abbrev pub header_end : ℕ
  header_end = min (start_line - 1 + header_slice_lines) (end_line - 1)

  abbrev pub header_slice : CodeSlice
  header_slice = record {
    label = str "Header slice";
    start_line = start_line;
    end_line = header_end + 1;
    reason = str "function entry";
    code = join_lines (split newline source) (start_line - 1) header_end;
  }

  -- The loop that takes the salient slices behind the header, four slices in all at most.
  unfoldable pub add_salient : List CodeSlice → List CodeSlice → List CodeSlice
  add_salient slices [] = slices
  add_salient slices (s ∷ rest) =
      let kept = if leb s.start_line (header_end + 1) then slices else slices ++ s ∷ [] in
      let more = add_salient kept rest in
      if leb (salient_slice_max + 1) (length slices) then slices else more

  abbrev pub return_start : ℕ
  return_start = max (end_line - salient_slice_size) start_line

  abbrev pub return_slice : CodeSlice
  return_slice = record {
    label = str "Return path slice";
    start_line = return_start;
    end_line = end_line;
    reason = str "return path";
    code = join_lines (split newline source) (return_start - 1) (end_line - 1);
  }

  -- `endLine-salientSliceSize > headerEnd+1` is written as a sum.
  unfoldable pub add_return_path : List CodeSlice → List CodeSlice
  add_return_path slices =
      if ltb (header_end + 1 + salient_slice_size) end_line
        && ltb (length slices) (salient_slice_max + 1)
      then slices ++ return_slice ∷ []
      else slices

  -- Signature, slices and the name of the view.
  unfoldable pub slice_definition : Option Node → ℤ → Text × List CodeSlice × Text
  unfolding extract_signature find_salient_slices add_salient add_return_path
  slice_definition root budget_lines =
      if leb_ℤ (sub_ℕ (end_line + 1) start_line) budget_lines
      then (extract_signature source start_line, [], str "full_body")
      else (
        extract_signature source start_line,
        add_return_path (add_salient (header_slice ∷ []) (find_salient_slices root)),
        str "signature_plus_slices",
      )
