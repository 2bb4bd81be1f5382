-- ===== src/Engine/Outline/Examples.antt =====
-- The outline of a small Go file, and the theorems about it at concrete inputs.
use codesight.Prelude.{ℕ, ◌≤◌, ◌≡◌, refl, true, List, [], ◌∷◌, arith, map, length, All, keep}
use codesight.Prelude.Int.{pos}
use codesight.Text.{Text, str}
use codesight.Text.Unicode.{ascii}
use codesight.Engine.{OutlineEntry, CodeSlice}
use codesight.Engine.Syntax.{Node, node, no_nodes, and_node, named_of, by_field}
use codesight.Engine.Outline.{find_class_node, extract_members, is_class_node, members_of}
use codesight.Engine.Outline.Methods.{select_and_expand_top_methods, is_method}
use codesight.Engine.Outline.Sound.{Search, find_class_node-Search}
use codesight.Engine.Outline.Top.{IsRanked, IsShown, select_and_expand_top_methods-IsShown}
use codesight.Engine.Outline.Within.{Inside, IsWithin, extract_members-IsWithin}

abbrev go_source : Text
go_source = str "type A struct {\n  x int\n}\nfunc (b *AB) F() {\n}\n"

abbrev go_tree : Node
go_tree =
    (node (str "source_file") 0 5 0 47 (
      and_node (str "") true
        (node (str "type_declaration") 0 2 0 25 (
          and_node (str "") true
            (node (str "type_spec") 0 2 5 25 (
              and_node (str "name") true (node (str "type_identifier") 0 0 5 6 no_nodes) (
                and_node (str "type") true
                  (node (str "struct_type") 0 2 7 25 (
                    and_node (str "") true
                      (node (str "field_declaration_list") 0 2 14 25 (
                        and_node (str "") true
                          (node (str "field_declaration") 1 1 18 23 (
                            and_node (str "name") true
                              (node (str "field_identifier") 1 1 18 19 no_nodes) no_nodes))
                          no_nodes))
                      no_nodes))
                  no_nodes)))
            no_nodes))
        (and_node (str "") true
          (node (str "method_declaration") 3 4 26 46 (
            and_node (str "receiver") true (node (str "parameter_list") 3 3 31 38 no_nodes) (
              and_node (str "name") true (node (str "field_identifier") 3 3 39 40 no_nodes)
                no_nodes)))
          no_nodes)))

abbrev head : OutlineEntry → Text × Text × ℕ × Text
head e = (e.name, e.kind, e.line, e.visibility)

-- The receiver of F is AB, whose name contains A.
members :
    map head (extract_members ascii go_source (str "go") (str "A") 1 go_tree)
    ≡ (str "x", str "field", 2, str "private") ∷ (str "F", str "method", 4, str "public") ∷ []
unfolding extract_members is_class_node members_of by_field named_of
members = refl

find_class_node-Search_example :
    Search go_source (str "A") 1 go_tree (find_class_node go_source (str "A") 1 go_tree)
find_class_node-Search_example = find_class_node-Search go_source (str "A") 1 go_tree

in_file : Inside 1 6 go_tree
unfolding Inside
in_file = omega arith

extract_members-IsWithin_example :
    (length (extract_members ascii go_source (str "go") (str "A") 1 go_tree) ≤ 12)
    × All (IsWithin 1 6) (extract_members ascii go_source (str "go") (str "A") 1 go_tree)
extract_members-IsWithin_example =
    extract_members-IsWithin 1 6 ascii go_source (str "go") (str "A") 1 go_tree in_file

abbrev method_at : Text → ℕ → ℕ → OutlineEntry
method_at name from to = record {
  name = name;
  kind = str "method";
  line = from;
  end_line = to;
  signature = [];
  visibility = str "private";
}

abbrev two_methods : List OutlineEntry
two_methods = method_at (str "run") 1 1 ∷ method_at (str "NewA") 2 3 ∷ []

abbrev shown : CodeSlice → Text × Text
shown s = (s.label, s.reason)

shown_one :
    map shown (select_and_expand_top_methods ascii (str "a\nb\nc") [] (pos 2) two_methods)
    ≡ (str "Method: NewA", str "constructor") ∷ []
unfolding select_and_expand_top_methods
shown_one = refl

select_and_expand_top_methods-IsShown_example :
    (ranked : List OutlineEntry) × IsRanked ascii (keep is_method two_methods) [] ranked
    × IsShown ascii
        (str "a\nb\nc")
        4
        2
        0
        ranked
        (select_and_expand_top_methods ascii (str "a\nb\nc") [] (pos 2) two_methods)
select_and_expand_top_methods-IsShown_example =
    select_and_expand_top_methods-IsShown ascii (str "a\nb\nc") [] 2 two_methods
