-- ===== src/Engine/Outline/Within.antt =====
-- Where the members of a class stand.
use codesight.Prelude.{
  ℕ, zero, suc, ◌≤◌, true, false, ◌||◌, List, [], ◌∷◌, arith, length, length-take, take, All,
  All-append, if_both, Option, none, some,
}
use codesight.Text.{Text, str, eqt, has_byte}
use codesight.Text.FilePath.{is_empty}
use codesight.Text.Unicode.{Unicode}
use codesight.Engine.{OutlineEntry}
use codesight.Engine.Syntax.{
  Node, node, Nodes, no_nodes, and_node, first_line, last_line, named_of, by_field, first_of_kind,
  children, named_children, is_kind,
}
use codesight.Engine.Outline.{
  find_class_node, find_class_node_in, first_found, members_of, members_from, extract_members,
  is_class_node,
}
use codesight.Engine.Outline.Members.{entry_at, collect, named_children_of, body_of, declaration_of}
use codesight.Engine.Outline.Members.Go.{
  go_members, go_member_entry, go_method, named_entry, field_name, method_name, type_node,
  go_type_members,
}
use codesight.Engine.Outline.Members.Python.{
  python_members, python_member, decorated, is_python_function,
}
use codesight.Engine.Outline.Members.Java.{java_members, java_member}
use codesight.Engine.Outline.Members.JsTs.{js_ts_members, js_ts_member}
use codesight.Engine.Outline.Members.Rust.{
  rust_members, rust_field, rust_function, rust_impl, is_impl_of,
}
use codesight.Engine.Outline.Members.Cpp.{cpp_members, cpp_members_from, cpp_member, cpp_visibility}

module _ (from to : ℕ) where
  -- Every node of the tree stands between two lines.
  unfoldable mutual
    pub Inside : Node → Type 0
    Inside (node k sr er sb eb cs) =
        (from ≤ first_line (node k sr er sb eb cs))
        × (last_line (node k sr er sb eb cs) ≤ to)
        × AllInside cs

    pub AllInside : Nodes → Type 0
    AllInside no_nodes = Unit
    AllInside (and_node field named n ns) = Inside n × AllInside ns

  -- An entry between the two lines.
  pub record IsWithin (e : OutlineEntry) : Type 0 where
    pub begins : from ≤ e.line
    pub ends : e.end_line ≤ to

  abbrev AllWithin : List OutlineEntry → Type 0
  AllWithin es = All IsWithin es

  children-Inside : (n : Node) → Inside n → AllInside (children n)
  unfolding Inside
  children-Inside (node k sr er sb eb cs) h = h.2

  named_of-Inside : (ns : Nodes) → AllInside ns → All Inside (named_of ns)
  unfolding AllInside named_of
  named_of-Inside no_nodes h = tt
  named_of-Inside (and_node field true n ns) h = (h.0, named_of-Inside ns h.1)
  named_of-Inside (and_node field false n ns) h = named_of-Inside ns h.1

  abbrev MaybeInside : Option Node → Type 0
  MaybeInside none = Unit
  MaybeInside (some n) = Inside n

  by_field-Inside : (name : Text) (ns : Nodes) → AllInside ns → MaybeInside (by_field name ns)
  unfolding AllInside by_field
  by_field-Inside name no_nodes h = tt
  by_field-Inside name (and_node field named n ns) h =
      if_both MaybeInside (eqt field name) h.0 (by_field-Inside name ns h.1)

  first_of_kind-Inside :
      (k : Text) (ns : List Node) → All Inside ns → MaybeInside (first_of_kind k ns)
  unfolding first_of_kind
  first_of_kind-Inside k [] h = tt
  first_of_kind-Inside k (n ∷ ns) h =
      if_both MaybeInside (is_kind k n) h.0 (first_of_kind-Inside k ns h.1)

  named_children-Inside : (n : Node) → Inside n → All Inside (named_children n)
  named_children-Inside n h = named_of-Inside (children n) (children-Inside n h)

  named_children_of-Inside : (n : Option Node) → MaybeInside n → All Inside (named_children_of n)
  named_children_of-Inside none h = tt
  named_children_of-Inside (some n) h = named_children-Inside n h

  -- The named children of the first named child of a kind.
  below_kind-Inside :
      (k : Text) (n : Node)
      → Inside n
      → All Inside (named_children_of (first_of_kind k (named_children n)))
  below_kind-Inside k n h =
      named_children_of-Inside _ (first_of_kind-Inside k _ (named_children-Inside n h))

  body_of-Inside : (source : Text) (n : Node) → Inside n → All Inside (body_of source n)
  body_of-Inside source n h =
      named_children_of-Inside _ (by_field-Inside (str "body") _ (children-Inside n h))

  All-take :
      (P : OutlineEntry → Type 0) (n : ℕ) (es : List OutlineEntry) → All P es → All P (take n es)
  All-take P zero es h = tt
  All-take P (suc n) [] h = tt
  All-take P (suc n) (e ∷ es) h = (h.0, All-take P n es h.1)

  entry_at-IsWithin :
      (n : Node) (name k signature visibility : Text)
      → Inside n
      → AllWithin (entry_at n name k signature visibility ∷ [])
  unfolding Inside
  entry_at-IsWithin (node k sr er sb eb cs) name kind signature visibility h =
      (record { begins = h.0; ends = h.1 }, tt)

  collect-IsWithin :
      (give : Node → List OutlineEntry)
      → ((n : Node) → Inside n → AllWithin (give n))
      → (ns : List Node) → All Inside ns
      → AllWithin (collect give ns)
  collect-IsWithin give each [] h = tt
  collect-IsWithin give each (n ∷ ns) h =
      All-append _ (give n) (collect give ns) (each n h.0) (collect-IsWithin give each ns h.1)

  module _ (source : Text) where
    named_entry-IsWithin :
        (unicode : Unicode) (n : Node) (name k : Text)
        → Inside n
        → AllWithin (named_entry source unicode n name k)
    unfolding named_entry
    named_entry-IsWithin unicode n name k h =
        if_both AllWithin (is_empty name) tt (entry_at-IsWithin n _ _ _ _ h)

    go_member-IsWithin :
        (unicode : Unicode) (n : Node) → Inside n → AllWithin (go_member_entry source unicode n)
    unfolding go_member_entry
    go_member-IsWithin unicode n h =
        let field = named_entry-IsWithin unicode n (field_name source unicode n) (str "field") h in
        let method =
          named_entry-IsWithin unicode n (method_name source unicode n) (str "method") h in
        if_both AllWithin (is_kind (str "field_declaration") n) field (
          if_both AllWithin (is_kind (str "method_spec") n || is_kind (str "method_elem") n) method
            tt)

    go_method-IsWithin :
        (unicode : Unicode) (symbol : Text) (n : Node)
        → Inside n
        → AllWithin (go_method source unicode symbol n)
    unfolding go_method Inside
    go_method-IsWithin unicode symbol (node k sr er sb eb cs) h = ground arith

    go_type_members-IsWithin :
        (unicode : Unicode) (n : Node) → Inside n → AllWithin (go_type_members source unicode n)
    go_type_members-IsWithin unicode n h =
        let of_members =
          collect-IsWithin (go_member_entry source unicode) (go_member-IsWithin unicode) in
        if_both AllWithin (is_kind (str "struct_type") n)
          (of_members _ (below_kind-Inside (str "field_declaration_list") n h))
          (if_both AllWithin (is_kind (str "interface_type") n)
            (of_members _ (named_children-Inside n h)) tt)

    type_node-Inside :
        (unicode : Unicode) (class_node : Node) (n : Option Node)
        → Inside class_node
        → MaybeInside n
        → Inside (type_node source unicode class_node n)
    type_node-Inside unicode class_node none h k = h
    type_node-Inside unicode class_node (some n) h k = k

    go_members-IsWithin :
        (unicode : Unicode) (symbol : Text) (root class_node : Node)
        → Inside root
        → Inside class_node
        → AllWithin (go_members source unicode symbol root class_node)
    unfolding go_members
    go_members-IsWithin unicode symbol root class_node h k =
        All-append IsWithin _ _
          (go_type_members-IsWithin unicode _ (
            type_node-Inside unicode class_node _ k
              (by_field-Inside (str "type") _ (children-Inside class_node k))))
          (collect-IsWithin _ (go_method-IsWithin unicode symbol) _ (named_children-Inside root h))

    java_member-IsWithin : (n : Node) → Inside n → AllWithin (java_member source n)
    unfolding java_member Inside
    java_member-IsWithin (node k sr er sb eb cs) h = ground arith

    java_members-IsWithin : (n : Node) → Inside n → AllWithin (java_members source n)
    unfolding java_members
    java_members-IsWithin n h =
        collect-IsWithin _ java_member-IsWithin _ (body_of-Inside source n h)

    decorated-IsWithin :
        (outer : Node)
        → Inside outer
        → (inner : Node) → Inside inner
        → AllWithin (decorated source outer inner)
    unfolding Inside
    decorated-IsWithin (node k sr er sb eb cs) h inner i = ground arith

    python_member-IsWithin : (n : Node) → Inside n → AllWithin (python_member source n)
    unfolding python_member
    python_member-IsWithin n h =
        let inner =
          collect-IsWithin (decorated source n) (decorated-IsWithin n h) _
            (named_children-Inside n h) in
        let entry = λ (name k signature visibility : Text).
          entry_at-IsWithin n name k signature visibility h in
        if_both AllWithin (is_python_function source n) (entry _ _ _ _) (
          if_both AllWithin (is_kind (str "expression_statement") n)
            (if_both AllWithin (has_byte b'=' (declaration_of source n)) (entry _ _ _ _) tt)
            (if_both AllWithin (is_kind (str "decorated_definition") n) inner tt))

    python_members-IsWithin : (n : Node) → Inside n → AllWithin (python_members source n)
    unfolding python_members
    python_members-IsWithin n h =
        collect-IsWithin _ python_member-IsWithin _ (body_of-Inside source n h)

    js_ts_member-IsWithin : (n : Node) → Inside n → AllWithin (js_ts_member source n)
    unfolding js_ts_member Inside
    js_ts_member-IsWithin (node k sr er sb eb cs) h = ground arith

    js_ts_members-IsWithin : (n : Node) → Inside n → AllWithin (js_ts_members source n)
    unfolding js_ts_members
    js_ts_members-IsWithin n h =
        collect-IsWithin _ js_ts_member-IsWithin _ (body_of-Inside source n h)

    rust_field-IsWithin : (n : Node) → Inside n → AllWithin (rust_field source n)
    unfolding rust_field Inside
    rust_field-IsWithin (node k sr er sb eb cs) h = ground arith

    rust_function-IsWithin : (n : Node) → Inside n → AllWithin (rust_function source n)
    unfolding rust_function Inside
    rust_function-IsWithin (node k sr er sb eb cs) h = ground arith

    rust_impl-IsWithin :
        (symbol : Text) (n : Node) → Inside n → AllWithin (rust_impl source symbol n)
    unfolding rust_impl
    rust_impl-IsWithin symbol n h =
        if_both AllWithin (is_impl_of source symbol n)
          (collect-IsWithin _ rust_function-IsWithin _
            (below_kind-Inside (str "declaration_list") n h))
          tt

    rust_members-IsWithin :
        (symbol : Text) (root class_node : Node)
        → Inside root
        → Inside class_node
        → AllWithin (rust_members source symbol root class_node)
    unfolding rust_members
    rust_members-IsWithin symbol root class_node h k =
        All-append IsWithin _ _
          (collect-IsWithin _ rust_field-IsWithin _
            (below_kind-Inside (str "field_declaration_list") class_node k))
          (collect-IsWithin _ (rust_impl-IsWithin symbol) _ (named_children-Inside root h))

    cpp_member-IsWithin :
        (visibility : Text) (n : Node) → Inside n → AllWithin (cpp_member source visibility n)
    unfolding cpp_member Inside
    cpp_member-IsWithin visibility (node k sr er sb eb cs) h = ground arith

    cpp_members_from-IsWithin :
        (visibility : Text) (ns : List Node)
        → All Inside ns
        → AllWithin (cpp_members_from source visibility ns)
    unfolding cpp_members_from
    cpp_members_from-IsWithin visibility [] h = tt
    cpp_members_from-IsWithin visibility (n ∷ ns) h =
        All-append IsWithin _ _ (cpp_member-IsWithin visibility n h.0)
          (cpp_members_from-IsWithin (cpp_visibility source visibility n) ns h.1)

    cpp_members-IsWithin : (n : Node) → Inside n → AllWithin (cpp_members source n)
    unfolding cpp_members
    cpp_members-IsWithin n h =
        cpp_members_from-IsWithin (str "private") _
          (below_kind-Inside (str "field_declaration_list") n h)

    first_found-Inside :
        (a b : Option Node) → MaybeInside a → MaybeInside b → MaybeInside (first_found a b)
    first_found-Inside none b h k = k
    first_found-Inside (some n) b h k = h

    mutual
      unfolding find_class_node Inside

      find-Inside :
          (symbol : Text) (line : ℕ) (root : Node)
          → Inside root
          → MaybeInside (find_class_node source symbol line root)
      find-Inside symbol line (node k sr er sb eb cs) h =
          if_both MaybeInside (is_class_node source symbol line (node k sr er sb eb cs)) h
            (find_in-Inside symbol line cs h.2)

      find_in-Inside :
          (symbol : Text) (line : ℕ) (ns : Nodes)
          → AllInside ns
          → MaybeInside (find_class_node_in source symbol line ns)
      find_in-Inside symbol line no_nodes h = tt
      find_in-Inside symbol line (and_node field named n ns) h =
          first_found-Inside _ _ (if_both MaybeInside named (find-Inside symbol line n h.0) tt)
            (find_in-Inside symbol line ns h.1)

    members_of-IsWithin :
        (unicode : Unicode) (language symbol : Text) (root class_node : Node)
        → Inside root
        → Inside class_node
        → AllWithin (members_of unicode source language symbol root class_node)
    unfolding members_of
    members_of-IsWithin unicode language symbol root class_node h k =
        let is = λ (name : Text). eqt language name in
        if_both AllWithin (is (str "go")) (go_members-IsWithin unicode symbol root class_node h k) (
          if_both AllWithin (is (str "python")) (python_members-IsWithin class_node k) (
            if_both AllWithin (is (str "java")) (java_members-IsWithin class_node k) (
              if_both AllWithin (is (str "javascript")) (js_ts_members-IsWithin class_node k) (
                if_both AllWithin (is (str "typescript")) (js_ts_members-IsWithin class_node k) (
                  if_both AllWithin (is (str "rust"))
                    (rust_members-IsWithin symbol root class_node h k)
                    (if_both AllWithin (is (str "cpp")) (cpp_members-IsWithin class_node k) tt))))))

    members_from-IsWithin :
        (unicode : Unicode) (language symbol : Text) (root : Node) (found : Option Node)
        → Inside root
        → MaybeInside found
        → (length (members_from unicode source language symbol root found) ≤ 12)
          × AllWithin (members_from unicode source language symbol root found)
    members_from-IsWithin unicode language symbol root none h k = (omega arith, tt)
    members_from-IsWithin unicode language symbol root (some n) h k = (
      omega (arith, length-take 12 (members_of unicode source language symbol root n)),
      All-take IsWithin 12 _ (members_of-IsWithin unicode language symbol root n h k),
    )

-- In every language the outline of a class has at most twelve entries, and each stands between the
-- first and the last line of the file, where the nodes of the tree do.
pub extract_members-IsWithin :
    (from to : ℕ) (unicode : Unicode) (source language symbol : Text) (line : ℕ) (root : Node)
    → Inside from to root
    → (length (extract_members unicode source language symbol line root) ≤ 12)
      × All (IsWithin from to) (extract_members unicode source language symbol line root)
unfolding extract_members
extract_members-IsWithin from to unicode source language symbol line root h =
    members_from-IsWithin from to source unicode language symbol root _ h
      (find-Inside from to source symbol line root h)
