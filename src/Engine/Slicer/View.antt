-- ===== src/Engine/Slicer/View.antt =====
-- The slices that a long definition is shown by.
use codesight.Prelude.{
  ℕ, suc, ◌+◌, ◌≤◌, ◌<◌, ◌≡◌, refl, true, false, ◌&&◌, ◌||◌, ◌⊎◌, inl, inr, List, [], ◌∷◌, ◌++◌,
  arith, ltb, leb, length, length-append, All, All-snoc, All-map, Bool-cases, if_both, Option, none,
  some,
}
use codesight.Prelude.Int.{ℤ, leb_ℤ, sub_ℕ}
use codesight.Text.{Text, str, split}
use codesight.Engine.{CodeSlice}
use codesight.Engine.Syntax.{Node, node, Nodes, no_nodes, and_node}
use codesight.Engine.Slicer.{
  visit, walk, is_error_path, is_io_call, salient_slice, newline, walk_all, node_slice_end,
  find_error_and_io_slices, find_salient_slices, find_salient_slices_by_text, add_salient,
  add_return_path, header_end, header_slice, return_slice, slice_definition,
}
use codesight.Engine.Slicer.TextScan.{find_salient_slices_by_text-IsAscending}

-- A slice that begins in the definition and does not pass its end.
pub record Within (start_line end_line : ℕ) (s : CodeSlice) : Type 0 where
  pub from_start : start_line ≤ s.start_line
  pub begins : s.start_line ≤ end_line
  pub to_end : s.end_line ≤ end_line

-- At most `n` slices, all of the definition.
pub record AreSlices (start_line end_line n : ℕ) (slices : List CodeSlice) : Type 0 where
  pub few : length slices ≤ n
  pub within : All (Within start_line end_line) slices

module _ (source : Text) (start_line end_line : ℕ) where
  node_slice_end-le :
      (node_line end_row : ℕ)
      → node_slice_end source start_line end_line node_line end_row ≤ end_line
  unfolding node_slice_end
  node_slice_end-le node_line end_row = ground arith

  visit-AreSlices :
      (kind : Text) (start_row end_row : ℕ) (content : Text) (slices : List CodeSlice)
      → AreSlices start_line end_line 2 slices
      → AreSlices start_line end_line 3
          (visit source start_line end_line kind start_row end_row content slices)
  unfolding visit
  visit-AreSlices kind start_row end_row content slices v =
      elim (Bool-cases (ltb (start_row + 1) start_line || ltb end_line (start_row + 1))) [
        | inl out ↦ rw out (record { few = omega arith; within = v.within })
        | inr inside ↦ rw inside (
            if_both (AreSlices start_line end_line 3)
              (is_error_path kind content || is_io_call kind content)
              (record {
                few = omega (arith, length-append slices (found ∷ []));
                within = All-snoc _ slices found v.within (found-Within inside);
              })
              (record { few = omega arith; within = v.within }))
      ]
    where
      found : CodeSlice
      found =
          salient_slice (split newline source) (is_io_call kind content) (start_row + 1)
            (node_slice_end source start_line end_line (start_row + 1) end_row)

      found-Within :
          (ltb (start_row + 1) start_line || ltb end_line (start_row + 1)) ≡ false
          → Within start_line end_line found
      found-Within inside = record {
        from_start = ground arith;
        begins = ground arith;
        to_end = node_slice_end-le (start_row + 1) end_row;
      }

  mutual
    unfolding walk

    walk-AreSlices :
        (n : Node) (slices : List CodeSlice)
        → AreSlices start_line end_line 3 slices
        → AreSlices start_line end_line 3 (walk source start_line end_line n slices)
    walk-AreSlices (node kind sr er sb eb children) slices v =
        elim (Bool-cases (leb 3 (length slices))) [
          | inl full ↦ rw full v
          | inr room ↦ rw room (
              walk_all-AreSlices children _ (
                visit-AreSlices kind sr er _ slices
                  (record { few = ground arith; within = v.within })))
        ]

    walk_all-AreSlices :
        (ns : Nodes) (slices : List CodeSlice)
        → AreSlices start_line end_line 3 slices
        → AreSlices start_line end_line 3 (walk_all source start_line end_line ns slices)
    walk_all-AreSlices no_nodes slices v = v
    walk_all-AreSlices (and_node field named n ns) slices v =
        walk_all-AreSlices ns (walk source start_line end_line n slices) (walk-AreSlices n slices v)

  -- Whatever the tree, at most three salient slices of the definition are found.
  find_error_and_io_slices-AreSlices :
      (root : Node)
      → AreSlices start_line end_line 3 (find_error_and_io_slices source start_line end_line root)
  unfolding find_error_and_io_slices
  find_error_and_io_slices-AreSlices root =
      walk-AreSlices root [] (record { few = omega arith; within = tt })

  find_salient_slices-AreSlices :
      (root : Option Node)
      → 1 ≤ start_line
      → AreSlices start_line end_line 3 (find_salient_slices source start_line end_line root)
  unfolding find_salient_slices
  find_salient_slices-AreSlices none h =
      let (few, range, _, _) =
        find_salient_slices_by_text-IsAscending source start_line end_line h in
      record {
        few = few;
        within =
            All-map
              (λ s r. record { from_start = r.from_start; begins = omega arith; to_end = r.to_end })
              (find_salient_slices_by_text source start_line end_line) range;
      }
  find_salient_slices-AreSlices (some root) h = find_error_and_io_slices-AreSlices root

  -- What stands behind the header slice: `n` slices at most, each behind its last line.
  pub record AreBehind (n : ℕ) (slices : List CodeSlice) : Type 0 where
    pub are_slices : AreSlices start_line end_line n slices
    pub behind :
        All (λ (s : CodeSlice). header_end source start_line end_line + 1 < s.start_line) slices

  AreBehind-snoc :
      (n : ℕ) (acc : List CodeSlice) (s : CodeSlice)
      → AreBehind 3 acc
      → length acc < n
      → Within start_line end_line s
      → header_end source start_line end_line + 1 < s.start_line
      → AreBehind n (acc ++ s ∷ [])
  AreBehind-snoc n acc s v room w behind = record {
    are_slices = record {
      few = omega (arith, length-append acc (s ∷ []));
      within = All-snoc _ acc s v.are_slices.within w;
    };
    behind = All-snoc _ acc s v.behind behind;
  }

  -- The slices behind the first one, after the loop over what was found.
  abbrev pub HeaderThen : CodeSlice → List CodeSlice → Type 0
  HeaderThen h slices = (rest : List CodeSlice) × (slices ≡ h ∷ rest) × AreBehind 3 rest

  add_salient-HeaderThen :
      (h : CodeSlice) (acc found : List CodeSlice)
      → AreBehind 3 acc
      → All (Within start_line end_line) found
      → HeaderThen h (add_salient source start_line end_line (h ∷ acc) found)
  unfolding add_salient
  add_salient-HeaderThen h acc [] v w = (acc, refl, v)
  add_salient-HeaderThen h acc (s ∷ found) v w = elim (Bool-cases (leb 4 (suc (length acc)))) [
    | inl full ↦ rw full (acc, refl, v)
    | inr room ↦
        rw room (elim (Bool-cases (leb s.start_line (header_end source start_line end_line + 1))) [
          | inl overlaps ↦ rw overlaps (add_salient-HeaderThen h acc found v w.1)
          | inr behind ↦ rw behind (
              add_salient-HeaderThen h (acc ++ s ∷ []) found
                (AreBehind-snoc 3 acc s v (ground arith) w.0 (ground arith)) w.1)
        ])
  ]

  add_return_path-HeaderThen :
      (h : CodeSlice) (slices : List CodeSlice)
      → start_line ≤ end_line
      → HeaderThen h slices
      → HeaderThen h (add_return_path source start_line end_line slices)
  unfolding add_return_path
  add_return_path-HeaderThen h slices ordered (rest, e, v) =
      rw e
        (elim (Bool-cases (
          ltb (header_end source start_line end_line + 1 + 10) end_line
          && ltb (suc (length rest)) 4)) [
            | inr no_room ↦ rw no_room (rest, refl, v)
            | inl room ↦ rw room (
              rest ++ return_slice source start_line end_line ∷ [],
              refl,
              AreBehind-snoc 3 rest (return_slice source start_line end_line) v (ground arith)
                  (record { from_start = omega arith; begins = omega arith; to_end = omega arith })
                  (ground arith),
            )
          ])

  -- A definition that does not fit its budget is shown as its header slice and at most three more,
  -- all of them parts of the definition and none of them beginning in the header slice; one that
  -- fits is shown whole, with no slice. This holds whatever the parser returns.
  pub slice_definition-HeaderThen :
      (root : Option Node) (budget_lines : ℤ)
      → 1 ≤ start_line
      → start_line ≤ end_line
      → ((leb_ℤ (sub_ℕ (end_line + 1) start_line) budget_lines ≡ true)
          × ((slice_definition source start_line end_line root budget_lines).1 ≡ [])
          × ((slice_definition source start_line end_line root budget_lines).2 ≡ str "full_body"))
        ⊎ ((leb_ℤ (sub_ℕ (end_line + 1) start_line) budget_lines ≡ false)
            × ((slice_definition source start_line end_line root budget_lines).2
                ≡ str "signature_plus_slices")
            × HeaderThen
                (header_slice source start_line end_line)
                (slice_definition source start_line end_line root budget_lines).1
            × Within start_line end_line (header_slice source start_line end_line))
  unfolding slice_definition
  slice_definition-HeaderThen root budget_lines pos_start ordered =
      elim (Bool-cases (leb_ℤ (sub_ℕ (end_line + 1) start_line) budget_lines)) [
        | inl fits ↦ inl (fits, rw fits refl, rw fits refl)
        | inr long ↦ inr (long, rw long refl, rw long shown, header_ok)
      ]
    where
      shown : HeaderThen (header_slice source start_line end_line) (
          add_return_path source start_line end_line (
            add_salient source start_line end_line
              (header_slice source start_line end_line ∷ [])
              (find_salient_slices source start_line end_line root)))
      shown = add_return_path-HeaderThen _ _ ordered (
          add_salient-HeaderThen (header_slice source start_line end_line) []
            (find_salient_slices source start_line end_line root)
            (record { are_slices = record { few = omega arith; within = tt }; behind = tt })
            (find_salient_slices-AreSlices root pos_start).within)

      header_ok : Within start_line end_line (header_slice source start_line end_line)
      header_ok = record { from_start = omega arith; begins = omega arith; to_end = omega arith }
