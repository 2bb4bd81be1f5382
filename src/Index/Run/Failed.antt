-- ===== src/Index/Run/Failed.antt =====
-- What a run of the indexer that fails leaves behind.
use codesight.Prelude.{
  ℕ, zero, suc, ◌+◌, ◌≡◌, ◌⊎◌, inl, inr, refl, sym, subst, ◌∙◌, ap, Bool, List, [], ◌++◌, ltb,
  if◌then◌else◌, if_both, length, Option, none, some, map,
}
use codesight.Text.{Text, str}
use codesight.Index.{IndexMetadata, resolve_collection_name}
use codesight.Index.Run.{
  Result, ok, error, Document, Store, Embedder, Project, IndexOptions, or_fail, then_do,
  store_batches, all_chunks, fill, clear, rebuild, skip, index, document, batch,
}
use codesight.Index.Run.Stored.{or_fail-ok}
use codesight.Splitter.{Chunk}

-- What the calls of a store do to the metadata of the collection they are called for: making a
-- collection and adding to it leave them, dropping leaves or removes them, and a call that fails to set
-- them leaves them.
pub record IsCareful {S V : Type 0} (store : Store S V) (saved : S → Text → Option IndexMetadata)
    : Type 0 where
  pub create_keeps :
      (s : S) (c : Text) (n : ℕ) → saved (store.create_collection s c n).1 c ≡ saved s c
  pub insert_keeps :
      (s : S) (c : Text) (docs : List Document) (vectors : List V)
      → saved (store.insert s c docs vectors).1 c ≡ saved s c
  pub drop_keeps :
      (s : S) (c : Text)
      → (saved (store.drop_collection s c).1 c ≡ saved s c)
        ⊎ (saved (store.drop_collection s c).1 c ≡ none)
  pub set_fails :
      (s s' : S) (c : Text) (m : IndexMetadata) (e : Text)
      → store.set_metadata s c m ≡ (some e, s')
      → saved s' c ≡ saved s c

module _ {S : Type 0} where
  or_fail_cases :
      {A : Type 0} (P : Option Text × S → Type 0) (what : Text) (s : S) (answer : Result A)
      (rest : A → Option Text × S)
      → ((e : Text) → P (some e, s))
      → ((a : A) → P (rest a))
      → P (or_fail what s answer rest)
  unfolding or_fail
  or_fail_cases P what s (error e) rest fails goes = fails (what ++ e)
  or_fail_cases P what s (ok a) rest fails goes = goes a

  then_do_cases :
      (P : Option Text × S → Type 0) (what : Text) (first : Option Text × S)
      (rest : S → Option Text × S)
      → ((e f : Text) (mid : S) → first ≡ (some e, mid) → P (some f, mid))
      → ((mid : S) → first ≡ (none, mid) → P (rest mid))
      → P (then_do what first rest)
  unfolding then_do
  then_do_cases P what (some e, s) rest fails goes = fails e (what ++ e) s refl
  then_do_cases P what (none, s) rest fails goes = goes s refl

module _ {S V : Type 0} (store : Store S V) (embedder : Embedder V) (project : Project)
    (saved : S → Text → Option IndexMetadata) (laws : IsCareful store saved) where
  store_batches-saved :
      (fuel : ℕ) (c : Text) (chunks : List Chunk) (i : ℕ) (s : S)
      → saved (store_batches store embedder fuel c chunks i s).1 c ≡ saved s c
  unfolding store_batches
  store_batches-saved zero c chunks i s = refl
  store_batches-saved (suc fuel) c chunks i s =
      if_both (λ (p : Option Text × S). saved p.1 c ≡ saved s c) (ltb i (length chunks))
        (or_fail_cases (λ p. saved p.1 c ≡ saved s c) _ _ _ _ (λ e. refl)
          (λ vectors.
            let put = laws.insert_keeps s c (map document (batch chunks i)) vectors in
            then_do_cases (λ p. saved p.1 c ≡ saved s c) _ _ _
              (λ e f mid h. ap (λ p. saved p.1 c) (sym h) ∙ put)
              (λ mid h.
                store_batches-saved fuel c chunks (i + 64) mid
                ∙ ap (λ p. saved p.1 c) (sym h)
                ∙ put)))
        refl

  -- An end of a run from `s`: without an error, or with the metadata that were there, or with none.
  abbrev Ends : S → Text → Option Text × S → Type 0
  Ends s c p = (p.0 ≡ none) ⊎ ((saved p.1 c ≡ saved s c) ⊎ (saved p.1 c ≡ none))

  abbrev Kept : S → Text → S → Type 0
  Kept s c s' = (saved s' c ≡ saved s c) ⊎ (saved s' c ≡ none)

  Kept-after :
      (s : S) (c : Text) (mid s' : S) → Kept s c mid → saved s' c ≡ saved mid c → Kept s c s'
  Kept-after s c mid s' (inl same) h = inl (h ∙ same)
  Kept-after s c mid s' (inr gone) h = inr (h ∙ gone)

  fill-Ends :
      (opts : IndexOptions) (root c rules : Text) (s mid : S)
      → Kept s c mid
      → Ends s c (fill store embedder project opts root c rules mid)
  fill-Ends opts root c rules s mid kept =
      or_fail_cases (Ends s c) _ _ _ _ (λ e. inr kept)
        (λ files.
          let chunks = all_chunks project root files in
          let looped = store_batches-saved (length chunks) c chunks 0 mid in
          then_do_cases (Ends s c) _ _ _
            (λ e f full h.
              inr (Kept-after s c mid full kept (ap (λ p. saved p.1 c) (sym h) ∙ looped)))
            (λ full h.
              then_do_cases (Ends s c) _ _ _
                (λ e f last failed. inr (
                  Kept-after s c mid last kept (
                    laws.set_fails full last c _ e failed
                    ∙ ap (λ p. saved p.1 c) (sym h)
                    ∙ looped)))
                (λ last h. inl refl)))

  clear-Kept :
      (c : Text) (exists : Bool) (s : S) → Kept s c (clear store embedder project c exists s).1
  clear-Kept c exists s =
      if_both (λ (p : Option Text × S). Kept s c p.1) exists
        (then_do_cases (λ p. Kept s c p.1) _ _ _
          (λ e f mid h. subst (λ p. Kept s c p.1) h (laws.drop_keeps s c))
          (λ mid h. subst (λ p. Kept s c p.1) h (laws.drop_keeps s c)))
        (inl refl)

  rebuild-Ends :
      (opts : IndexOptions) (root c rules : Text) (s : S)
      → Ends s c (rebuild store embedder project opts root c rules s)
  rebuild-Ends opts root c rules s =
      or_fail_cases (Ends s c) _ _ _ _ (λ e. inr (inl refl))
        (λ dimension.
          or_fail_cases (Ends s c) _ _ _ _ (λ e. inr (inl refl))
            (λ exists.
              then_do_cases (Ends s c) _ _ _
                (λ e f mid h. inr (subst (λ p. Kept s c p.1) h (clear-Kept c exists s)))
                (λ mid h.
                  let cleared = subst (λ p. Kept s c p.1) h (clear-Kept c exists s) in
                  let made = laws.create_keeps mid c dimension in
                  then_do_cases (Ends s c) _ _ _
                    (λ e f last k.
                      inr (Kept-after s c mid last cleared (ap (λ p. saved p.1 c) (sym k) ∙ made)))
                    (λ last k.
                      fill-Ends opts root c rules s last
                        (Kept-after s c mid last cleared (ap (λ p. saved p.1 c) (sym k) ∙ made))))))

  failed-Ends : (s : S) (c e : Text) (s' : S) → Ends s c (some e, s') → Kept s c s'
  failed-Ends s c e s' (inl never) = cc
  failed-Ends s c e s' (inr kept) = kept

  rules-Ends :
      (opts : IndexOptions) (root c : Text) (s : S)
      → Ends s c (
          or_fail (str "loading ignore rules: ") s (project.fingerprint root) (λ rules.
            or_fail [] s (skip store embedder project opts c rules s) (λ skipped.
              if skipped then (none, s) else rebuild store embedder project opts root c rules s)))
  rules-Ends opts root c s =
      or_fail_cases (Ends s c) _ _ _ _ (λ e. inr (inl refl))
        (λ rules.
          or_fail_cases (Ends s c) _ _ _ _ (λ e. inr (inl refl))
            (λ skipped. if_both (Ends s c) skipped (inl refl) (rebuild-Ends opts root c rules s)))

  -- A run that fails, for a project whose path can be read, leaves the collection with the metadata that
  -- it had before, or with none: it never records the commit that it could not index.
  pub index_failed :
      (opts : IndexOptions) (root e : Text) (s s' : S)
      → project.abs opts.path ≡ ok root
      → index store embedder project opts s ≡ (some e, s')
      → (saved s' (resolve_collection_name project.hash root opts.collection_name)
          ≡ saved s (resolve_collection_name project.hash root opts.collection_name))
        ⊎ (saved s' (resolve_collection_name project.hash root opts.collection_name) ≡ none)
  unfolding index
  index_failed opts root e s s' has_root run =
      let c = resolve_collection_name project.hash root opts.collection_name in
      let ends : Ends s c (index store embedder project opts s) =
        subst (Ends s c) (sym (or_fail-ok _ _ _ _ root has_root)) (rules-Ends opts root c s) in
      failed-Ends s c e s' (subst (Ends s c) run ends)
