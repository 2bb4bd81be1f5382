-- ===== src/Index/Run/Works.antt =====
-- A run of the indexer ends well where the calls that may be made succeed.
use codesight.Prelude.{
  ℕ, zero, suc, ◌+◌, ◌-◌, ◌≤◌, ◌≡◌, ◌⊎◌, refl, sym, ◌∙◌, ap, Bool, true, false, ltb, if_both, List,
  Option, none, some, arith, length, length-map, map, drop, All, All-take, All-drop, All-map_of,
}
use codesight.Text.{Text}
use codesight.Index.{IndexMetadata, resolve_collection_name}
use codesight.Index.Run.{
  Result, ok, error, Document, Store, Embedder, Project, IndexOptions, document, batch, batch_end,
  metadata, or_fail, then_do, store_batches, all_chunks, clear, fill, rebuild, skip_by, up_to_date,
  dimension_or_error, index,
}
use codesight.Index.Run.Stored.{IsStore, IsStored, IsSkipped, index_lem}
use codesight.Splitter.{Chunk}

-- The answer is a value.
abbrev pub IsOk : {A : Type 0} → Result A → Type 0
IsOk {A} answer = (a : A) × (answer ≡ ok a)

-- The calls succeed that a run may make: the embedder knows its dimension and gives a vector for each
-- text; a collection that is there can be dropped, and is gone then; one that is not there can be
-- created for that dimension, and is there then; into one that is there as many documents as vectors
-- can be put, of those that the store accepts (`accepts`) with vectors that fit (`fits`), and its
-- metadata can be set; and the store accepts the documents of the project.
pub record IsWorking {S V : Type 0} (store : Store S V) (embedder : Embedder V) (project : Project)
    (accepts : Document → Type 0) (fits : V → Type 0) : Type 0 where
  pub walks : (root : Text) → IsOk (project.walk_files root)
  pub has_dimension : 1 ≤ embedder.dimension
  pub embeds :
      (i : ℕ) (texts : List Text)
      → (vectors : List V) × (embedder.embed_batch i texts ≡ ok vectors)
        × (length vectors ≡ length texts)
        × All fits vectors
  pub says_exists : (s : S) (c : Text) → IsOk (store.collection_exists s c)
  pub says_metadata : (s : S) (c : Text) → IsOk (store.get_metadata s c)
  pub drops :
      (s : S) (c : Text)
      → store.collection_exists s c ≡ ok true
      → ((store.drop_collection s c).0 ≡ none)
        × (store.collection_exists (store.drop_collection s c).1 c ≡ ok false)
  pub creates :
      (s : S) (c : Text)
      → store.collection_exists s c ≡ ok false
      → ((store.create_collection s c embedder.dimension).0 ≡ none)
        × (store.collection_exists (store.create_collection s c embedder.dimension).1 c ≡ ok true)
  pub inserts :
      (s : S) (c : Text) (docs : List Document) (vectors : List V)
      → store.collection_exists s c ≡ ok true
      → length vectors ≡ length docs
      → All accepts docs
      → All fits vectors
      → ((store.insert s c docs vectors).0 ≡ none)
        × (store.collection_exists (store.insert s c docs vectors).1 c ≡ ok true)
  pub sets :
      (s : S) (c : Text) (m : IndexMetadata)
      → store.collection_exists s c ≡ ok true
      → (store.set_metadata s c m).0 ≡ none
  pub acceptable :
      (root : Text) (files : List Text)
      → project.walk_files root ≡ ok files
      → All (λ c. accepts (document c)) (all_chunks project root files)

module _ {S : Type 0} (Good : Option Text × S → Type 0) where
  or_fail_works :
      {A : Type 0} (what : Text) (s : S) (answer : Result A) (rest : A → Option Text × S) (a : A)
      → answer ≡ ok a
      → Good (rest a)
      → Good (or_fail what s answer rest)
  unfolding or_fail
  or_fail_works what s answer rest a known goes = rw known goes

  then_do_works :
      (P : S → Type 0) (what : Text) (first : Option Text × S) (rest : S → Option Text × S)
      → (first.0 ≡ none) × P first.1
      → ((s : S) → P s → Good (rest s))
      → Good (then_do what first rest)
  unfolding then_do
  then_do_works P what (some e, s) rest (never, h) goes = cc
  then_do_works P what (none, s) rest (went, h) goes = goes s h

dimension-known : (n : ℕ) (detect : Option (Result ℕ)) → 1 ≤ n → dimension_or_error n detect ≡ ok n
dimension-known zero detect h = ground arith
dimension-known (suc n) detect h = refl

skip_by-IsOk :
    (force : Bool) (opts : IndexOptions) (rules : Text) (exists : Result Bool)
    (answer : Result (Option IndexMetadata))
    → IsOk exists
    → IsOk answer
    → IsOk (skip_by force opts rules exists answer)
skip_by-IsOk true opts rules exists answer h k = (false, refl)
skip_by-IsOk false opts rules (error e) answer (b, never) k = cc
skip_by-IsOk false opts rules (ok false) answer h k = (false, refl)
skip_by-IsOk false opts rules (ok true) (error e) h (m, never) = cc
skip_by-IsOk false opts rules (ok true) (ok meta) h k = (up_to_date opts rules meta, refl)

module _ {S V : Type 0} (store : Store S V) (embedder : Embedder V) (project : Project)
    (accepts : Document → Type 0) (fits : V → Type 0)
    (works : IsWorking store embedder project accepts fits) where
  -- The first part of an end is its error.
  abbrev Well : Option Text × S → Type 0
  Well p = p.0 ≡ none

  abbrev There : Bool → Text → S → Type 0
  There b c s = store.collection_exists s c ≡ ok b

  -- An end without an error, with the collection in place or not.
  abbrev WellWith : Bool → Text → Option Text × S → Type 0
  WellWith b c p = (p.0 ≡ none) × There b c p.1

  -- The documents of a batch are acceptable, as those of all the chunks are.
  batch-accepted :
      (chunks : List Chunk) (i : ℕ)
      → All (λ c. accepts (document c)) chunks
      → All accepts (map document (batch chunks i))
  batch-accepted chunks i fine =
      All-map_of accepts document (batch chunks i)
        (All-take _ (batch_end chunks i - i) (drop i chunks) (All-drop _ i chunks fine))

  store_batches-Well :
      (fuel : ℕ) (c : Text) (chunks : List Chunk) (i : ℕ) (s : S)
      → All (λ c. accepts (document c)) chunks
      → There true c s
      → WellWith true c (store_batches store embedder fuel c chunks i s)
  unfolding store_batches
  store_batches-Well zero c chunks i s fine there = (refl, there)
  store_batches-Well (suc fuel) c chunks i s fine there =
      let now = batch chunks i in
      let texts = map (λ (c : Chunk). c.content) now in
      let (vectors, answer, one_each, fit) = works.embeds i texts in
      let as_many : length vectors ≡ length (map document now) =
        one_each ∙ length-map (λ (c : Chunk). c.content) now ∙ sym (length-map document now) in
      if_both (WellWith true c) (ltb i (length chunks))
        (or_fail_works (WellWith true c) _ _ _ _ vectors answer (
          then_do_works (WellWith true c) (There true c) _ _ _
            (works.inserts s c (map document now) vectors there as_many
              (batch-accepted chunks i fine) fit)
            (λ s' there'. store_batches-Well fuel c chunks (i + 64) s' fine there')))
        (refl, there)

  clear-Well :
      (c : Text) (exists : Bool) (s : S)
      → There exists c s
      → WellWith false c (clear store embedder project c exists s)
  clear-Well c true s there =
      then_do_works (WellWith false c) (There false c) _ _ _ (works.drops s c there)
        (λ s' gone. (refl, gone))
  clear-Well c false s gone = (refl, gone)

  fill-Well :
      (opts : IndexOptions) (root c rules : Text) (s : S)
      → There true c s
      → Well (fill store embedder project opts root c rules s)
  fill-Well opts root c rules s there =
      let (files, walked) = works.walks root in
      let chunks = all_chunks project root files in
      or_fail_works Well _ _ _ _ files walked (
        then_do_works Well (There true c) _ _ _
          (store_batches-Well (length chunks) c chunks 0 s (works.acceptable root files walked)
            there)
          (λ full there'.
            then_do_works Well (λ t. Unit) _ _ _
              (works.sets full c (metadata project opts rules files chunks) there', tt)
              (λ last ended. refl)))

  rebuild-Well :
      (opts : IndexOptions) (root c rules : Text) (s : S)
      → Well (rebuild store embedder project opts root c rules s)
  rebuild-Well opts root c rules s =
      let (exists, says) = works.says_exists s c in
      or_fail_works Well _ _ _ _ embedder.dimension
        (dimension-known embedder.dimension embedder.detect_dimension works.has_dimension)
        (or_fail_works Well _ _ _ _ exists says (
          then_do_works Well (There false c) _ _ _ (clear-Well c exists s says) (λ cleared gone.
            then_do_works Well (There true c) _ _ _ (works.creates cleared c gone)
              (fill-Well opts root c rules))))

  index-Well :
      (opts : IndexOptions) (root rules : Text) (s : S)
      → project.abs opts.path ≡ ok root
      → project.fingerprint root ≡ ok rules
      → Well (index store embedder project opts s)
  unfolding index
  index-Well opts root rules s has_root has_rules =
      let c = resolve_collection_name project.hash root opts.collection_name in
      let (skipped, known) =
        skip_by-IsOk opts.force opts rules (store.collection_exists s c) (store.get_metadata s c)
          (works.says_exists s c) (works.says_metadata s c) in
      or_fail_works Well _ _ _ _ root has_root (
        or_fail_works Well _ _ _ _ rules has_rules (
          or_fail_works Well _ _ _ _ skipped known
            (if_both Well skipped refl (rebuild-Well opts root c rules s))))

  -- Over a store that keeps its promises and whose calls succeed where they may be made (`IsWorking`),
  -- with an embedder that knows its dimension and gives a fitting vector for each text, a run for a
  -- project whose path, rules and files can be found, and whose documents the store accepts, ends without
  -- an error, and was skipped or has stored the project anew.
  pub index_works :
      (keeps : Document → Document) (documents : S → Text → List Document)
      (saved : S → Text → Option IndexMetadata)
      → IsStore store keeps documents saved
      → (opts : IndexOptions) (root rules : Text) (s : S) → project.abs opts.path ≡ ok root
      → project.fingerprint root ≡ ok rules
      → (s' : S) × (index store embedder project opts s ≡ (none, s'))
        × (IsSkipped store opts rules
              (resolve_collection_name project.hash root opts.collection_name)
              s
              s'
            ⊎ IsStored keeps documents saved project opts root rules
                (resolve_collection_name project.hash root opts.collection_name)
                s')
  index_works keeps documents saved laws opts root rules s has_root has_rules =
      let last = (index store embedder project opts s).1 in
      let run : index store embedder project opts s ≡ (none, last) =
        ap (λ e. (e, last)) (index-Well opts root rules s has_root has_rules) in
      (
        last,
        run,
        index_lem store embedder project keeps documents saved laws opts root rules s last has_root
            has_rules run,
      )
