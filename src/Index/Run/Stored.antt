-- ===== src/Index/Run/Stored.antt =====
-- What a run of the indexer leaves in the store.
use codesight.Prelude.{
  ℕ, zero, suc, ◌+◌, ◌-◌, ◌≤◌, ◌≡◌, ◌⊎◌, inl, inr, refl, sym, ◌∙◌, ap, subst, Bool, true, false,
  not, List, [], ◌++◌, arith, ltb, if◌then◌else◌, length, take, take_all, drop, drop_all, drop-drop,
  map-append, Option, none, some, map, append_assoc, append-nil, take-append-drop, length-drop,
  Bool-cases, if_true, if_false, ltb→lt,
}
use codesight.Text.{Text}
use codesight.Index.{IndexMetadata, is_stale, resolve_collection_name}
use codesight.Index.Run.{
  Result, ok, error, Document, Store, Embedder, Project, IndexOptions, document, or_fail, then_do,
  batch_end, batch, store_batches, all_chunks, metadata, fill, clear, rebuild, skip, skip_by, index,
}
use codesight.Splitter.{Chunk}

-- What the calls of a store promise where they succeed, over two views of a state: the documents of a
-- collection, in the order of insertion, and its metadata. A store may cut a document when it takes it:
-- `keeps` is what it makes of one. Only a collection that is missing or dropped is sure to be empty:
-- creating one leaves the documents that are there.
pub record IsStore {S V : Type 0} (store : Store S V) (keeps : Document → Document)
    (documents : S → Text → List Document) (saved : S → Text → Option IndexMetadata) : Type 0 where
  pub answered :
      (s : S) (c : Text) (m : IndexMetadata)
      → store.get_metadata s c ≡ ok (some m)
      → saved s c ≡ some m
  pub absent : (s : S) (c : Text) → store.collection_exists s c ≡ ok false → documents s c ≡ []
  pub dropped : (s s' : S) (c : Text) → store.drop_collection s c ≡ (none, s') → documents s' c ≡ []
  pub created :
      (s s' : S) (c : Text) (n : ℕ)
      → store.create_collection s c n ≡ (none, s')
      → documents s' c ≡ documents s c
  pub inserted :
      (s s' : S) (c : Text) (docs : List Document) (vectors : List V)
      → store.insert s c docs vectors ≡ (none, s')
      → documents s' c ≡ documents s c ++ map keeps docs
  pub set_documents :
      (s s' : S) (c : Text) (m : IndexMetadata)
      → store.set_metadata s c m ≡ (none, s')
      → documents s' c ≡ documents s c
  pub set_saved :
      (s s' : S) (c : Text) (m : IndexMetadata)
      → store.set_metadata s c m ≡ (none, s')
      → saved s' c ≡ some m

module _ {S : Type 0} where
  -- A chain that ends without an error had none in its first call.
  then_do-none :
      (what : Text) (first : Option Text × S) (rest : S → Option Text × S) (s' : S)
      → then_do what first rest ≡ (none, s')
      → (mid : S) × (first ≡ (none, mid)) × (rest mid ≡ (none, s'))
  unfolding then_do
  then_do-none what (some e, s) rest s' h =
      let bad : some (what ++ e) ≡ none = ap (λ p. p.0) h in cc
  then_do-none what (none, s) rest s' h = (s, refl, h)

  pub or_fail-ok :
      {A : Type 0} (what : Text) (s : S) (answer : Result A) (rest : A → Option Text × S) (a : A)
      → answer ≡ ok a
      → or_fail what s answer rest ≡ rest a
  unfolding or_fail
  or_fail-ok what s answer rest a h = rw h refl

  or_fail-none :
      {A : Type 0} (what : Text) (s : S) (answer : Result A) (rest : A → Option Text × S) (s' : S)
      → or_fail what s answer rest ≡ (none, s')
      → (a : A) × (answer ≡ ok a) × (rest a ≡ (none, s'))
  unfolding or_fail
  or_fail-none what s (error e) rest s' h =
      let bad : some (what ++ e) ≡ none = ap (λ p. p.0) h in cc
  or_fail-none what s (ok a) rest s' h = (a, refl, h)

-- What a store has of some chunks.
abbrev pub stored_as : (Document → Document) → List Chunk → List Document
stored_as keeps chunks = map keeps (map document chunks)

stored_as-append :
    (keeps : Document → Document) (xs ys : List Chunk)
    → stored_as keeps (xs ++ ys) ≡ stored_as keeps xs ++ stored_as keeps ys
stored_as-append keeps xs ys =
    ap (map keeps) (map-append document xs ys)
    ∙ map-append keeps (map document xs) (map document ys)

batch_rest : (chunks : List Chunk) (i : ℕ) → batch chunks i ++ drop (i + 64) chunks ≡ drop i chunks
batch_rest chunks i = elim (Bool-cases (ltb (i + 64) (length chunks))) [
  | inl inside ↦
      let size : batch_end chunks i - i ≡ 64 =
        omega (arith, ltb→lt (i + 64) (length chunks) inside) in
      ap (λ n. take n (drop i chunks) ++ drop (i + 64) chunks) size
      ∙ ap (λ rest. take 64 (drop i chunks) ++ rest) (sym (drop-drop i 64 (i + 64) chunks refl))
      ∙ take-append-drop 64 (drop i chunks)
  | inr last ↦
      let none_left : length chunks ≤ i + 64 = ground arith in
      let all : length (drop i chunks) ≤ batch_end chunks i - i =
        omega (arith, length-drop i chunks) in
      ap (λ rest. batch chunks i ++ rest) (drop_all (i + 64) chunks none_left)
      ∙ append-nil (batch chunks i)
      ∙ take_all (batch_end chunks i - i) (drop i chunks) all
]

module _ {S V : Type 0} (store : Store S V) (embedder : Embedder V) (keeps : Document → Document)
    (documents : S → Text → List Document) (saved : S → Text → Option IndexMetadata)
    (laws : IsStore store keeps documents saved) where
  -- A loop that ends without an error has added the documents of all the chunks that were left, in order.
  store_batches-documents :
      (fuel : ℕ) (c : Text) (chunks : List Chunk) (i : ℕ) (s s' : S)
      → length chunks ≤ i + fuel
      → store_batches store embedder fuel c chunks i s ≡ (none, s')
      → documents s' c ≡ documents s c ++ stored_as keeps (drop i chunks)
  unfolding store_batches
  store_batches-documents zero c chunks i s s' enough run =
      let over : length chunks ≤ i = omega (arith, enough) in
      ap (λ p. documents p.1 c) (sym run)
      ∙ sym (append-nil (documents s c))
      ∙ ap (λ rest. documents s c ++ stored_as keeps rest) (sym (drop_all i chunks over))
  store_batches-documents (suc fuel) c chunks i s s' enough run =
      elim (Bool-cases (ltb i (length chunks))) [
        | inr stop ↦
            let over : length chunks ≤ i = ground arith in
            let ended : (none, s) ≡ (none, s') = sym (if_false _ _ _ stop) ∙ run in
            ap (λ p. documents p.1 c) (sym ended)
            ∙ sym (append-nil (documents s c))
            ∙ ap (λ rest. documents s c ++ stored_as keeps rest) (sym (drop_all i chunks over))
        | inl more ↦
            let (vectors, embedded, went) =
              or_fail-none _ _ _ _ s' (sym (if_true _ _ _ more) ∙ run) in
            let (mid, put, later) = then_do-none _ _ _ s' went in
            let rest = store_batches-documents fuel c chunks (i + 64) mid s' (omega arith) later in
            rest
            ∙ ap (λ docs. docs ++ stored_as keeps (drop (i + 64) chunks))
                (laws.inserted s mid c (map document (batch chunks i)) vectors put)
            ∙ append_assoc (documents s c) (stored_as keeps (batch chunks i))
                (stored_as keeps (drop (i + 64) chunks))
            ∙ ap (λ docs. documents s c ++ docs)
                (sym (stored_as-append keeps (batch chunks i) (drop (i + 64) chunks)))
            ∙ ap (λ rest. documents s c ++ stored_as keeps rest) (batch_rest chunks i)
      ]

-- The run stored the project anew: in the collection stand the documents of the chunks of all its
-- files, as the store keeps them, each once, in order and nothing else, and the metadata name the commit, the rules and the two counts.
pub record IsStored {S : Type 0} (keeps : Document → Document)
    (documents : S → Text → List Document) (saved : S → Text → Option IndexMetadata)
    (project : Project) (opts : IndexOptions) (root rules c : Text) (s' : S) : Type 0 where
  pub files : List Text
  pub walked : project.walk_files root ≡ ok files
  pub stored : documents s' c ≡ stored_as keeps (all_chunks project root files)
  pub recorded :
      saved s' c ≡ some (metadata project opts rules files (all_chunks project root files))

-- The run was skipped: it was not forced, and the store, which it leaves alone, has metadata that are
-- not stale.
pub record IsSkipped {S V : Type 0} (store : Store S V) (opts : IndexOptions) (rules c : Text)
    (s s' : S) : Type 0 where
  pub not_forced : opts.force ≡ false
  pub meta : IndexMetadata
  pub has_metadata : store.get_metadata s c ≡ ok (some meta)
  pub fresh : is_stale (some meta) opts.commit_sha rules ≡ false
  pub untouched : s' ≡ s

ok_inj : (a b : Bool) → ok a ≡ ok b → a ≡ b
ok_inj a b e = cc

skip_by-true :
    (force : Bool) (opts : IndexOptions) (rules : Text) (exists : Result Bool)
    (answer : Result (Option IndexMetadata))
    → skip_by force opts rules exists answer ≡ ok true
    → (force ≡ false)
      × (meta : IndexMetadata) × (answer ≡ ok (some meta))
      × (is_stale (some meta) opts.commit_sha rules ≡ false)
skip_by-true true opts rules exists answer h = cc
skip_by-true false opts rules (error e) answer h = cc
skip_by-true false opts rules (ok false) answer h = cc
skip_by-true false opts rules (ok true) (error e) h = cc
skip_by-true false opts rules (ok true) (ok none) h = cc
skip_by-true false opts rules (ok true) (ok (some meta)) h = (
  refl,
  meta,
  refl,
  ground (arith, ok_inj (not (is_stale (some meta) opts.commit_sha rules)) true h),
)

module _ {S V : Type 0} (store : Store S V) (embedder : Embedder V) (project : Project)
    (keeps : Document → Document) (documents : S → Text → List Document)
    (saved : S → Text → Option IndexMetadata) (laws : IsStore store keeps documents saved) where
  fill-IsStored :
      (opts : IndexOptions) (root c rules : Text) (s s' : S)
      → documents s c ≡ []
      → fill store embedder project opts root c rules s ≡ (none, s')
      → IsStored keeps documents saved project opts root rules c s'
  fill-IsStored opts root c rules s s' empty run =
      let (files, walked, went) = or_fail-none _ _ _ _ s' run in
      let chunks = all_chunks project root files in
      let (full, looped, later) = then_do-none _ _ _ s' went in
      let (last, put, ended) = then_do-none _ _ _ s' later in
      let same : last ≡ s' = ap (λ p. p.1) ended in
      record {
        files = files;
        walked = walked;
        stored =
            ap (λ state. documents state c) (sym same)
            ∙ laws.set_documents full last c (metadata project opts rules files chunks) put
            ∙ store_batches-documents store embedder keeps documents saved laws (length chunks) c
                chunks 0 s full (omega arith) looped
            ∙ ap (λ docs. docs ++ stored_as keeps chunks) empty;
        recorded =
            ap (λ state. saved state c) (sym same)
            ∙ laws.set_saved full last c (metadata project opts rules files chunks) put;
      }

  -- What was there is gone before the collection is made.
  clear-documents :
      (c : Text) (exists : Bool) (s s' : S)
      → store.collection_exists s c ≡ ok exists
      → clear store embedder project c exists s ≡ (none, s')
      → documents s' c ≡ []
  clear-documents c true s s' answered run =
      let (mid, dropped, ended) = then_do-none _ _ _ s' run in
      ap (λ p. documents p.1 c) (sym ended) ∙ laws.dropped s mid c dropped
  clear-documents c false s s' answered run =
      ap (λ p. documents p.1 c) (sym run) ∙ laws.absent s c answered

  rebuild-IsStored :
      (opts : IndexOptions) (root c rules : Text) (s s' : S)
      → rebuild store embedder project opts root c rules s ≡ (none, s')
      → IsStored keeps documents saved project opts root rules c s'
  rebuild-IsStored opts root c rules s s' run =
      let (dimension, known, one) = or_fail-none _ _ _ _ s' run in
      let (exists, answered, two) = or_fail-none _ _ _ _ s' one in
      let (cleared, dropped, three) = then_do-none _ _ _ s' two in
      let (made, created, four) = then_do-none _ _ _ s' three in
      fill-IsStored opts root c rules made s'
        (laws.created cleared made c dimension created
          ∙ clear-documents c exists s cleared answered dropped)
        four

  skip-IsSkipped :
      (opts : IndexOptions) (rules c : Text) (s : S)
      → skip store embedder project opts c rules s ≡ ok true
      → IsSkipped store opts rules c s s
  skip-IsSkipped opts rules c s skipped =
      let (not_forced, meta, has_metadata, fresh) =
        skip_by-true opts.force opts rules (store.collection_exists s c) (store.get_metadata s c)
          skipped in
      record {
        not_forced = not_forced;
        meta = meta;
        has_metadata = has_metadata;
        fresh = fresh;
        untouched = refl;
      }

  -- A run that ends without an error, for a project whose path and rules can be read and a store that
  -- keeps its promises, was skipped or has stored the project anew.
  pub index_lem :
      (opts : IndexOptions) (root rules : Text) (s s' : S)
      → project.abs opts.path ≡ ok root
      → project.fingerprint root ≡ ok rules
      → index store embedder project opts s ≡ (none, s')
      → IsSkipped store opts rules
          (resolve_collection_name project.hash root opts.collection_name)
          s
          s'
        ⊎ IsStored keeps documents saved project opts root rules
            (resolve_collection_name project.hash root opts.collection_name)
            s'
  unfolding index
  index_lem opts root rules s s' has_root has_rules run =
      let c = resolve_collection_name project.hash root opts.collection_name in
      let one = sym (or_fail-ok _ _ _ _ root has_root) ∙ run in
      let two = sym (or_fail-ok _ _ _ _ rules has_rules) ∙ one in
      let (skipped, was, three) = or_fail-none _ _ _ _ s' two in by_skip c skipped was three
    where
      by_skip :
          (c : Text) (skipped : Bool)
          → skip store embedder project opts c rules s ≡ ok skipped
          → (if skipped then (none, s) else rebuild store embedder project opts root c rules s)
            ≡ (none, s')
          → IsSkipped store opts rules c s s'
            ⊎ IsStored keeps documents saved project opts root rules c s'
      by_skip c true was ended = inl (
          subst (IsSkipped store opts rules c s) (ap (λ p. p.1) ended)
            (skip-IsSkipped opts rules c s was))
      by_skip c false was went = inr (rebuild-IsStored opts root c rules s s' went)
