-- ===== src/Index/Run.antt =====
-- pkg/indexer.go: one run of the indexer over a store, with the interfaces of pkg/vectorstore/store.go
-- and pkg/embedding that it calls. The walk over the files, the ignore rules, the embedding service and
-- the store are parameters; logging is left out.
pub mod Stored
pub mod Fresh
pub mod Failed
pub mod Works
mod Memory
mod Examples
use codesight.Prelude.{
  ℕ, zero, suc, ◌+◌, ◌-◌, Bool, true, false, not, ◌&&◌, List, [], ◌∷◌, ◌++◌, arith, ltb,
  if◌then◌else◌, length, take, drop, min, Option, none, some, map, ◌==◌,
}
use codesight.Text.{Text, str, decimal}
pub use codesight.Text.Result.{Result, ok, error}
use codesight.Index.{IndexMetadata, is_stale, resolve_collection_name}
use codesight.Splitter.{Chunk}

-- The document of a chunk; the indexer leaves ID and Metadata empty.
pub record Document : Type 0 where
  pub content : Text
  pub file_path : Text
  pub start_line : ℕ
  pub end_line : ℕ
  pub language : Text
  pub node_type : Text

-- The calls of a store with states `S` and vectors `V`. A call that changes the store gives the message
-- of its error, if it has one, and the next state.
pub record Store (S V : Type 0) : Type 0 where
  pub collection_exists : S → Text → Result Bool
  pub get_metadata : S → Text → Result (Option IndexMetadata)
  pub create_collection : S → Text → ℕ → Option Text × S
  pub drop_collection : S → Text → Option Text × S
  pub insert : S → Text → List Document → List V → Option Text × S
  pub set_metadata : S → Text → IndexMetadata → Option Text × S

-- An embedder; `detect_dimension` is none where it has no such method. A batch comes with its number,
-- so that the answers to equal batches may differ.
pub record Embedder (V : Type 0) : Type 0 where
  pub dimension : ℕ
  pub detect_dimension : Option (Result ℕ)
  pub embed_batch : ℕ → List Text → Result (List V)

-- The project: its absolute path, the fingerprint of its ignore rules, its files, the contents of a
-- file, the chunks of a file (path relative to the project, language by extension), and the present
-- time. `hash` is sha256.
pub record Project : Type 0 where
  pub abs : Text → Result Text
  pub fingerprint : Text → Result Text
  pub walk_files : Text → Result (List Text)
  pub read_file : Text → Option Text
  pub split_file : Text → Text → Text → Result (List Chunk)
  pub hash : Text → Text
  pub now : ℕ

pub record IndexOptions : Type 0 where
  pub path : Text
  pub collection_name : Text
  pub branch : Text
  pub commit_sha : Text
  pub force : Bool

abbrev pub embedding_batch_size : ℕ
embedding_batch_size = 64

abbrev pub document : Chunk → Document
document c = record {
  content = c.content;
  file_path = c.file_path;
  start_line = c.start_line;
  end_line = c.end_line;
  language = c.language;
  node_type = c.node_type;
}

abbrev pub batch_end : List Chunk → ℕ → ℕ
batch_end chunks i = min (i + embedding_batch_size) (length chunks)

abbrev pub batch : List Chunk → ℕ → List Chunk
batch chunks i = take (batch_end chunks i - i) (drop i chunks)

-- "<what> batch <i>-<end>: "
abbrev batch_error : Text → List Chunk → ℕ → Text
batch_error what chunks i =
    what
    ++ (str " batch " ++ (decimal i ++ (str "-" ++ (decimal (batch_end chunks i) ++ str ": "))))

module _ (project : Project) where
  abbrev chunks_of : Text → Text → Option Text → List Chunk
  chunks_of root file none = []
  chunks_of root file (some code) = elim (project.split_file root file code) [
    | error e ↦ []
    | ok chunks ↦ chunks
  ]

  -- Files that cannot be read or split are passed over.
  unfoldable pub all_chunks : Text → List Text → List Chunk
  all_chunks root [] = []
  all_chunks root (file ∷ files) =
      chunks_of root file (project.read_file file) ++ all_chunks root files

  abbrev pub metadata : IndexOptions → Text → List Text → List Chunk → IndexMetadata
  metadata opts rules files chunks = record {
    branch = opts.branch;
    commit_sha = opts.commit_sha;
    ignore_fingerprint = rules;
    indexed_at = project.now;
    file_count = length files;
    chunk_count = length chunks;
  }

abbrev up_to_date : IndexOptions → Text → Option IndexMetadata → Bool
up_to_date opts rules none = false
up_to_date opts rules (some meta) = not (is_stale (some meta) opts.commit_sha rules)

-- Is the run skipped? From the option, whether there is a collection, and its metadata.
abbrev skip_by :
    Bool → IndexOptions → Text → Result Bool → Result (Option IndexMetadata) → Result Bool
skip_by true opts rules exists answer = ok false
skip_by false opts rules (error e) answer = error (str "checking collection: " ++ e)
skip_by false opts rules (ok false) answer = ok false
skip_by false opts rules (ok true) (error e) = error (str "getting metadata: " ++ e)
skip_by false opts rules (ok true) (ok meta) = ok (up_to_date opts rules meta)

-- The dimension, if it is known or found out.
abbrev dimension_or_error : ℕ → Option (Result ℕ) → Result ℕ
dimension_or_error (suc n) detect = ok (suc n)
dimension_or_error zero none = error (str "unable to determine embedding dimension")
dimension_or_error zero (some (error e)) = error (str "detecting embedding dimension: " ++ e)
dimension_or_error zero (some (ok zero)) = error (str "unable to determine embedding dimension")
dimension_or_error zero (some (ok (suc n))) = ok (suc n)

module _ {S : Type 0} where
  -- The rest of a run after a call, or the end of the run with a wrapped error.
  unfoldable pub or_fail :
      {A : Type 0} → Text → S → Result A → (A → Option Text × S) → Option Text × S
  or_fail what s (error e) rest = (some (what ++ e), s)
  or_fail what s (ok a) rest = rest a

  unfoldable pub then_do : Text → Option Text × S → (S → Option Text × S) → Option Text × S
  then_do what (some e, s) rest = (some (what ++ e), s)
  then_do what (none, s) rest = rest s

module _ {S V : Type 0} (store : Store S V) (embedder : Embedder V) where
  -- The loop over the batches, on fuel.
  unfoldable pub store_batches : ℕ → Text → List Chunk → ℕ → S → Option Text × S
  unfolding decimal
  store_batches zero collection chunks i s = (none, s)
  store_batches (suc fuel) collection chunks i s =
      if ltb i (length chunks)
      then or_fail (batch_error (str "embedding") chunks i) s
          (embedder.embed_batch i (map (λ (c : Chunk). c.content) (batch chunks i)))
          (λ vectors.
            then_do (batch_error (str "inserting") chunks i)
              (store.insert s collection (map document (batch chunks i)) vectors)
              (store_batches fuel collection chunks (i + embedding_batch_size)))
      else (none, s)

module _ {S V : Type 0} (store : Store S V) (embedder : Embedder V) (project : Project) where
  -- From the walk to the metadata.
  abbrev pub fill : IndexOptions → Text → Text → Text → S → Option Text × S
  fill opts root collection rules s =
      or_fail (str "walking files: ") s (project.walk_files root) (λ files.
        then_do []
          (store_batches store embedder (length (all_chunks project root files)) collection
            (all_chunks project root files) 0 s)
          (λ s'.
            then_do (str "saving metadata: ")
              (store.set_metadata s' collection
                (metadata project opts rules files (all_chunks project root files)))
              (λ last. (none, last))))

  -- The old collection is dropped, where there is one.
  abbrev pub clear : Text → Bool → S → Option Text × S
  clear collection exists s =
      if exists
      then then_do (str "dropping collection: ") (store.drop_collection s collection)
          (λ s'. (none, s'))
      else (none, s)

  -- From the dimension to the end.
  abbrev pub rebuild : IndexOptions → Text → Text → Text → S → Option Text × S
  rebuild opts root collection rules s =
      or_fail [] s (dimension_or_error embedder.dimension embedder.detect_dimension) (λ dimension.
        or_fail (str "checking collection before recreate: ") s
          (store.collection_exists s collection)
          (λ exists. then_do [] (clear collection exists s) (λ cleared.
            then_do (str "creating collection: ")
              (store.create_collection cleared collection dimension)
              (fill opts root collection rules))))

  abbrev pub skip : IndexOptions → Text → Text → S → Result Bool
  skip opts collection rules s =
      skip_by opts.force opts rules (store.collection_exists s collection)
        (store.get_metadata s collection)

  -- Indexer.Index: the message of its error, if it has one, and the store afterwards.
  unfoldable pub index : IndexOptions → S → Option Text × S
  index opts s = or_fail (str "resolving path: ") s (project.abs opts.path) (λ root.
      or_fail (str "loading ignore rules: ") s (project.fingerprint root) (λ rules.
        let collection = resolve_collection_name project.hash root opts.collection_name in
        or_fail [] s (skip opts collection rules s)
          (λ skipped. if skipped then (none, s) else rebuild opts root collection rules s)))
