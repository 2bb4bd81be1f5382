-- ===== src/Index/Run/Examples.antt =====
-- Runs of the indexer over a store in memory, and the theorems about them at concrete inputs.
use codesight.Prelude.{
  ℕ, ◌≡◌, ◌≢◌, ◌⊎◌, refl, arith, Bool, true, false, ◌&&◌, List, [], ◌∷◌, length, All, Option, none,
  some, if◌then◌else◌, ◌==◌,
}
use codesight.Text.{Text, str, eqt, trim_space, decimal, join}
use codesight.Splitter.{Chunk, split_code, new_fallback_splitter}
use codesight.Index.{is_stale, resolve_collection_name}
use codesight.Index.Run.{
  Result, ok, error, Document, Embedder, Project, IndexOptions, index, or_fail, then_do,
  store_batches, all_chunks,
}
use codesight.Index.Run.Stored.{IsStored, IsSkipped, index_lem}
use codesight.Index.Run.Fresh.{index-is_stale}
use codesight.Index.Run.Memory.{
  Memory, memory_store, cut, kept_in, meta_in, memory-IsStore, memory-IsCareful,
}
use codesight.Index.Run.Works.{IsWorking, index_works}
use codesight.Index.Run.Failed.{index_failed}
use codesight.Prelude.Int.{pos}

abbrev code_of : Text → Option Text
code_of file = if eqt file (str "/p/a.go") then some (str "a\nb\n\n\nc") else none

abbrev or_panic : Option (List Chunk) → Result (List Chunk)
or_panic none = error (str "panic")
or_panic (some chunks) = ok chunks

abbrev small_project : Project
small_project = record {
  abs = λ path. ok (str "/p");
  fingerprint = λ root. ok (str "f1");
  walk_files = λ root. ok (str "/p/a.go" ∷ str "/p/gone.go" ∷ []);
  read_file = code_of;
  split_file = λ root file code.
      or_panic (split_code (new_fallback_splitter (pos 2) (pos 0)) code (str "go") file);
  hash = λ bytes. bytes;
  now = 7;
}

abbrev sizes : Embedder Text
sizes = record { dimension = 0; detect_dimension = some (ok 3); embed_batch = λ i texts. ok texts }

abbrev mute : Embedder Text
mute = record {
  dimension = 3;
  detect_dimension = none;
  embed_batch = λ i texts. error (str "timeout");
}

abbrev nothing : Memory
nothing = record { present = false; kept = []; meta = none }

abbrev opts : IndexOptions
opts = record {
  path = str ".";
  collection_name = str "c";
  branch = str "main";
  commit_sha = str "abc";
  force = false;
}

abbrev filled : Memory
filled = (index memory_store sizes small_project opts nothing).1

abbrev summary : Option Text × Memory → Option Text × ℕ × Option (ℕ × ℕ)
summary (e, s) =
    (e, length s.kept, elim s.meta [ none ↦ none | some m ↦ some (m.file_count, m.chunk_count) ])

runs :
    (summary (index memory_store sizes small_project opts nothing) ≡ (none, 2, some (2, 2)))
    × (summary (index memory_store mute small_project opts nothing)
        ≡ (some (str "embedding batch 0-2: timeout"), 0, none))
    × (summary (index memory_store mute small_project opts filled) ≡ (none, 2, some (2, 2)))
unfolding index or_fail then_do store_batches all_chunks decimal split_code new_fallback_splitter
    trim_space eqt is_stale resolve_collection_name join
runs = (refl, refl, refl)

ends_well : index memory_store sizes small_project opts nothing ≡ (none, filled)
unfolding index or_fail then_do store_batches all_chunks split_code new_fallback_splitter trim_space
    eqt join
ends_well = refl

index_lem_example :
    IsSkipped memory_store opts
      (str "f1")
      (resolve_collection_name small_project.hash (str "/p") opts.collection_name)
      nothing
      filled
    ⊎ IsStored cut kept_in meta_in small_project opts
        (str "/p")
        (str "f1")
        (resolve_collection_name small_project.hash (str "/p") opts.collection_name)
        filled
index_lem_example =
    index_lem memory_store sizes small_project cut kept_in meta_in memory-IsStore opts (str "/p")
      (str "f1") nothing filled refl refl ends_well

commit_there : trim_space opts.commit_sha ≢ []
unfolding trim_space
commit_there h = cc

rules_there : trim_space (str "f1") ≢ []
unfolding trim_space
rules_there h = cc

index-is_stale_example :
    is_stale
      (meta_in filled (resolve_collection_name small_project.hash (str "/p") opts.collection_name))
      opts.commit_sha
      (str "f1")
    ≡ false
index-is_stale_example =
    index-is_stale memory_store sizes small_project cut kept_in meta_in memory-IsStore opts
      (str "/p") (str "f1") nothing filled refl refl commit_there rules_there ends_well

abbrev half_done : Memory
half_done = (index memory_store mute small_project opts nothing).1

ends_badly :
    index memory_store mute small_project opts nothing
    ≡ (some (str "embedding batch 0-2: timeout"), half_done)
unfolding index or_fail then_do store_batches all_chunks decimal split_code new_fallback_splitter
    trim_space eqt join
ends_badly = refl

index_failed_example :
    (meta_in half_done (resolve_collection_name small_project.hash (str "/p") opts.collection_name)
      ≡ meta_in nothing
          (resolve_collection_name small_project.hash (str "/p") opts.collection_name))
    ⊎ (meta_in half_done
          (resolve_collection_name small_project.hash (str "/p") opts.collection_name)
        ≡ none)
index_failed_example =
    index_failed memory_store mute small_project meta_in memory-IsCareful opts (str "/p")
      (str "embedding batch 0-2: timeout") nothing half_done refl ends_badly

abbrev three_wide : Embedder Text
three_wide = record sizes { dimension = 3 }

abbrev Anything : {A : Type 0} → A → Type 0
Anything a = Unit

present_by : (b : Bool) (s : Memory) → ok s.present ≡ ok b → s.present ≡ b
present_by b s h = cc

All_any : {A : Type 0} (xs : List A) → All (λ a. Anything a) xs
All_any [] = tt
All_any (x ∷ xs) = (tt, All_any xs)

put_by :
    (s : Memory) (docs : List Document) (vectors : List Text)
    → s.present ≡ true
    → length vectors ≡ length docs
    → (s.present && (length vectors == length docs)) ≡ true
put_by s docs vectors there equal = ground arith

three_wide-IsWorking :
    IsWorking memory_store three_wide small_project (λ d. Anything d) (λ v. Anything v)
three_wide-IsWorking = record {
  walks = λ root. (str "/p/a.go" ∷ str "/p/gone.go" ∷ [], refl);
  has_dimension = omega arith;
  embeds = λ i texts. (texts, refl, refl, All_any texts);
  says_exists = λ s c. (s.present, refl);
  says_metadata = λ s c. (s.meta, refl);
  drops = λ s c there. rw (present_by true s there) (refl, refl);
  creates = λ s c gone. rw (present_by false s gone) (refl, refl);
  inserts = λ s c docs vectors there equal fine fit.
      rw (put_by s docs vectors (present_by true s there) equal) (refl, there);
  sets = λ s c m there. rw (present_by true s there) refl;
  acceptable = λ root files walked. All_any (all_chunks small_project root files);
}

index_works_example :
    (s' : Memory) × (index memory_store three_wide small_project opts half_done ≡ (none, s'))
    × (IsSkipped memory_store opts
          (str "f1")
          (resolve_collection_name small_project.hash (str "/p") opts.collection_name)
          half_done
          s'
        ⊎ IsStored cut kept_in meta_in small_project opts
            (str "/p")
            (str "f1")
            (resolve_collection_name small_project.hash (str "/p") opts.collection_name)
            s')
index_works_example =
    index_works memory_store three_wide small_project (λ d. Anything d) (λ v. Anything v)
      three_wide-IsWorking cut kept_in meta_in memory-IsStore opts (str "/p") (str "f1") half_done
      refl refl
