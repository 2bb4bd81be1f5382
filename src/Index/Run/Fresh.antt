-- ===== src/Index/Run/Fresh.antt =====
-- A run of the indexer leaves a fresh index.
use codesight.Prelude.{◌≡◌, ◌≢◌, refl, ◌∙◌, ap, false, [], Option, none, inl, inr, List}
use codesight.Text.{Text, trim_space}
use codesight.Index.{IndexMetadata, is_stale, resolve_collection_name}
use codesight.Index.Staleness.{is_stale-false_iff}
use codesight.Index.Run.{
  ok, Document, Store, Embedder, Project, IndexOptions, index, metadata, all_chunks,
}
use codesight.Index.Run.Stored.{IsStore, IsStored, IsSkipped, index_lem}

module _ {S V : Type 0} (store : Store S V) (embedder : Embedder V) (project : Project)
    (keeps : Document → Document) (documents : S → Text → List Document)
    (saved : S → Text → Option IndexMetadata) (laws : IsStore store keeps documents saved) where
  stored-fresh :
      (opts : IndexOptions) (root rules c : Text) (s' : S)
      → trim_space opts.commit_sha ≢ []
      → trim_space rules ≢ []
      → IsStored keeps documents saved project opts root rules c s'
      → is_stale (saved s' c) opts.commit_sha rules ≡ false
  stored-fresh opts root rules c s' commit_there rules_there run =
      let (there, back) =
        is_stale-false_iff
          (metadata project opts rules run.files (all_chunks project root run.files))
          opts.commit_sha rules in
      ap (λ m. is_stale m opts.commit_sha rules) run.recorded
      ∙ back (
        record { present = commit_there; equal = refl },
        record { present = rules_there; equal = refl },
      )

  skipped-fresh :
      (opts : IndexOptions) (rules c : Text) (s s' : S)
      → IsSkipped store opts rules c s s'
      → is_stale (saved s' c) opts.commit_sha rules ≡ false
  skipped-fresh opts rules c s s' run =
      ap (λ state. is_stale (saved state c) opts.commit_sha rules) run.untouched
      ∙ ap (λ m. is_stale m opts.commit_sha rules) (laws.answered s c run.meta run.has_metadata)
      ∙ run.fresh

  -- With a commit and rules that are not blank, an index is fresh after every run that ends without an
  -- error, and so the next run for the same commit and rules has nothing to do.
  pub index-is_stale :
      (opts : IndexOptions) (root rules : Text) (s s' : S)
      → project.abs opts.path ≡ ok root
      → project.fingerprint root ≡ ok rules
      → trim_space opts.commit_sha ≢ []
      → trim_space rules ≢ []
      → index store embedder project opts s ≡ (none, s')
      → is_stale
          (saved s' (resolve_collection_name project.hash root opts.collection_name))
          opts.commit_sha
          rules
        ≡ false
  index-is_stale opts root rules s s' has_root has_rules commit_there rules_there run =
      elim (index_lem store embedder project keeps documents saved laws opts root rules s s'
        has_root has_rules run) [
          | inl skipped ↦ skipped-fresh opts rules _ s s' skipped
          | inr stored ↦ stored-fresh opts root rules _ s' commit_there rules_there stored
        ]
