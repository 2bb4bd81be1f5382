-- ===== src/Index/Run/Memory.antt =====
-- A store in memory, for runs of the indexer, and the promises that it keeps. It refuses what a real one
-- refuses: a call for a collection that is missing, creating one that is there, and documents without
-- as many vectors.
use codesight.Prelude.{
  ◌≡◌, ◌⊎◌, inl, inr, refl, ap, sym, ◌∙◌, Bool, true, false, ◌&&◌, List, [], ◌++◌, length, take,
  map, Option, none, some, if◌then◌else◌, ◌==◌,
}
use codesight.Text.{Text, str}
use codesight.Index.{IndexMetadata}
use codesight.Index.Run.{Document, Store, ok}
use codesight.Index.Run.Stored.{IsStore}
use codesight.Index.Run.Failed.{IsCareful}

-- A store that has one collection under every name.
pub record Memory : Type 0 where
  pub present : Bool
  pub kept : List Document
  pub meta : Option IndexMetadata

-- What it keeps of a document: so much of the content.
abbrev pub cut : Document → Document
cut d = record d { content = take 65535 d.content }

abbrev create_in : Bool → Memory → Option Text × Memory
create_in true s = (some (str "exists"), s)
create_in false s = (none, record { present = true; kept = []; meta = s.meta })

abbrev drop_from : Bool → Memory → Option Text × Memory
drop_from true s = (none, record { present = false; kept = []; meta = none })
drop_from false s = (some (str "missing"), s)

abbrev insert_in : Bool → Memory → List Document → Option Text × Memory
insert_in true s docs = (none, record s { kept = s.kept ++ map cut docs })
insert_in false s docs = (some (str "missing, or not a vector for each document"), s)

abbrev set_in : Bool → Memory → IndexMetadata → Option Text × Memory
set_in true s m = (none, record s { meta = some m })
set_in false s m = (some (str "missing"), s)

abbrev pub memory_store : Store Memory Text
memory_store = record {
  collection_exists = λ s c. ok s.present;
  get_metadata = λ s c. ok s.meta;
  create_collection = λ s c n. create_in s.present s;
  drop_collection = λ s c. drop_from s.present s;
  insert = λ s c docs vectors. insert_in (s.present && (length vectors == length docs)) s docs;
  set_metadata = λ s c m. set_in s.present s m;
}

abbrev pub kept_in : Memory → Text → List Document
kept_in s c = if s.present then s.kept else []

abbrev pub meta_in : Memory → Text → Option IndexMetadata
meta_in s c = s.meta

-- A call that fails does not end without an error.
no_error :
    {A : Type 0} (e : Text) (s s' : Memory)
    → ◌≡◌ {A = Option Text × Memory} (some e, s) (none, s')
    → A
no_error e s s' h = let bad : some e ≡ none = ap (λ p. p.0) h in cc

create_lem :
    (b : Bool) (s s' : Memory) (c : Text)
    → s.present ≡ b
    → create_in b s ≡ (none, s')
    → kept_in s' c ≡ kept_in s c
create_lem true s s' c there h = no_error _ s s' h
create_lem false s s' c there h = ap (λ p. kept_in p.1 c) (sym h) ∙ sym (rw there refl)

drop_lem : (b : Bool) (s s' : Memory) (c : Text) → drop_from b s ≡ (none, s') → kept_in s' c ≡ []
drop_lem true s s' c h = ap (λ p. kept_in p.1 c) (sym h)
drop_lem false s s' c h = no_error _ s s' h

insert_lem :
    (there equal : Bool) (s s' : Memory) (c : Text) (docs : List Document)
    → s.present ≡ there
    → insert_in (there && equal) s docs ≡ (none, s')
    → kept_in s' c ≡ kept_in s c ++ map cut docs
insert_lem true true s s' c docs there h = ap (λ p. kept_in p.1 c) (sym h) ∙ rw there refl
insert_lem true false s s' c docs there h = no_error _ s s' h
insert_lem false equal s s' c docs there h = no_error _ s s' h

set_lem :
    (b : Bool) (s s' : Memory) (c : Text) (m : IndexMetadata)
    → set_in b s m ≡ (none, s')
    → (kept_in s' c ≡ kept_in s c) × (meta_in s' c ≡ some m)
set_lem true s s' c m h = (ap (λ p. kept_in p.1 c) (sym h), ap (λ p. meta_in p.1 c) (sym h))
set_lem false s s' c m h = no_error _ s s' h

pub memory-IsStore : IsStore memory_store cut kept_in meta_in
memory-IsStore = record {
  answered = λ s c m h. cc;
  absent = λ s c h. let gone : s.present ≡ false = cc in rw gone refl;
  dropped = λ s s' c h. drop_lem s.present s s' c h;
  created = λ s s' c n h. create_lem s.present s s' c refl h;
  inserted = λ s s' c docs vectors h.
      insert_lem s.present (length vectors == length docs) s s' c docs refl h;
  set_documents = λ s s' c m h. (set_lem s.present s s' c m h).0;
  set_saved = λ s s' c m h. (set_lem s.present s s' c m h).1;
}

create-meta : (b : Bool) (s : Memory) → (create_in b s).1.meta ≡ s.meta
create-meta true s = refl
create-meta false s = refl

insert-meta : (b : Bool) (s : Memory) (docs : List Document) → (insert_in b s docs).1.meta ≡ s.meta
insert-meta true s docs = refl
insert-meta false s docs = refl

drop-meta :
    (b : Bool) (s : Memory) → ((drop_from b s).1.meta ≡ s.meta) ⊎ ((drop_from b s).1.meta ≡ none)
drop-meta true s = inr refl
drop-meta false s = inl refl

set-meta :
    (b : Bool) (s s' : Memory) (m : IndexMetadata) (e : Text)
    → set_in b s m ≡ (some e, s')
    → s'.meta ≡ s.meta
set-meta true s s' m e h = let bad : none ≡ some e = ap (λ p. p.0) h in cc
set-meta false s s' m e h = ap (λ p. p.1.meta) (sym h)

pub memory-IsCareful : IsCareful memory_store meta_in
memory-IsCareful = record {
  create_keeps = λ s c n. create-meta s.present s;
  insert_keeps = λ s c docs vectors. insert-meta _ s docs;
  drop_keeps = λ s c. drop-meta s.present s;
  set_fails = λ s s' c m e h. set-meta s.present s s' m e h;
}
