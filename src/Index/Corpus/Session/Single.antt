-- ===== src/Index/Corpus/Session/Single.antt =====
-- Each call of a session keeps what holds all along, `Follows`.
use rag_cpp.Common.{
  ℕ, ◌%◌, ◌^◌, ◌<◌, ◌≡◌, refl, ◌∙◌, sym, ap, subst, true, false, none, some, List, [], ◌∷◌, ◌++◌,
  length, length-append, arith, Bool-cases, inl, inr, ◌==◌,
}
use rag_cpp.Core.{Result, is_empty}
use rag_cpp.Store.Wal.{WalRecord}
use rag_cpp.Store.Wal.Log.{Disk, Calls, Reply}
use rag_cpp.Lexical.Bm25.{finalize}
use rag_cpp.Index.Corpus.{
  Ingest, Document, DocInput, Contents, insert, document_of, new_chunks, find_by_uri, is_unknown,
  is_deleted, ensure_linked, tombstone, build,
}
use rag_cpp.Index.Corpus.Logged.{
  Corpus, Answer, Effect, logs, write_log, add_record, remove_record, add_document_locked,
  remove_document_locked, upsert_document,
}
use rag_cpp.Index.Corpus.Valid.{IsValid, Fits, insert-IsValid, tombstone-IsValid, add_chunks-same}
use rag_cpp.Index.Corpus.Live.{
  live, live_docs-IdsFrom, UniqueUris, without_id, first_with, without_id-without_uri,
  first_with-without_uri,
}
use rag_cpp.Index.Corpus.Upsert.{relinked, add_document_locked_value, remove_document_locked_ok}
use rag_cpp.Index.Corpus.Replacing.{
  insert-live, find_by_uri-live, tombstone-live, UniqueUris-append, find_by_uri-known,
}
use rag_cpp.Index.Corpus.Apply.{apply_record, take_out}
use rag_cpp.Index.Corpus.Settled.{settled}
use rag_cpp.Index.Corpus.Session.{Follows, acked}

pub first_with-without_id :
    (uri : List ℕ) (i : ℕ) (docs : List Document)
    → first_with uri docs ≡ none
    → first_with uri (without_id i docs) ≡ none
unfolding first_with without_id
first_with-without_id uri i [] h = refl
first_with-without_id uri i (d ∷ docs) h = ground (arith, first_with-without_id uri i docs)

pub without_id-UniqueUris :
    (i : ℕ) (docs : List Document) → UniqueUris docs → UniqueUris (without_id i docs)
unfolding without_id
without_id-UniqueUris i [] u = tt
without_id-UniqueUris i (d ∷ docs) u = elim (Bool-cases (d.id == i)) [
  | inl e ↦ rw e (without_id-UniqueUris i docs u.1)
  | inr e ↦
      rw e (λ full. first_with-without_id d.uri i docs (u.0 full), without_id-UniqueUris i docs u.1)
]

pub insert-room :
    (ing : Ingest) (d : DocInput) (s : Contents) → Fits (insert ing d s) → length s.docs < 2 ^ 32
unfolding insert
insert-room ing d s f =
    let doc = document_of (length s.docs % 2 ^ 32) d in
    let (docs, deleted, rows, epoch) =
      add_chunks-same (new_chunks ing doc) (record s { docs = s.docs ++ doc ∷ [] }) in
    omega (arith, length-append s.docs (doc ∷ []), rw docs at f.docs_fit)

pub find_by_uri-first_with :
    (uri : List ℕ) (s : Contents)
    → find_by_uri uri s ≡ none
    → is_empty uri ≡ false
    → first_with uri (live s) ≡ none
find_by_uri-first_with uri s h e = sym (find_by_uri-live uri s e) ∙ h

pub insert-UniqueUris :
    (ing : Ingest) (d : DocInput) (s : Contents)
    → IsValid s
    → Fits (insert ing d s)
    → UniqueUris (live s)
    → find_by_uri d.uri s ≡ none
    → UniqueUris (live (insert ing d s))
insert-UniqueUris ing d s v f u h =
    rw (insert-live ing d s v.deleted_known (insert-room ing d s f)) (
      UniqueUris-append (live s) (document_of (length s.docs) d) u
        (find_by_uri-first_with d.uri s h))

pub empty_none : (uri : List ℕ) (s : Contents) → is_empty uri ≡ true → find_by_uri uri s ≡ none
unfolding find_by_uri
empty_none uri s e = rw e refl

pub linked_unknown :
    (id : ℕ) (s : Contents) → is_unknown id s ≡ false → is_unknown id (ensure_linked s) ≡ false
unfolding is_unknown is_deleted ensure_linked
linked_unknown id s e = e

-- After the document that a uri finds is gone, the uri finds none.
pub tombstone-find_by_uri :
    (uri : List ℕ) (i : ℕ) (s : Contents)
    → IsValid s
    → UniqueUris (live s)
    → find_by_uri uri s ≡ some i
    → find_by_uri uri (tombstone i (ensure_linked s)) ≡ none
tombstone-find_by_uri uri i s v u h = elim (Bool-cases (is_empty uri)) [
  | inl e ↦ cc (empty_none uri s e, h)
  | inr e ↦
      let found : first_with uri (live s) ≡ some i = sym (find_by_uri-live uri s e) ∙ h in
      let gone =
        without_id-without_uri uri i 0 (live s) e u
          (live_docs-IdsFrom s.deleted 0 s.docs v.docs_numbered) found in
      find_by_uri-live uri (tombstone i (ensure_linked s)) e
      ∙ ap (first_with uri) (tombstone-live i s ∙ gone.0)
      ∙ first_with-without_uri uri (live s)
]

pub linked-IsValid : (s : Contents) → IsValid s → IsValid (ensure_linked s)
unfolding ensure_linked
linked-IsValid s v = record {
  docs_numbered = v.docs_numbered;
  rows_numbered = v.rows_numbered;
  rows_belong = v.rows_belong;
  deleted_known = v.deleted_known;
  deleted_distinct = v.deleted_distinct;
}

pub built-IsValid : (s : Contents) → IsValid s → IsValid (build s)
unfolding ensure_linked build
built-IsValid s v = record {
  docs_numbered = v.docs_numbered;
  rows_numbered = v.rows_numbered;
  rows_belong = v.rows_belong;
  deleted_known = v.deleted_known;
  deleted_distinct = v.deleted_distinct;
}

module _ (ing : Ingest) (s0 : Contents) where
  pub relinked-Follows :
      (recs : List WalRecord) (c : Corpus) (disk : Disk)
      → Follows ing s0 recs c disk
      → Follows ing s0 recs (relinked c) disk
  unfolding ensure_linked settled logs
  relinked-Follows recs c disk f = record {
    in_use = f.in_use;
    content_eq = f.content_eq;
    contents_valid = linked-IsValid c.contents f.contents_valid;
    unique = f.unique;
    agrees = f.agrees;
  }

  pub rebuilt-Follows :
      (recs : List WalRecord) (c : Corpus) (disk : Disk)
      → Follows ing s0 recs c disk
      → Follows ing s0 recs (record c { contents = build c.contents }) disk
  unfolding ensure_linked build settled logs finalize
  rebuilt-Follows recs c disk f = record {
    in_use = f.in_use;
    content_eq = f.content_eq;
    contents_valid = built-IsValid c.contents f.contents_valid;
    unique = f.unique;
    agrees = f.agrees;
  }

  pub apply_add :
      (d : DocInput) (s : Contents)
      → find_by_uri d.uri s ≡ none
      → insert ing d s ≡ apply_record ing (add_record d) s
  unfolding apply_record
  apply_add d s h = rw h refl

  pub apply_remove :
      (id : ℕ) (s : Contents)
      → is_unknown id s ≡ false
      → tombstone id (ensure_linked s) ≡ apply_record ing (remove_record id) (ensure_linked s)
  unfolding apply_record take_out ensure_linked is_unknown is_deleted
  apply_remove id s h = rw h refl

  pub added-Follows :
      (recs : List WalRecord) (c : Corpus) (disk : Disk) (calls : Calls) (d : DocInput) (id : ℕ)
      → Follows ing s0 recs c disk
      → find_by_uri d.uri c.contents ≡ none
      → (add_document_locked ing calls d c disk).0 ≡ Answer.returned (Result.value id)
      → Fits (add_document_locked ing calls d c disk).1.contents
      → Follows ing s0
          (recs ++ add_record d ∷ [])
          (add_document_locked ing calls d c disk).1
          (add_document_locked ing calls d c disk).2
  added-Follows recs c disk calls d id f h e fits =
      let (ok, eq) = add_document_locked_value ing calls d c disk id e in
      let s = insert ing d c.contents in
      let room : Fits s = subst (λ (r : Effect ℕ). Fits r.1.contents) eq fits in
      rw eq (
        acked ing s0 recs c disk calls (add_record d) s f ok
          (insert-IsValid ing d c.contents room f.contents_valid)
          (insert-UniqueUris ing d c.contents f.contents_valid room f.unique h)
          (ap settled (apply_add d c.contents h)))

  pub removed-Follows :
      (recs : List WalRecord) (c : Corpus) (disk : Disk) (calls : Calls) (id : ℕ)
      → Follows ing s0 recs c disk
      → is_unknown id c.contents ≡ false
      → (write_log calls (remove_record id) (relinked c) disk).0 ≡ Reply.ok
      → Follows ing s0
          (recs ++ remove_record id ∷ [])
          (remove_document_locked calls id c disk).1
          (remove_document_locked calls id c disk).2
  removed-Follows recs c disk calls id f h ok =
      rw (remove_document_locked_ok calls id c disk h ok) (
        acked ing s0 recs (relinked c) disk calls (remove_record id)
          (tombstone id (ensure_linked c.contents)) (relinked-Follows recs c disk f) ok
          (tombstone-IsValid id (ensure_linked c.contents) (linked_unknown id c.contents h)
            (linked-IsValid c.contents f.contents_valid))
          (rw (tombstone-live id c.contents) (without_id-UniqueUris id (live c.contents) f.unique))
          (ap settled (apply_remove id c.contents h)))

  pub upsert_replaces :
      (c : Corpus) (disk : Disk) (removal addition : Calls) (d : DocInput) (i : ℕ)
      → find_by_uri d.uri c.contents ≡ some i
      → is_unknown i c.contents ≡ false
      → (write_log removal (remove_record i) (relinked c) disk).0 ≡ Reply.ok
      → let r = remove_document_locked removal i c disk in
        (upsert_document ing removal addition d c disk ≡ add_document_locked ing addition d r.1 r.2)
        × (r.1.contents ≡ tombstone i (ensure_linked c.contents))
  unfolding upsert_document
  upsert_replaces c disk removal addition d i h known ok =
      let eq = remove_document_locked_ok removal i c disk known ok in rw (h, eq) (refl, refl)

  pub upsert_adds :
      (c : Corpus) (disk : Disk) (removal addition : Calls) (d : DocInput)
      → find_by_uri d.uri c.contents ≡ none
      → upsert_document ing removal addition d c disk ≡ add_document_locked ing addition d c disk
  unfolding upsert_document
  upsert_adds c disk removal addition d h = rw h refl

  pub replaced-Follows :
      (recs : List WalRecord) (c : Corpus) (disk : Disk) (removal addition : Calls) (d : DocInput)
      (i id : ℕ)
      → Follows ing s0 recs c disk
      → find_by_uri d.uri c.contents ≡ some i
      → (write_log removal (remove_record i) (relinked c) disk).0 ≡ Reply.ok
      → (upsert_document ing removal addition d c disk).0 ≡ Answer.returned (Result.value id)
      → Fits (upsert_document ing removal addition d c disk).1.contents
      → Follows ing s0
          ((recs ++ remove_record i ∷ []) ++ add_record d ∷ [])
          (upsert_document ing removal addition d c disk).1
          (upsert_document ing removal addition d c disk).2
  replaced-Follows recs c disk removal addition d i id f h ok e fits =
      let known = find_by_uri-known d.uri c.contents i f.contents_valid h in
      let r = remove_document_locked removal i c disk in
      let (eq, contents) = upsert_replaces c disk removal addition d i h known ok in
      let gone : find_by_uri d.uri r.1.contents ≡ none =
        ap (find_by_uri d.uri) contents
        ∙ tombstone-find_by_uri d.uri i c.contents f.contents_valid f.unique h in
      rw eq (
        added-Follows (recs ++ remove_record i ∷ []) r.1 r.2 addition d id
          (removed-Follows recs c disk removal i f known ok) gone
          (ap (λ (x : Effect ℕ). x.0) (sym eq) ∙ e)
          (subst (λ (x : Effect ℕ). Fits x.1.contents) eq fits))
