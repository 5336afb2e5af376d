-- ===== src/Index/Corpus/Upsert.antt =====
-- The upsert of the corpus refines that of a list of documents: what `upsert_document` does to the
-- live documents.
use rag_cpp.Common.{ℕ, ◌^◌, ◌<◌, ◌≡◌, refl, ◌∙◌, sym, ap, false, Option, none, some, length}
use rag_cpp.Core.{Result}
use rag_cpp.Store.Wal.Log.{Calls, Disk, Wal, Reply}
use rag_cpp.Index.Corpus.{
  DocInput, Ingest, find_by_uri, document_of, insert, tombstone, is_unknown, ensure_linked,
}
use rag_cpp.Index.Corpus.Logged.{
  Corpus, Answer, Effect, after_log, discard, replace_document, write_log, add_now, remove_now,
  add_record, remove_record, add_document_locked, remove_document_locked, upsert_document,
}
use rag_cpp.Index.Corpus.Valid.{IsValid}
use rag_cpp.Index.Corpus.Live.{live, UniqueUris}
use rag_cpp.Index.Corpus.Replacing.{
  forget, put_contents, put_document, find_by_uri-known, put_contents-live, put_document-UniqueUris,
}

pub after_value :
    {A : Type 0} (c : Corpus) (log : Reply × Wal × Disk) (k : Corpus → Disk → Effect A) (a : A)
    → (after_log c log k).0 ≡ Answer.returned (Result.value a)
    → (log.0 ≡ Reply.ok) × (after_log c log k ≡ k (record c { wal = log.1 }) log.2)
after_value c (Reply.ok, w, d) k a h = (refl, refl)
after_value c (Reply.error e, w, d) k a h = cc h
after_value c (Reply.crashed, w, d) k a h = cc h

after_ok :
    {A : Type 0} (c : Corpus) (log : Reply × Wal × Disk) (k : Corpus → Disk → Effect A)
    → log.0 ≡ Reply.ok
    → after_log c log k ≡ k (record c { wal = log.1 }) log.2
after_ok c (Reply.ok, w, d) k h = refl
after_ok c (Reply.error e, w, d) k h = cc h
after_ok c (Reply.crashed, w, d) k h = cc h

abbrev pub relinked : Corpus → Corpus
relinked c = record c { contents = ensure_linked c.contents }

-- An addition that is acknowledged.
pub add_document_locked_value :
    (ing : Ingest) (calls : Calls) (d : DocInput) (c : Corpus) (disk : Disk) (id : ℕ)
    → (add_document_locked ing calls d c disk).0 ≡ Answer.returned (Result.value id)
    → let log = write_log calls (add_record d) c disk in
      (log.0 ≡ Reply.ok)
      × (add_document_locked ing calls d c disk ≡ add_now ing d (record c { wal = log.1 }) log.2)
unfolding add_document_locked
add_document_locked_value ing calls d c disk id h =
    after_value c (write_log calls (add_record d) c disk) (add_now ing d) id h

-- A removal of a document that is there, with the log in order.
pub remove_document_locked_ok :
    (calls : Calls) (id : ℕ) (c : Corpus) (disk : Disk)
    → is_unknown id c.contents ≡ false
    → (write_log calls (remove_record id) (relinked c) disk).0 ≡ Reply.ok
    → let log = write_log calls (remove_record id) (relinked c) disk in
      remove_document_locked calls id c disk
      ≡ remove_now id (record (relinked c) { wal = log.1 }) log.2
unfolding remove_document_locked
remove_document_locked_ok calls id c disk e h =
    rw e (
      after_ok (relinked c) (write_log calls (remove_record id) (relinked c) disk) (remove_now id)
        h)

replace_document_value :
    (ing : Ingest) (removal addition : Calls) (d : DocInput) (o : Option ℕ) (c : Corpus)
    (disk : Disk) (id : ℕ)
    → ((i : ℕ)
        → o ≡ some i
        → (is_unknown i c.contents ≡ false)
          × ((write_log removal (remove_record i) (relinked c) disk).0 ≡ Reply.ok))
    → (replace_document ing removal addition d o c disk).0 ≡ Answer.returned (Result.value id)
    → (replace_document ing removal addition d o c disk).1.contents
      ≡ insert ing d (forget o c.contents)
replace_document_value ing removal addition d none c disk id h e =
    ap (λ (r : Effect ℕ). r.1.contents) (add_document_locked_value ing addition d c disk id e).1
replace_document_value ing removal addition d (some i) c disk id h e =
    let log = write_log removal (remove_record i) (relinked c) disk in
    let removed = remove_document_locked_ok removal i c disk (h i refl).0 (h i refl).1 in
    let kept = record (relinked c) {
      wal = log.1;
      contents = tombstone i (ensure_linked c.contents);
    } in
    ap (λ (r : Effect (Unit {0})). (discard r (add_document_locked ing addition d)).1.contents)
      removed
    ∙ ap (λ (r : Effect ℕ). r.1.contents)
        (add_document_locked_value ing addition d kept log.2 id (
          ap (λ (r : Effect (Unit {0})). (discard r (add_document_locked ing addition d)).0)
            (sym removed)
          ∙ e)).1

-- An upsert that returns an id, in a valid corpus of fewer than 2^32 documents whose live documents
-- have distinct uris, where the log took the record of the removal if there was one: the live documents are those of before
-- without the one of the same non-empty uri, and then the new document, whose id is the next one.
-- Their uris are distinct again.
pub upsert_document-refines :
    (ing : Ingest) (removal addition : Calls) (d : DocInput) (c : Corpus) (disk : Disk) (id : ℕ)
    → IsValid c.contents
    → UniqueUris (live c.contents)
    → length c.contents.docs < 2 ^ 32
    → ((i : ℕ)
        → find_by_uri d.uri c.contents ≡ some i
        → (write_log removal (remove_record i) (relinked c) disk).0 ≡ Reply.ok)
    → (upsert_document ing removal addition d c disk).0 ≡ Answer.returned (Result.value id)
    → (live (upsert_document ing removal addition d c disk).1.contents
        ≡ put_document (document_of (length c.contents.docs) d) (live c.contents))
      × UniqueUris (live (upsert_document ing removal addition d c disk).1.contents)
unfolding upsert_document put_contents
upsert_document-refines ing removal addition d c disk id v u room h e =
    let contents =
      replace_document_value ing removal addition d (find_by_uri d.uri c.contents) c disk id
        (λ i f. (find_by_uri-known d.uri c.contents i v f, h i f)) e in
    let view = put_contents-live ing d c.contents v u room in
    rw (contents, view)
      (refl, put_document-UniqueUris (document_of (length c.contents.docs) d) (live c.contents) u)
