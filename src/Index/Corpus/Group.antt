-- ===== src/Index/Corpus/Group.antt =====
-- Group ingestion, `add_documents` of src/index/corpus.cpp: one write of the log, and then each document in
-- its turn.
use rag_cpp.Common.{
  ℕ, ◌%◌, ◌^◌, ◌≡◌, ◌≢◌, refl, ◌∙◌, true, false, List, [], ◌∷◌, ◌++◌, length, map, append-nil,
  append_assoc, ◌⊎◌, inl, inr,
}
use rag_cpp.Core.{Result}
use rag_cpp.Store.Wal.Log.{Wal, Disk, Calls, Reply}
use rag_cpp.Index.Corpus.{Ingest, DocInput, Contents, insert}
use rag_cpp.Index.Corpus.Logged.{
  Corpus, Answer, logs, after_log, write_batch, add_record, add_now, add_document_locked, add_each,
  add_all_now, add_documents,
}
use rag_cpp.Index.Corpus.Apply.{replaying_quiet, unchanged}

-- Each document in its turn, and the ids that they get.
unfoldable pub insert_all : Ingest → List DocInput → Contents → Contents
insert_all ing [] s = s
insert_all ing (d ∷ ds) s = insert_all ing ds (insert ing d s)

unfoldable pub new_ids : Ingest → List DocInput → Contents → List ℕ
new_ids ing [] s = []
new_ids ing (d ∷ ds) s = length s.docs % 2 ^ 32 ∷ new_ids ing ds (insert ing d s)

add-quiet :
    (ing : Ingest) (calls : Calls) (d : DocInput) (c : Corpus) (disk : Disk)
    → logs c ≡ false
    → add_document_locked ing calls d c disk ≡ add_now ing d c disk
unfolding add_document_locked
add-quiet ing calls d c disk quiet = rw quiet refl

add_each-quiet :
    (ing : Ingest) (calls : Calls) (ds : List DocInput) (ids : List ℕ) (c : Corpus) (disk : Disk)
    → logs c ≡ false
    → add_each ing calls ds ids c disk ≡ (
      Answer.returned (Result.value (ids ++ new_ids ing ds c.contents)),
      record c { contents = insert_all ing ds c.contents },
      disk,
    )
unfolding add_each insert_all new_ids
add_each-quiet ing calls [] ids c disk quiet = rw append-nil refl
add_each-quiet ing calls (d ∷ ds) ids c disk quiet =
    let id = length c.contents.docs % 2 ^ 32 in
    let next = record c { contents = insert ing d c.contents } in
    rw (add-quiet ing calls d c disk quiet) (
      add_each-quiet ing calls ds (ids ++ id ∷ []) next disk
        (unchanged (insert ing d c.contents) c quiet)
      ∙ rw append_assoc refl)

add_all_now_lem :
    (ing : Ingest) (calls : Calls) (ds : List DocInput) (c : Corpus) (disk : Disk)
    → add_all_now ing calls ds c disk ≡ (
      Answer.returned (Result.value (new_ids ing ds c.contents)),
      record c { contents = insert_all ing ds c.contents },
      disk,
    )
add_all_now_lem ing calls ds c disk =
    rw (add_each-quiet ing calls ds [] (record c { replaying = true }) disk (replaying_quiet c))
      refl

after_log_lem :
    (ing : Ingest) (calls : Calls) (ds : List DocInput) (c : Corpus) (log : Reply × Wal × Disk)
    → ((log.0 ≡ Reply.ok)
        × (after_log c log (add_all_now ing calls ds) ≡ (
          Answer.returned (Result.value (new_ids ing ds c.contents)),
          record c { wal = log.1; contents = insert_all ing ds c.contents },
          log.2,
        )))
      ⊎ ((log.0 ≢ Reply.ok)
          × ((after_log c log (add_all_now ing calls ds)).1.contents ≡ c.contents))
after_log_lem ing calls ds c (Reply.ok, w, d) =
    inl (refl, add_all_now_lem ing calls ds (record c { wal = w }) d)
after_log_lem ing calls ds c (Reply.error e, w, d) = inr (λ k. cc k, refl)
after_log_lem ing calls ds c (Reply.crashed, w, d) = inr (λ k. cc k, refl)

-- A group ingestion either finds its records taken by the log, and then has the contents and the ids of
-- insertions one after the other, with the flag for the replay as before; or the log fails, and
-- the contents are as before.
pub add_documents-insert_all :
    (ing : Ingest) (calls : Calls) (ds : List DocInput) (c : Corpus) (disk : Disk)
    → let log = write_batch calls (map add_record ds) c disk in
      ((log.0 ≡ Reply.ok)
        × (add_documents ing calls ds c disk ≡ (
          Answer.returned (Result.value (new_ids ing ds c.contents)),
          record c { wal = log.1; contents = insert_all ing ds c.contents },
          log.2,
        )))
      ⊎ ((log.0 ≢ Reply.ok) × ((add_documents ing calls ds c disk).1.contents ≡ c.contents))
unfolding add_documents
add_documents-insert_all ing calls ds c disk =
    after_log_lem ing calls ds c (write_batch calls (map add_record ds) c disk)
