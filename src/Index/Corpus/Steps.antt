-- ===== src/Index/Corpus/Steps.antt =====
-- Every public operation that changes the corpus is made of steps, on each of its paths, and keeps it valid.
use rag_cpp.Common.{
  ℕ, ◌≡◌, true, false, Option, none, some, List, [], ◌∷◌, ◌++◌, map, Bool-cases, inl, inr,
}
use rag_cpp.Core.{Result}
use rag_cpp.Store.Wal.{WalRecord, WalOp, add_document, remove_document, Outcome, done, stuck}
use rag_cpp.Store.Wal.Log.{SyncMode, Wal, Disk, Calls, Reply, open_log, replay_file}
use rag_cpp.Index.Corpus.{
  Ingest, DocInput, Contents, find_by_uri, ensure_linked, is_unknown, is_deleted, build,
}
use rag_cpp.Index.Corpus.Logged.{
  Corpus, Answer, Effect, after_log, discard, then_value, restored, replace_document, reply_run,
  open_outcome, add_record, remove_record, write_log, write_batch, add_now, remove_now, add_all_now,
  input_of, go_on, build_now, open_now, add_document_locked, remove_document_locked,
  upsert_document, add_each, add_documents, replay_op, replay_record, replay_each, replay_all,
  open_wal,
}
use rag_cpp.Index.Corpus.Valid.{
  inserted, removed, linked, built, Reach, here, then_step, IsValid, Fits, Reach-IsValid,
}

-- A call of the public interface, with what the operating system answers in it.
pub data Op : Type 0 where
  call_add call_upsert : Calls → Calls → DocInput → Op
  call_remove : Calls → ℕ → Op
  call_add_all : Calls → List DocInput → Op
  call_build : Op
  call_open_wal : Calls → Option ℕ → List ℕ → SyncMode → Op

abbrev pub left : {A : Type 0} → Effect A → Corpus × Disk
left (a, c, disk) = (c, disk)

unfoldable pub run_op : Ingest → Op → Corpus → Disk → Corpus × Disk
run_op ing (call_add calls unused d) c disk = left (add_document_locked ing calls d c disk)
run_op ing (call_upsert removal addition d) c disk =
    left (upsert_document ing removal addition d c disk)
run_op ing (call_remove calls id) c disk = left (remove_document_locked calls id c disk)
run_op ing (call_add_all calls ds) c disk = left (add_documents ing calls ds c disk)
run_op ing call_build c disk = (record c { contents = build c.contents }, disk)
run_op ing (call_open_wal calls fd path mode) c disk = left (open_wal ing calls fd path mode c disk)

-- Combinators that leave the contents as they are keep what is said of them.
module _ (P : Contents → Type 0) where
  after-keeps :
      {A : Type 0} (c : Corpus) (log : Reply × Wal × Disk) (k : Corpus → Disk → Effect A)
      → P c.contents
      → ((w : Wal) (d : Disk) → P (k (record c { wal = w }) d).1.contents)
      → P (after_log c log k).1.contents
  after-keeps c (Reply.ok, w, d) k p h = h w d
  after-keeps c (Reply.error e, w, d) k p h = p
  after-keeps c (Reply.crashed, w, d) k p h = p

  discard-keeps :
      {A B : Type 0} (r : Effect A) (k : Corpus → Disk → Effect B)
      → P r.1.contents
      → ((c : Corpus) (d : Disk) → P c.contents → P (k c d).1.contents)
      → P (discard r k).1.contents
  discard-keeps (Answer.returned a, c, d) k p h = h c d p
  discard-keeps (Answer.stopped, c, d) k p h = p

  then_value-keeps :
      {A B : Type 0} (r : Effect A) (k : A → Corpus → Disk → Effect B)
      → P r.1.contents
      → ((a : A) (c : Corpus) (d : Disk) → P c.contents → P (k a c d).1.contents)
      → P (then_value r k).1.contents
  then_value-keeps (Answer.returned (Result.value a), c, d) k p h = h a c d p
  then_value-keeps (Answer.returned (Result.fail e), c, d) k p h = p
  then_value-keeps (Answer.stopped, c, d) k p h = p

  reply_run-keeps :
      (r : Reply × Wal) (c : Corpus) (d : Disk) → P c.contents → P (reply_run r c d).1.contents
  reply_run-keeps (Reply.ok, w) c d p = p
  reply_run-keeps (Reply.error e, w) c d p = p
  reply_run-keeps (Reply.crashed, w) c d p = p

linked_unknown :
    (id : ℕ) (c : Corpus)
    → is_unknown id c.contents ≡ false
    → is_unknown id (ensure_linked c.contents) ≡ false
unfolding is_unknown is_deleted ensure_linked
linked_unknown id c e = e

module _ (ing : Ingest) (s : Contents) where
  abbrev Reached : Contents → Type 0
  Reached t = Reach ing s t

  add_document_locked-Reach :
      (calls : Calls) (d : DocInput) (c : Corpus) (disk : Disk)
      → Reached c.contents
      → Reached (add_document_locked ing calls d c disk).1.contents
  unfolding add_document_locked
  add_document_locked-Reach calls d c disk r =
      after-keeps Reached c (write_log calls (add_record d) c disk) (add_now ing d) r
        (λ w d'. then_step r (inserted d c.contents))

  remove_document_locked-Reach :
      (calls : Calls) (id : ℕ) (c : Corpus) (disk : Disk)
      → Reached c.contents
      → Reached (remove_document_locked calls id c disk).1.contents
  unfolding remove_document_locked
  remove_document_locked-Reach calls id c disk r =
      let r' : Reached (ensure_linked c.contents) = then_step r (linked c.contents) in
      elim (Bool-cases (is_unknown id c.contents)) [
        | inl e ↦ rw e r'
        | inr e ↦
            let lc = record c { contents = ensure_linked c.contents } in
            rw e (
              after-keeps Reached lc (write_log calls (remove_record id) lc disk) (remove_now id) r'
                (λ w d'.
                  then_step r' (removed id (ensure_linked c.contents) (linked_unknown id c e))))
      ]

  replace_document-Reach :
      (removal addition : Calls) (d : DocInput) (existing : Option ℕ) (c : Corpus) (disk : Disk)
      → Reached c.contents
      → Reached (replace_document ing removal addition d existing c disk).1.contents
  replace_document-Reach removal addition d none c disk r =
      add_document_locked-Reach addition d c disk r
  replace_document-Reach removal addition d (some id) c disk r =
      discard-keeps Reached (remove_document_locked removal id c disk)
        (add_document_locked ing addition d) (remove_document_locked-Reach removal id c disk r)
        (add_document_locked-Reach addition d)

  upsert_document-Reach :
      (removal addition : Calls) (d : DocInput) (c : Corpus) (disk : Disk)
      → Reached c.contents
      → Reached (upsert_document ing removal addition d c disk).1.contents
  unfolding upsert_document
  upsert_document-Reach removal addition d c disk r =
      replace_document-Reach removal addition d (find_by_uri d.uri c.contents) c disk r

  add_each-Reach :
      (calls : Calls) (ds : List DocInput) (ids : List ℕ) (c : Corpus) (disk : Disk)
      → Reached c.contents
      → Reached (add_each ing calls ds ids c disk).1.contents
  unfolding add_each
  add_each-Reach calls [] ids c disk r = r
  add_each-Reach calls (d ∷ ds) ids c disk r =
      then_value-keeps Reached (add_document_locked ing calls d c disk)
        (λ id. add_each ing calls ds (ids ++ id ∷ [])) (add_document_locked-Reach calls d c disk r)
        (λ id. add_each-Reach calls ds (ids ++ id ∷ []))

  add_documents-Reach :
      (calls : Calls) (ds : List DocInput) (c : Corpus) (disk : Disk)
      → Reached c.contents
      → Reached (add_documents ing calls ds c disk).1.contents
  unfolding add_documents
  add_documents-Reach calls ds c disk r =
      after-keeps Reached c (write_batch calls (map add_record ds) c disk)
        (add_all_now ing calls ds) r
        (λ w d'. add_each-Reach calls ds [] (record c { wal = w; replaying = true }) d' r)

  replay_op-Reach :
      (calls : Calls) (op : WalOp) (rec : WalRecord) (c : Corpus) (disk : Disk)
      → Reached c.contents
      → Reached (replay_op ing calls op rec c disk).1.contents
  replay_op-Reach calls add_document rec c disk r =
      then_value-keeps Reached (upsert_document ing calls calls (input_of rec) c disk) go_on
        (upsert_document-Reach calls calls (input_of rec) c disk r) (λ id c' d' p. p)
  replay_op-Reach calls remove_document rec c disk r =
      discard-keeps Reached (remove_document_locked calls rec.doc_id c disk) (go_on tt)
        (remove_document_locked-Reach calls rec.doc_id c disk r) (λ c' d' p. p)

  replay_record-Reach :
      (calls : Calls) (rec : WalRecord) (c : Corpus) (disk : Disk)
      → Reached c.contents
      → Reached (replay_record ing calls rec c disk).1.contents
  unfolding replay_record
  replay_record-Reach calls rec c disk r = replay_op-Reach calls rec.op rec c disk r

  replay_each-Reach :
      (calls : Calls) (recs : List WalRecord) (c : Corpus) (disk : Disk)
      → Reached c.contents
      → Reached (replay_each ing calls recs c disk).1.contents
  unfolding replay_each
  replay_each-Reach calls [] c disk r = r
  replay_each-Reach calls (rec ∷ recs) c disk r =
      then_value-keeps Reached (replay_record ing calls rec c disk)
        (λ u. replay_each ing calls recs) (replay_record-Reach calls rec c disk r)
        (λ u. replay_each-Reach calls recs)

  replay_all-Reach :
      (calls : Calls) (recs : List WalRecord) (c : Corpus) (disk : Disk)
      → Reached c.contents
      → Reached (replay_all ing calls recs c disk).1.contents
  unfolding replay_all
  replay_all-Reach calls [] c disk r = r
  replay_all-Reach calls (rec ∷ recs) c disk r =
      then_value-keeps Reached
        (restored false (replay_each ing calls (rec ∷ recs) (record c { replaying = true }) disk))
        build_now (replay_each-Reach calls (rec ∷ recs) (record c { replaying = true }) disk r)
        (λ u c' d' p. then_step p (built c'.contents))

  open_outcome-Reach :
      (calls : Calls) (fd : Option ℕ) (path : List ℕ) (mode : SyncMode) (o : Outcome) (c : Corpus)
      (disk : Disk)
      → Reached c.contents
      → Reached (open_outcome ing calls fd path mode o c disk).1.contents
  open_outcome-Reach calls fd path mode (done (Result.fail e)) c disk r = r
  open_outcome-Reach calls fd path mode stuck c disk r = r
  open_outcome-Reach calls fd path mode (done (Result.value recs)) c disk r =
      then_value-keeps Reached (replay_all ing calls recs c disk) (open_now fd path mode)
        (replay_all-Reach calls recs c disk r)
        (λ u c' d' p. reply_run-keeps Reached (open_log fd path mode c'.wal d') c' d' p)

  -- Whatever is called, and whatever the operating system answers: the contents are reached by steps.
  pub run_op-Reach :
      (op : Op) (c : Corpus) (disk : Disk)
      → Reached c.contents
      → Reached (run_op ing op c disk).0.contents
  unfolding run_op open_wal
  run_op-Reach (call_add calls unused d) c disk r = add_document_locked-Reach calls d c disk r
  run_op-Reach (call_upsert removal addition d) c disk r =
      upsert_document-Reach removal addition d c disk r
  run_op-Reach (call_remove calls id) c disk r = remove_document_locked-Reach calls id c disk r
  run_op-Reach (call_add_all calls ds) c disk r = add_documents-Reach calls ds c disk r
  run_op-Reach call_build c disk r = then_step r (built c.contents)
  run_op-Reach (call_open_wal calls fd path mode) c disk r =
      open_outcome-Reach calls fd path mode (replay_file (some disk.content)) c disk r

-- Every public operation that changes the contents (an addition, a group of them, an upsert, a
-- removal, a rebuild, the replay of the log) keeps a corpus valid, on every path and whatever the
-- operating system answers, if the ids of the result fit 32 bits: the documents and the chunks are numbered by their
-- places, each chunk belongs to a document, and the deleted ids are distinct ids of documents.
pub run_op-IsValid :
    (ing : Ingest) (op : Op) (c : Corpus) (disk : Disk)
    → Fits (run_op ing op c disk).0.contents
    → IsValid c.contents
    → IsValid (run_op ing op c disk).0.contents
run_op-IsValid ing op c disk f v =
    Reach-IsValid ing c.contents _ (run_op-Reach ing c.contents op c disk here) f v
