-- ===== src/Index/Corpus/Logged.antt =====
-- The operations of src/index/corpus.cpp that change a corpus, with the write-ahead log around them.
-- What the operating system answers to a call of the log is an argument, as in `Store.Wal.Log`.
use rag_cpp.Common.{
  ℕ, ◌%◌, ◌^◌, Bool, true, false, not, ◌&&◌, Option, none, some, List, [], ◌∷◌, ◌++◌, length, map,
  if◌then◌else◌,
}
use rag_cpp.Core.{Errc, Result, is_empty}
use rag_cpp.Store.Wal.{WalRecord, WalOp, add_document, remove_document, Outcome, done}
use rag_cpp.Store.Wal.Log.{
  SyncMode, Wal, Disk, Calls, Reply, is_open, append, append_batch, open_log, replay_file,
}
use rag_cpp.Index.Corpus.{
  Ingest, DocInput, Contents, insert, find_by_uri, ensure_linked, is_unknown, tombstone, build,
}

pub record Corpus : Type 0 where
  pub contents : Contents
  pub wal : Wal
  pub replaying : Bool

-- A call returns a result, or the program stopped inside it.
pub data Answer (A : Type 0) : Type 0 where
  returned : Result A → Answer A
  stopped : Answer A

abbrev pub Effect : Type 0 → Type 0
Effect A = Answer A × Corpus × Disk

abbrev pub add_record : DocInput → WalRecord
add_record d = record {
  op = add_document;
  uri = d.uri;
  title = d.title;
  text = d.text;
  meta = d.meta;
  doc_id = 0;
}

abbrev pub remove_record : ℕ → WalRecord
remove_record id = record {
  op = remove_document;
  uri = [];
  title = [];
  text = [];
  meta = [];
  doc_id = id;
}

-- `wal_.is_open() && !replaying_`
unfoldable pub logs : Corpus → Bool
logs c = is_open c.wal && not c.replaying

-- What follows a call of the log: the log's error is the caller's.
abbrev pub after_log :
    {A : Type 0} → Corpus → Reply × Wal × Disk → (Corpus → Disk → Effect A) → Effect A
after_log c (Reply.ok, w, d) k = k (record c { wal = w }) d
after_log c (Reply.error e, w, d) k = (Answer.returned (Result.fail e), record c { wal = w }, d)
after_log c (Reply.crashed, w, d) k = (Answer.stopped, record c { wal = w }, d)

-- `if (wal_.is_open() && !replaying_) … wal_.append(rec)`
abbrev pub write_log : Calls → WalRecord → Corpus → Disk → Reply × Wal × Disk
write_log calls rec c disk = if logs c then append calls rec c.wal disk else (Reply.ok, c.wal, disk)

abbrev pub write_batch : Calls → List WalRecord → Corpus → Disk → Reply × Wal × Disk
write_batch calls recs c disk =
    if logs c then append_batch calls recs c.wal disk else (Reply.ok, c.wal, disk)

-- What `add_document_locked` and `remove_document_locked` do behind the log.
abbrev pub add_now : Ingest → DocInput → Corpus → Disk → Effect ℕ
add_now ing d c disk = (
  Answer.returned (Result.value (length c.contents.docs % 2 ^ 32)),
  record c { contents = insert ing d c.contents },
  disk,
)

abbrev pub remove_now : ℕ → Corpus → Disk → Effect (Unit {0})
remove_now id c disk =
    (Answer.returned (Result.value tt), record c { contents = tombstone id c.contents }, disk)

unfoldable pub add_document_locked : Ingest → Calls → DocInput → Corpus → Disk → Effect ℕ
add_document_locked ing calls d c disk =
    after_log c (write_log calls (add_record d) c disk) (add_now ing d)

unfoldable pub remove_document_locked : Calls → ℕ → Corpus → Disk → Effect (Unit {0})
remove_document_locked calls id c disk =
    let linked = record c { contents = ensure_linked c.contents } in
    if is_unknown id c.contents
    then (Answer.returned (Result.fail Errc.not_found), linked, disk)
    else after_log linked (write_log calls (remove_record id) linked disk) (remove_now id)

-- What follows a removal whose result is discarded.
abbrev pub discard : {A B : Type 0} → Effect A → (Corpus → Disk → Effect B) → Effect B
discard (Answer.returned r, c, disk) k = k c disk
discard (Answer.stopped, c, disk) k = (Answer.stopped, c, disk)

-- `if (existing) (void)remove_document_locked(*existing);` and then the add
abbrev pub replace_document :
    Ingest → Calls → Calls → DocInput → Option ℕ → Corpus → Disk → Effect ℕ
replace_document ing removal addition d none c disk = add_document_locked ing addition d c disk
replace_document ing removal addition d (some id) c disk =
    discard (remove_document_locked removal id c disk) (add_document_locked ing addition d)

unfoldable pub upsert_document : Ingest → Calls → Calls → DocInput → Corpus → Disk → Effect ℕ
upsert_document ing removal addition d c disk =
    replace_document ing removal addition d (find_by_uri d.uri c.contents) c disk

-- The loop of `add_documents`: the ids so far.
abbrev pub then_value : {A B : Type 0} → Effect A → (A → Corpus → Disk → Effect B) → Effect B
then_value (Answer.returned (Result.value a), c, disk) k = k a c disk
then_value (Answer.returned (Result.fail e), c, disk) k = (Answer.returned (Result.fail e), c, disk)
then_value (Answer.stopped, c, disk) k = (Answer.stopped, c, disk)

unfoldable pub add_each : Ingest → Calls → List DocInput → List ℕ → Corpus → Disk → Effect (List ℕ)
add_each ing calls [] ids c disk = (Answer.returned (Result.value ids), c, disk)
add_each ing calls (d ∷ ds) ids c disk =
    then_value (add_document_locked ing calls d c disk)
      (λ id. add_each ing calls ds (ids ++ id ∷ []))

abbrev pub restored : {A : Type 0} → Bool → Effect A → Effect A
restored prev (a, c, disk) = (a, record c { replaying = prev }, disk)

-- The insertions are not logged once more; `~RestoreFlag` puts the flag back.
abbrev pub add_all_now : Ingest → Calls → List DocInput → Corpus → Disk → Effect (List ℕ)
add_all_now ing calls ds c disk =
    restored c.replaying (add_each ing calls ds [] (record c { replaying = true }) disk)

unfoldable pub add_documents : Ingest → Calls → List DocInput → Corpus → Disk → Effect (List ℕ)
add_documents ing calls ds c disk =
    after_log c (write_batch calls (map add_record ds) c disk) (add_all_now ing calls ds)

abbrev pub input_of : WalRecord → DocInput
input_of rec = record { uri = rec.uri; text = rec.text; meta = rec.meta; title = rec.title }

-- The rest of a loop or a handler goes on whatever was returned.
abbrev pub go_on : {A : Type 0} → A → Corpus → Disk → Effect (Unit {0})
go_on a c disk = (Answer.returned (Result.value tt), c, disk)

-- One record of the log, read back: the branches on `rec.op`.
abbrev pub replay_op : Ingest → Calls → WalOp → WalRecord → Corpus → Disk → Effect (Unit {0})
replay_op ing calls add_document rec c disk =
    then_value (upsert_document ing calls calls (input_of rec) c disk) go_on
replay_op ing calls remove_document rec c disk =
    discard (remove_document_locked calls rec.doc_id c disk) (go_on tt)

unfoldable pub replay_record : Ingest → Calls → WalRecord → Corpus → Disk → Effect (Unit {0})
replay_record ing calls rec c disk = replay_op ing calls rec.op rec c disk

unfoldable pub replay_each : Ingest → Calls → List WalRecord → Corpus → Disk → Effect (Unit {0})
replay_each ing calls [] c disk = (Answer.returned (Result.value tt), c, disk)
replay_each ing calls (rec ∷ recs) c disk =
    then_value (replay_record ing calls rec c disk) (λ u. replay_each ing calls recs)

-- `if (auto b = build_locked(); !b) return b;`
abbrev pub build_now : Unit {0} → Corpus → Disk → Effect (Unit {0})
build_now u c disk = go_on u (record c { contents = build c.contents }) disk

abbrev pub reply_run : Reply × Wal → Corpus → Disk → Effect (Unit {0})
reply_run (Reply.ok, w) c disk = (Answer.returned (Result.value tt), record c { wal = w }, disk)
reply_run (Reply.error e, w) c disk = (Answer.returned (Result.fail e), record c { wal = w }, disk)
reply_run (Reply.crashed, w) c disk = (Answer.stopped, record c { wal = w }, disk)

-- The records of the log are applied, if there are any, and the corpus is built.
unfoldable pub replay_all : Ingest → Calls → List WalRecord → Corpus → Disk → Effect (Unit {0})
replay_all ing calls recs c disk =
    if is_empty recs
    then go_on tt c disk
    else then_value
        (restored false (replay_each ing calls recs (record c { replaying = true }) disk)) build_now

abbrev pub open_now : Option ℕ → List ℕ → SyncMode → Unit {0} → Corpus → Disk → Effect (Unit {0})
open_now fd path mode u c disk = reply_run (open_log fd path mode c.wal disk) c disk

-- `fd` is the answer of `open`; the file is there with the bytes of the disk.
abbrev pub open_outcome :
    Ingest → Calls → Option ℕ → List ℕ → SyncMode → Outcome → Corpus → Disk → Effect (Unit {0})
open_outcome ing calls fd path mode (done (Result.fail e)) c disk =
    (Answer.returned (Result.fail e), c, disk)
open_outcome ing calls fd path mode (done (Result.value recs)) c disk =
    then_value (replay_all ing calls recs c disk)
      (λ u c' disk'. reply_run (open_log fd path mode c'.wal disk') c' disk')
open_outcome ing calls fd path mode Outcome.stuck c disk = (Answer.stopped, c, disk)

unfoldable pub open_wal :
    Ingest → Calls → Option ℕ → List ℕ → SyncMode → Corpus → Disk → Effect (Unit {0})
open_wal ing calls fd path mode c disk =
    open_outcome ing calls fd path mode (replay_file (some disk.content)) c disk
