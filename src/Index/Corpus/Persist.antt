-- ===== src/Index/Corpus/Persist.antt =====
-- `save`, `load` and `checkpoint` of src/index/corpus.cpp over the files: the snapshot is written by way
-- of a temporary file, and the log is emptied after that.
use rag_cpp.Common.{ℕ, ◌≡◌, refl, ◌∙◌, ap, Bool, List, ◌⊎◌, inl, inr, if◌then◌else◌}
use rag_cpp.Core.{Result, Errc}
use rag_cpp.Store.Container.RoundTrip
use rag_cpp.Store.Replace.{Files, Answers, Replaced, write_file, read_file}
use rag_cpp.Store.Replace.Atomic.{read_file-write_file}
use rag_cpp.Store.Wal.Log.{Disk, Calls, is_open, truncate}
use rag_cpp.Lexical.Bm25.{Bm25Index}
use rag_cpp.Index.Corpus.{Contents, ensure_linked}
use rag_cpp.Index.Corpus.Logged.{Corpus, Answer, Effect, after_log, go_on}
use rag_cpp.Index.Corpus.Snapshot.{snapshot_locked, then_load, load}
use rag_cpp.Index.Corpus.Snapshot.RoundTrip.{IsStorable, restarted, load-snapshot_locked}

-- `meta` is the text of the META section.
unfoldable pub save : List ℕ → Answers → Contents → Files → Replaced
save meta a s fs = write_file a (snapshot_locked meta s) fs

unfoldable pub load_file : Bm25Index → Files → Result Contents
load_file idx fs = then_load (read_file fs) (load idx)

abbrev pub empty_log : Bool → Calls → Corpus → Disk → Effect (Unit {0})
empty_log truncated calls c disk =
    if is_open c.wal
    then after_log c (truncate truncated calls c.wal disk) (go_on tt)
    else go_on tt c disk

abbrev pub on_saved : Result (Unit {0}) → Bool → Calls → Corpus → Disk → Effect (Unit {0})
on_saved (Result.fail e) truncated calls c disk = (Answer.returned (Result.fail e), c, disk)
on_saved (Result.value u) truncated calls c disk = empty_log truncated calls c disk

-- The files are those of the snapshot, the disk that of the log; `truncated` is the answer of `ftruncate`.
unfoldable pub checkpoint :
    List ℕ → Answers → Bool → Calls → Corpus → Files → Disk → Effect (Unit {0}) × Files
checkpoint meta a truncated calls c fs disk =
    let saved = save meta a c.contents fs in
    let linked = record c { contents = ensure_linked c.contents } in
    (on_saved saved.reply truncated calls linked disk, saved.final)

on_saved_failed :
    (r : Result (Unit {0})) (truncated : Bool) (calls : Calls) (c : Corpus) (disk : Disk)
    → r ≡ Result.fail Errc.io_error
    → on_saved r truncated calls c disk ≡ (Answer.returned (Result.fail Errc.io_error), c, disk)
on_saved_failed r truncated calls c disk e = rw e refl

-- Whatever the system answers in a checkpoint of contents that fit the format: the file of the snapshot
-- loads as these contents have it after a restart, which are the documents, the chunks and the
-- index of before, with the tokenizer's options at their defaults, the stems left out, the counter
-- of changes and the marks for lazy work as `load` sets them, and the deleted ids sorted; or the
-- checkpoint reports an i/o error, the file loads as before, and the log is as before.
pub checkpoint_lem :
    (meta : List ℕ) (a : Answers) (truncated : Bool) (calls : Calls) (c : Corpus) (fs : Files)
    (disk : Disk) (idx : Bm25Index)
    → IsStorable c.contents
    → RoundTrip.IsStorable (snapshot_locked meta c.contents)
    → let after = checkpoint meta a truncated calls c fs disk in
      (load_file idx after.1 ≡ Result.value (restarted c.contents))
      ⊎ ((after.0.0 ≡ Answer.returned (Result.fail Errc.io_error))
          × (load_file idx after.1 ≡ load_file idx fs)
          × (after.0.2 ≡ disk))
unfolding checkpoint save load_file
checkpoint_lem meta a truncated calls c fs disk idx h k =
    let snapshot = snapshot_locked meta c.contents in
    let linked = record c { contents = ensure_linked c.contents } in
    elim (read_file-write_file a snapshot fs k) [
      | inl (done, read) ↦
          inl (ap (λ r. then_load r (load idx)) read ∙ load-snapshot_locked idx meta c.contents h)
      | inr (failed, same) ↦
          let answer =
            on_saved_failed (write_file a snapshot fs).reply truncated calls linked disk failed in
          inr (
            ap (λ (x : Effect (Unit {0})). x.0) answer,
            ap (λ r. then_load r (load idx)) same,
            ap (λ (x : Effect (Unit {0})). x.2) answer,
          )
    ]
