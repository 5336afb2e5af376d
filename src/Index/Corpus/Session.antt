-- ===== src/Index/Corpus/Session.antt =====
-- A session: calls on an open corpus whose records the log takes. What it leaves can be read back.
pub mod Single
pub mod Recovery
use rag_cpp.Common.{
  ℕ, ◌≡◌, refl, ◌∙◌, sym, ap, Bool, true, false, Option, none, some, List, [], ◌∷◌, ◌++◌, length,
  append-nil, append_assoc, if◌then◌else◌, Bool-cases, inl, inr,
}
use rag_cpp.Core.{Result}
use rag_cpp.Store.Wal.{WalRecord, frame_of}
use rag_cpp.Store.Wal.Replay.{frames}
use rag_cpp.Store.Wal.Crash.{frames-append}
use rag_cpp.Store.Wal.Acks.{append-Committed}
use rag_cpp.Store.Wal.Log.{Wal, Disk, Calls, Reply, is_open, append}
use rag_cpp.Index.Corpus.{Ingest, DocInput, Contents, find_by_uri, is_unknown, build}
use rag_cpp.Index.Corpus.Logged.{
  Corpus, Answer, logs, write_log, add_record, remove_record, add_document_locked,
  remove_document_locked, upsert_document,
}
use rag_cpp.Index.Corpus.Valid.{IsValid}
use rag_cpp.Index.Corpus.Live.{live, UniqueUris}
use rag_cpp.Index.Corpus.Upsert.{relinked}
use rag_cpp.Index.Corpus.Apply.{apply_record, apply_all, apply_all-append}
use rag_cpp.Index.Corpus.Settled.{settled, apply_record-settled}

-- The calls of a session, with the records that the log holds after_log them: additions of a uri that
-- no live document has, upserts, removals, and rebuilds.
pub data Session (ing : Ingest) (c0 : Corpus) (d0 : Disk)
    : List WalRecord → Corpus → Disk → Type 0 where
  begun : Session ing c0 d0 [] c0 d0
  added :
      {recs : List WalRecord} {c : Corpus} {disk : Disk}
      → Session ing c0 d0 recs c disk
      → (calls : Calls) (d : DocInput) (id : ℕ) → find_by_uri d.uri c.contents ≡ none
      → (add_document_locked ing calls d c disk).0 ≡ Answer.returned (Result.value id)
      → Session ing c0 d0
          (recs ++ add_record d ∷ [])
          (add_document_locked ing calls d c disk).1
          (add_document_locked ing calls d c disk).2
  upserted :
      {recs : List WalRecord} {c : Corpus} {disk : Disk}
      → Session ing c0 d0 recs c disk
      → (removal addition : Calls) (d : DocInput) (id : ℕ) → find_by_uri d.uri c.contents ≡ none
      → (upsert_document ing removal addition d c disk).0 ≡ Answer.returned (Result.value id)
      → Session ing c0 d0
          (recs ++ add_record d ∷ [])
          (upsert_document ing removal addition d c disk).1
          (upsert_document ing removal addition d c disk).2
  replaced :
      {recs : List WalRecord} {c : Corpus} {disk : Disk}
      → Session ing c0 d0 recs c disk
      → (removal addition : Calls) (d : DocInput) (old id : ℕ)
      → find_by_uri d.uri c.contents ≡ some old
      → (write_log removal (remove_record old) (relinked c) disk).0 ≡ Reply.ok
      → (upsert_document ing removal addition d c disk).0 ≡ Answer.returned (Result.value id)
      → Session ing c0 d0
          ((recs ++ remove_record old ∷ []) ++ add_record d ∷ [])
          (upsert_document ing removal addition d c disk).1
          (upsert_document ing removal addition d c disk).2
  removed :
      {recs : List WalRecord} {c : Corpus} {disk : Disk}
      → Session ing c0 d0 recs c disk
      → (calls : Calls) (id : ℕ) → is_unknown id c.contents ≡ false
      → (remove_document_locked calls id c disk).0 ≡ Answer.returned (Result.value tt)
      → Session ing c0 d0
          (recs ++ remove_record id ∷ [])
          (remove_document_locked calls id c disk).1
          (remove_document_locked calls id c disk).2
  refused :
      {recs : List WalRecord} {c : Corpus} {disk : Disk}
      → Session ing c0 d0 recs c disk
      → (calls : Calls) (id : ℕ) → is_unknown id c.contents ≡ true
      → Session ing c0 d0 recs
          (remove_document_locked calls id c disk).1
          (remove_document_locked calls id c disk).2
  rebuilt :
      {recs : List WalRecord} {c : Corpus} {disk : Disk}
      → Session ing c0 d0 recs c disk
      → Session ing c0 d0 recs (record c { contents = build c.contents }) disk

-- What holds all along: the log is in use and has exactly these records, and they give the contents.
pub record Follows (ing : Ingest) (s0 : Contents) (recs : List WalRecord) (c : Corpus) (disk : Disk)
    : Type 0 where
  pub in_use : logs c ≡ true
  pub content_eq : disk.content ≡ frames recs
  pub contents_valid : IsValid c.contents
  pub unique : UniqueUris (live c.contents)
  pub agrees : settled c.contents ≡ settled (apply_all ing recs s0)

same_logs :
    (c : Corpus) (w : Wal) (s : Contents) (n : ℕ)
    → w ≡ record (c.wal) { bytes = n }
    → logs c ≡ true
    → logs (record c { wal = w; contents = s }) ≡ true
unfolding logs is_open
same_logs c w s n e h = rw e h

apply_one :
    (ing : Ingest) (rec : WalRecord) (s : Contents)
    → apply_all ing (rec ∷ []) s ≡ apply_record ing rec s
unfolding apply_all
apply_one ing rec s = refl

-- One record more, taken by the log before the contents change as it says.
pub acked :
    (ing : Ingest) (s0 : Contents) (recs : List WalRecord) (c : Corpus) (disk : Disk)
    (calls : Calls) (rec : WalRecord) (s : Contents)
    → Follows ing s0 recs c disk
    → (write_log calls rec c disk).0 ≡ Reply.ok
    → IsValid s
    → UniqueUris (live s)
    → settled s ≡ settled (apply_record ing rec c.contents)
    → Follows ing s0
        (recs ++ rec ∷ [])
        (record c { wal = (write_log calls rec c disk).1; contents = s })
        (write_log calls rec c disk).2
acked ing s0 recs c disk calls rec s f ok v u e =
    let k = append-Committed calls c.wal disk rec (rw f.in_use at ok) in
    rw f.in_use (record {
      in_use = same_logs c (append calls rec c.wal disk).1 s _ k.wal_eq f.in_use;
      content_eq =
          k.content_eq
          ∙ ap (λ b. b ++ frame_of rec) f.content_eq
          ∙ ap (λ b. frames recs ++ b) (sym (append-nil (frame_of rec)))
          ∙ sym (frames-append recs (rec ∷ []));
      contents_valid = v;
      unique = u;
      agrees =
          e
          ∙ apply_record-settled ing rec c.contents (apply_all ing recs s0) f.agrees
          ∙ ap settled (
              sym (
                apply_all-append ing recs (rec ∷ []) s0
                ∙ apply_one ing rec (apply_all ing recs s0)));
    })
