-- ===== src/Index/Corpus/Session/Recovery.antt =====
-- Reading the log of a session back brings the corpus to where the session left it.
use rag_cpp.Common.{
  ℕ, ◌≡◌, refl, ◌∙◌, sym, ap, subst, true, false, Option, List, [], ◌∷◌, length, length-append,
  take, take-all, All, arith, leb, ◌-◌,
}
use rag_cpp.Core.{Result}
use rag_cpp.Store.Wal.{WalRecord, frame_of}
use rag_cpp.Store.Wal.Frame
use rag_cpp.Store.Wal.Replay.{frames, complete}
use rag_cpp.Store.Wal.Log.{SyncMode, Disk, Calls, Reply}
use rag_cpp.Lexical.Bm25.{finalize}
use rag_cpp.Index.Corpus.{Ingest, Contents, is_unknown, ensure_linked, build}
use rag_cpp.Index.Corpus.Logged.{
  Corpus, Answer, Effect, logs, write_log, remove_record, remove_document_locked, open_wal,
  remove_now,
}
use rag_cpp.Index.Corpus.Valid.{IsValid, Fits, Step-Fits, here, Reach-Fits, built}
use rag_cpp.Index.Corpus.Steps.{Op, call_add, call_upsert, call_remove, run_op, run_op-Reach}
use rag_cpp.Index.Corpus.Live.{live, UniqueUris}
use rag_cpp.Index.Corpus.Upsert.{relinked, after_value}
use rag_cpp.Index.Corpus.Apply.{apply_all, replayed, open_wal-replayed}
use rag_cpp.Index.Corpus.Settled.{settled}
use rag_cpp.Index.Corpus.Session.{
  Session, begun, added, upserted, replaced, removed, refused, rebuilt, Follows,
}
use rag_cpp.Index.Corpus.Session.Single.{
  relinked-Follows, rebuilt-Follows, added-Follows, removed-Follows, upsert_adds, replaced-Follows,
}

Fits-before :
    (ing : Ingest) (op : Op) (c : Corpus) (disk : Disk)
    → Fits (run_op ing op c disk).0.contents
    → Fits c.contents
Fits-before ing op c disk = Reach-Fits ing c.contents _ (run_op-Reach ing c.contents op c disk here)

remove_value :
    (calls : Calls) (id : ℕ) (c : Corpus) (disk : Disk)
    → is_unknown id c.contents ≡ false
    → (remove_document_locked calls id c disk).0 ≡ Answer.returned (Result.value tt)
    → (write_log calls (remove_record id) (relinked c) disk).0 ≡ Reply.ok
unfolding remove_document_locked
remove_value calls id c disk h e =
    (after_value (relinked c) (write_log calls (remove_record id) (relinked c) disk) (remove_now id)
      tt (rw h at e)).0

refused-eq :
    (calls : Calls) (id : ℕ) (c : Corpus) (disk : Disk)
    → is_unknown id c.contents ≡ true
    → (remove_document_locked calls id c disk).1 ≡ relinked c
      × ((remove_document_locked calls id c disk).2 ≡ disk)
unfolding remove_document_locked
refused-eq calls id c disk h = rw h (refl, refl)

module _ (ing : Ingest) (c0 : Corpus) (d0 : Disk) where
  Session-Follows :
      (recs : List WalRecord) (c : Corpus) (disk : Disk)
      → Follows ing c0.contents [] c0 d0
      → Session ing c0 d0 recs c disk
      → Fits c.contents
      → Follows ing c0.contents recs c disk
  unfolding run_op
  Session-Follows _ _ _ start begun fits = start
  Session-Follows _ _ _ start (added {recs = recs} {c = c} {disk = disk} s calls d id h e) fits =
      added-Follows ing c0.contents recs c disk calls d id
        (Session-Follows recs c disk start s (Fits-before ing (call_add calls calls d) c disk fits))
        h e fits
  Session-Follows _ _ _ start
        (upserted {recs = recs} {c = c} {disk = disk} s removal addition d id h e) fits =
      let eq = upsert_adds ing c0.contents c disk removal addition d h in
      rw eq (
        added-Follows ing c0.contents recs c disk addition d id
          (Session-Follows recs c disk start s
            (Fits-before ing (call_upsert removal addition d) c disk fits))
          h (ap (λ (x : Effect ℕ). x.0) (sym eq) ∙ e)
          (subst (λ (x : Effect ℕ). Fits x.1.contents) eq fits))
  Session-Follows _ _ _ start
        (replaced {recs = recs} {c = c} {disk = disk} s removal addition d old id h ok e) fits =
      replaced-Follows ing c0.contents recs c disk removal addition d old id
        (Session-Follows recs c disk start s
          (Fits-before ing (call_upsert removal addition d) c disk fits))
        h ok e fits
  Session-Follows _ _ _ start (removed {recs = recs} {c = c} {disk = disk} s calls id h e) fits =
      removed-Follows ing c0.contents recs c disk calls id
        (Session-Follows recs c disk start s (Fits-before ing (call_remove calls id) c disk fits)) h
        (remove_value calls id c disk h e)
  Session-Follows _ _ _ start (refused {recs = recs} {c = c} {disk = disk} s calls id h) fits =
      let (eq, same) = refused-eq calls id c disk h in
      rw (eq, same)
        (relinked-Follows ing c0.contents recs c disk (
          Session-Follows recs c disk start s (Fits-before ing (call_remove calls id) c disk fits)))
  Session-Follows _ _ _ start (rebuilt {recs = recs} {c = c} {disk = disk} s) fits =
      rebuilt-Follows ing c0.contents recs c disk
        (Session-Follows recs c disk start s (Step-Fits ing c.contents _ (built c.contents) fits))

complete_all : (recs : List WalRecord) → take (complete (length (frames recs)) recs) recs ≡ recs
complete_all [] = refl
complete_all (rec ∷ recs) =
    let n = length (frame_of rec) in
    let e : length (frames (rec ∷ recs)) - n ≡ length (frames recs) =
      omega (arith, length-append (frame_of rec) (frames recs)) in
    let fits : leb n (length (frames (rec ∷ recs))) ≡ true =
      ground (arith, length-append (frame_of rec) (frames recs)) in
    rw (fits, e) (ap (λ l. rec ∷ l) (complete_all recs))

settled-replayed :
    (ing : Ingest) (calls : Calls) (recs : List WalRecord) (s : Contents)
    → settled (replayed ing calls recs s) ≡ settled (apply_all ing recs s)
unfolding settled build finalize ensure_linked apply_all
settled-replayed ing calls [] s = refl
settled-replayed ing calls (rec ∷ recs) s = refl

-- From a valid corpus whose live documents have distinct uris, with the log open and empty: take a
-- session of rebuilds and of additions of new uris, upserts and removals that succeed, each of whose
-- records (that of the removal in an upsert too) the log acknowledged, with records that fit the log
-- and ids that fit 32 bits. A corpus that starts with the same contents and reads the log has then
-- the documents, the chunks, the index and the deleted ids of the session's end (the counter of
-- changes and the marks for lazy work set aside).
pub open_wal-Session :
    (ing : Ingest) (c0 c c1 : Corpus) (d0 disk : Disk) (recs : List WalRecord) (calls : Calls)
    (fd : Option ℕ) (path : List ℕ) (mode : SyncMode)
    → logs c0 ≡ true
    → d0.content ≡ []
    → IsValid c0.contents
    → UniqueUris (live c0.contents)
    → Session ing c0 d0 recs c disk
    → Fits c.contents
    → All Frame.IsValid recs
    → c1.contents ≡ c0.contents
    → settled (open_wal ing calls fd path mode c1 disk).1.contents ≡ settled c.contents
unfolding apply_all
open_wal-Session ing c0 c c1 d0 disk recs calls fd path mode in_use empty v u s fits stored same =
    let f =
      Session-Follows ing c0 d0 recs c disk
        (record {
          in_use = in_use;
          content_eq = empty;
          contents_valid = v;
          unique = u;
          agrees = refl;
        })
        s fits in
    let n = length (frames recs) in
    let whole : disk.content ≡ take n (frames recs) =
      f.content_eq ∙ sym (take-all n (frames recs) (omega arith)) in
    ap settled (open_wal-replayed ing calls fd path mode recs n c1 disk stored whole)
    ∙ ap (λ l. settled (replayed ing calls l c1.contents)) (complete_all recs)
    ∙ settled-replayed ing calls recs c1.contents
    ∙ ap (λ x. settled (apply_all ing recs x)) same
    ∙ sym f.agrees
