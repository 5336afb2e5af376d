-- ===== src/Index/Corpus/Apply.antt =====
-- What the replay of src/index/corpus.cpp does to the contents, record by record.
use rag_cpp.Common.{
  ℕ, ◌≡◌, refl, ◌∙◌, sym, ap, true, false, Option, none, some, List, [], ◌∷◌, ◌++◌, take, All,
  if◌then◌else◌, Bool-cases, inl, inr,
}
use rag_cpp.Core.{Result}
use rag_cpp.Store.Wal.{WalRecord, WalOp, add_document, remove_document, replay}
use rag_cpp.Store.Wal.Frame.{IsValid}
use rag_cpp.Store.Wal.Replay.{frames, complete, replay-take}
use rag_cpp.Store.Wal.Log.{SyncMode, Disk, Calls, is_open, open_log, replay_file}
use rag_cpp.Index.Corpus.{
  Ingest, DocInput, Contents, insert, find_by_uri, ensure_linked, is_unknown, tombstone, build,
}
use rag_cpp.Index.Corpus.Logged.{
  Corpus, Answer, Effect, discard, then_value, restored, replace_document, open_outcome, input_of,
  go_on, build_now, open_now, add_document_locked, remove_document_locked, upsert_document,
  replay_op, replay_record, replay_each, replay_all, open_wal, logs,
}

-- `remove_document_locked` on the contents, with its check.
unfoldable pub take_out : ℕ → Contents → Contents
take_out id s = if is_unknown id s then ensure_linked s else tombstone id (ensure_linked s)

abbrev pub make_room : Option ℕ → Contents → Contents
make_room none s = s
make_room (some id) s = take_out id s

abbrev pub apply_op : Ingest → WalOp → WalRecord → Contents → Contents
apply_op ing add_document rec s = insert ing (input_of rec) (make_room (find_by_uri rec.uri s) s)
apply_op ing remove_document rec s = take_out rec.doc_id s

unfoldable pub apply_record : Ingest → WalRecord → Contents → Contents
apply_record ing rec s = apply_op ing rec.op rec s

unfoldable pub apply_all : Ingest → List WalRecord → Contents → Contents
apply_all ing [] s = s
apply_all ing (rec ∷ recs) s = apply_all ing recs (apply_record ing rec s)

pub apply_all-append :
    (ing : Ingest) (recs more : List WalRecord) (s : Contents)
    → apply_all ing (recs ++ more) s ≡ apply_all ing more (apply_all ing recs s)
unfolding apply_all
apply_all-append ing [] more s = refl
apply_all-append ing (rec ∷ recs) more s = apply_all-append ing recs more (apply_record ing rec s)

pub replaying_quiet : (c : Corpus) → logs (record c { replaying = true }) ≡ false
unfolding logs
replaying_quiet c = elim (Bool-cases (is_open c.wal)) [ inl e ↦ rw e refl | inr e ↦ rw e refl ]

-- A run that returned, with these contents, and that leaves the flag as it was.
abbrev Leaves : {A : Type 0} → Effect A → Contents → Type 0
Leaves {A = A} r s =
    (a : A) × (r.0 ≡ Answer.returned (Result.value a)) × (r.1.contents ≡ s) × (logs r.1 ≡ false)

pub unchanged :
    (s : Contents) (c : Corpus) → logs c ≡ false → logs (record c { contents = s }) ≡ false
unfolding logs
unchanged s c quiet = quiet

module _ (ing : Ingest) (calls : Calls) where
  add-Leaves :
      (d : DocInput) (c : Corpus) (disk : Disk)
      → logs c ≡ false
      → Leaves (add_document_locked ing calls d c disk) (insert ing d c.contents)
  unfolding add_document_locked logs
  add-Leaves d c disk quiet = rw quiet (_, refl, refl, quiet)

  remove-quiet :
      (id : ℕ) (c : Corpus) (disk : Disk)
      → logs c ≡ false
      → (remove_document_locked calls id c disk).1 ≡ record c { contents = take_out id c.contents }
  unfolding remove_document_locked take_out logs
  remove-quiet id c disk quiet = elim (Bool-cases (is_unknown id c.contents)) [
    | inl e ↦ rw e refl
    | inr e ↦ rw (e, quiet) refl
  ]

  remove-returns :
      (id : ℕ) (c : Corpus) (disk : Disk)
      → logs c ≡ false
      → (r : Result (Unit {0})) × ((remove_document_locked calls id c disk).0 ≡ Answer.returned r)
  unfolding remove_document_locked logs
  remove-returns id c disk quiet = elim (Bool-cases (is_unknown id c.contents)) [
    | inl e ↦ rw e (_, refl)
    | inr e ↦ rw (e, quiet) (_, refl)
  ]

  discard_returned :
      {A B : Type 0} (r : Effect A) (k : Corpus → Disk → Effect B) (a : Result A)
      → r.0 ≡ Answer.returned a
      → discard r k ≡ k r.1 r.2
  discard_returned (Answer.returned x, c, d) k a e = refl
  discard_returned (Answer.stopped, c, d) k a e = cc e

  then_value-Leaves :
      {A B : Type 0} (r : Effect A) (k : A → Corpus → Disk → Effect B) (s t : Contents)
      → Leaves r s
      → ((a : A) (c : Corpus) (d : Disk) → logs c ≡ false → c.contents ≡ s → Leaves (k a c d) t)
      → Leaves (then_value r k) t
  then_value-Leaves (Answer.returned (Result.value a), c, d) k s t h f = f a c d h.3 h.2
  then_value-Leaves (Answer.returned (Result.fail x), c, d) k s t h f = cc (h.1)
  then_value-Leaves (Answer.stopped, c, d) k s t h f = cc (h.1)

  upsert-Leaves :
      (d : DocInput) (o : Option ℕ) (c : Corpus) (disk : Disk)
      → logs c ≡ false
      → Leaves (replace_document ing calls calls d o c disk) (insert ing d (make_room o c.contents))
  upsert-Leaves d none c disk quiet = add-Leaves d c disk quiet
  upsert-Leaves d (some id) c disk quiet =
      let (r, e) = remove-returns id c disk quiet in
      rw
        (
          discard_returned (remove_document_locked calls id c disk)
              (add_document_locked ing calls d) r e,
          remove-quiet id c disk quiet,
        )
        (add-Leaves d (record c { contents = take_out id c.contents }) _
          (unchanged (take_out id c.contents) c quiet))

  replay_op-Leaves :
      (op : WalOp) (rec : WalRecord) (c : Corpus) (disk : Disk)
      → logs c ≡ false
      → Leaves (replay_op ing calls op rec c disk) (apply_op ing op rec c.contents)
  unfolding upsert_document
  replay_op-Leaves add_document rec c disk quiet =
      let s = insert ing (input_of rec) (make_room (find_by_uri rec.uri c.contents) c.contents) in
      then_value-Leaves (upsert_document ing calls calls (input_of rec) c disk) go_on s s
        (upsert-Leaves (input_of rec) (find_by_uri rec.uri c.contents) c disk quiet)
        (λ a c' d q e. (tt, refl, e, q))
  replay_op-Leaves remove_document rec c disk quiet =
      let (r, e) = remove-returns rec.doc_id c disk quiet in
      let s = take_out rec.doc_id c.contents in
      rw
        (
          discard_returned (remove_document_locked calls rec.doc_id c disk) (go_on tt) r e,
          remove-quiet rec.doc_id c disk quiet,
        )
        (tt, refl, refl, unchanged s c quiet)

  replay_each-Leaves :
      (recs : List WalRecord) (c : Corpus) (disk : Disk) (s : Contents)
      → logs c ≡ false
      → c.contents ≡ s
      → Leaves (replay_each ing calls recs c disk) (apply_all ing recs s)
  unfolding replay_each apply_all replay_record apply_record
  replay_each-Leaves [] c disk s quiet e = (tt, refl, e, quiet)
  replay_each-Leaves (rec ∷ recs) c disk s quiet e =
      then_value-Leaves (replay_record ing calls rec c disk) (λ u. replay_each ing calls recs)
        (apply_record ing rec s) (apply_all ing recs (apply_record ing rec s))
        (rw (sym e) (replay_op-Leaves rec.op rec c disk quiet))
        (λ u c' d q e'. replay_each-Leaves recs c' d (apply_record ing rec s) q e')

  -- The contents after_log the replay of so many records, at the end of `open_wal`.
  abbrev pub replayed : List WalRecord → Contents → Contents
  replayed [] s = s
  replayed (rec ∷ recs) s = build (apply_all ing (rec ∷ recs) s)

  replay_all-contents :
      (recs : List WalRecord) (c : Corpus) (disk : Disk)
      → ((replay_all ing calls recs c disk).1.contents ≡ replayed recs c.contents)
        × ((replay_all ing calls recs c disk).0 ≡ Answer.returned (Result.value tt))
  unfolding replay_all
  replay_all-contents [] c disk = (refl, refl)
  replay_all-contents (rec ∷ recs) c disk =
      built_after (replay_each ing calls (rec ∷ recs) (record c { replaying = true }) disk)
        (apply_all ing (rec ∷ recs) c.contents)
        (replay_each-Leaves (rec ∷ recs) (record c { replaying = true }) disk c.contents
          (replaying_quiet c) refl)
    where
      built_after :
          (r : Effect (Unit {0})) (s : Contents)
          → Leaves r s
          → ((then_value (restored false r) build_now).1.contents ≡ build s)
            × ((then_value (restored false r) build_now).0 ≡ Answer.returned (Result.value tt))
      built_after (Answer.returned (Result.value a), c, d) s h = (ap build h.2, refl)
      built_after (Answer.returned (Result.fail x), c, d) s h = cc (h.1)
      built_after (Answer.stopped, c, d) s h = cc (h.1)

  open_after :
      (r : Effect (Unit {0})) (fd : Option ℕ) (path : List ℕ) (mode : SyncMode)
      → r.0 ≡ Answer.returned (Result.value tt)
      → (then_value r (open_now fd path mode)).1.contents ≡ r.1.contents
  unfolding open_log
  open_after (Answer.returned (Result.value a), c, d) none path mode h = refl
  open_after (Answer.returned (Result.value a), c, d) (some f) path mode h = refl
  open_after (Answer.returned (Result.fail x), c, d) fd path mode h = cc
  open_after (Answer.stopped, c, d) fd path mode h = cc

  -- `open_wal` on a file that holds the first bytes of the frames of some records applies the records that
  -- are complete there, in their order.
  pub open_wal-replayed :
      (fd : Option ℕ) (path : List ℕ) (mode : SyncMode) (recs : List WalRecord) (n : ℕ) (c : Corpus)
      (disk : Disk)
      → All IsValid recs
      → disk.content ≡ take n (frames recs)
      → (open_wal ing calls fd path mode c disk).1.contents
        ≡ replayed (take (complete n recs) recs) c.contents
  unfolding open_wal replay_file
  open_wal-replayed fd path mode recs n c disk v e =
      let out = take (complete n recs) recs in
      let all = replay_all-contents out c disk in
      ap (λ o. (open_outcome ing calls fd path mode o c disk).1.contents)
        (ap replay e ∙ replay-take n recs v)
      ∙ open_after (replay_all ing calls out c disk) fd path mode all.1
      ∙ all.0
