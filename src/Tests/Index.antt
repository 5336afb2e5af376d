-- ===== src/Tests/Index.antt =====
-- The corpus and its index at concrete inputs: a corpus with one document, and an empty log.
use rag_cpp.Common.{
  map, ◌⊎◌, ◌≢◌, ℕ, ◌^◌, ◌<◌, ◌≡◌, refl, true, false, none, some, List, [], ◌∷◌, ◌++◌, length, take,
  arith,
}
use rag_cpp.Index.Corpus.Logged.{
  add_documents, write_batch, Corpus, Answer, logs, write_log, add_record, remove_record,
  add_document_locked, remove_document_locked, upsert_document, open_wal,
}
use rag_cpp.Index.Corpus.Group.{insert_all, new_ids, add_documents-insert_all}
use rag_cpp.Store.Format.{le_bytes}
use rag_cpp.Text.Lines.{split_from, split_lines, trim_end}
use rag_cpp.Core.{bytes, Result}
use rag_cpp.Text.Tokenizer.{default_options}
use rag_cpp.Text.Chunker.{
  default_chunks, chunk_document, chunk_loop, emitted, fill, next_start, prepend, take_line,
}
use rag_cpp.Store.Wal.Frame
use rag_cpp.Store.Wal.{frame_of, write_meta, WalRecord, encode}
use rag_cpp.Store.Wal.Replay.{frames}
use rag_cpp.Store.Wal.Log.{
  Wal, Disk, Calls, Reply, SyncMode, wrote, is_open, append, write_out, write_all, sync_ok,
}
use rag_cpp.Lexical.Bm25.{Bm25Index, no_index}
use rag_cpp.Index.Corpus.{
  is_deleted, ensure_linked, tombstone, DocInput, Ingest, Contents, no_contents, insert,
  document_of, find_by_uri, find_document, is_unknown, add_chunks, new_chunks,
}
use rag_cpp.Index.Corpus.Valid.{IsValid, Fits, insert-IsValid}
use rag_cpp.Index.Corpus.Steps.{call_upsert, run_op, run_op-IsValid}
use rag_cpp.Index.Corpus.Live.{live, live_docs, UniqueUris, first_with}
use rag_cpp.Index.Corpus.Upsert.{relinked, upsert_document-refines}
use rag_cpp.Index.Corpus.Replacing.{put_document}
use rag_cpp.Index.Corpus.Settled.{settled}
use rag_cpp.Index.Corpus.Session.{Session, begun, replaced}
use rag_cpp.Index.Corpus.Session.Recovery.{open_wal-Session}
use rag_cpp.Index.Corpus.Fixed.{fixed_ingest}

abbrev windows : Ingest
windows = fixed_ingest default_chunks false none

abbrev pub new_index : Bm25Index
new_index = no_index 0 0 default_options

abbrev first : DocInput
first = record { uri = bytes "a"; text = bytes "red cat"; meta = []; title = [] }

abbrev pub second : DocInput
second = record { uri = bytes "a"; text = bytes "blue dog"; meta = []; title = bytes "d" }

abbrev pub other : DocInput
other = record {
  uri = bytes "b";
  text = bytes "green";
  meta = (bytes "k", bytes "v") ∷ [];
  title = [];
}

abbrev one_document : Contents
one_document = insert windows first (no_contents new_index)

abbrev pub log_in_use : Wal
log_in_use = record { fd = some 3; path = bytes "wal"; mode = SyncMode.flush; bytes = 0 }

abbrev running : Corpus
running = record { contents = one_document; wal = log_in_use; replaying = false }

abbrev pub empty_file : Disk
empty_file = record { content = []; stable = [] }

abbrev pub in_order : Calls
in_order = record { writes = wrote 1000 ∷ []; fsync = true; fullfsync = none }

empty-IsValid : IsValid (no_contents new_index)
empty-IsValid = record {
  docs_numbered = tt;
  rows_numbered = tt;
  rows_belong = tt;
  deleted_known = tt;
  deleted_distinct = tt;
}

one_document-size : length one_document.docs ≡ 1
unfolding insert add_chunks new_chunks chunk_document chunk_loop split_lines split_from prepend
    next_start fill take_line emitted trim_end
one_document-size = refl

one_document-Fits : Fits one_document
unfolding insert add_chunks new_chunks chunk_document chunk_loop split_lines split_from prepend
    next_start fill take_line emitted trim_end
one_document-Fits = record { docs_fit = omega arith; rows_fit = omega arith }

one_document-IsValid : IsValid one_document
one_document-IsValid =
    insert-IsValid windows first (no_contents new_index) one_document-Fits empty-IsValid

one_document-UniqueUris : UniqueUris (live one_document)
unfolding live_docs insert add_chunks new_chunks chunk_document chunk_loop split_lines split_from
    prepend next_start fill take_line emitted trim_end first_with
one_document-UniqueUris = (λ full. refl, tt)

removal_logged :
    (i : ℕ)
    → find_by_uri second.uri one_document ≡ some i
    → (write_log in_order (remove_record i) (relinked running) empty_file).0 ≡ Reply.ok
unfolding logs is_open append frame_of le_bytes encode sync_ok
removal_logged i e = refl

upserted-value :
    (upsert_document windows in_order in_order second running empty_file).0
    ≡ Answer.returned (Result.value 1)
unfolding upsert_document find_by_uri find_document insert add_chunks new_chunks chunk_document
    chunk_loop split_lines split_from prepend next_start fill take_line emitted trim_end
    remove_document_locked add_document_locked is_unknown is_deleted ensure_linked tombstone logs
    is_open append frame_of encode le_bytes sync_ok write_out write_all write_meta
upserted-value = refl

room : length one_document.docs < 2 ^ 32
room = omega (arith, one_document-size)

upsert_document-refines_example :
    (live (upsert_document windows in_order in_order second running empty_file).1.contents
      ≡ put_document (document_of (length one_document.docs) second) (live one_document))
    × UniqueUris
        (live (upsert_document windows in_order in_order second running empty_file).1.contents)
upsert_document-refines_example =
    upsert_document-refines windows in_order in_order second running empty_file 1
      one_document-IsValid one_document-UniqueUris room removal_logged upserted-value

upserted-Fits :
    Fits (run_op windows (call_upsert in_order in_order second) running empty_file).0.contents
unfolding run_op upsert_document find_by_uri find_document insert add_chunks new_chunks
    chunk_document chunk_loop split_lines split_from prepend next_start fill take_line emitted
    trim_end remove_document_locked add_document_locked is_unknown is_deleted ensure_linked
    tombstone logs is_open append frame_of encode le_bytes sync_ok write_out write_all write_meta
upserted-Fits = record { docs_fit = omega arith; rows_fit = omega arith }

run_op-IsValid_example :
    IsValid (run_op windows (call_upsert in_order in_order second) running empty_file).0.contents
run_op-IsValid_example =
    run_op-IsValid windows (call_upsert in_order in_order second) running empty_file upserted-Fits
      one_document-IsValid

other_record-IsValid : Frame.IsValid (add_record other)
unfolding encode le_bytes write_meta
other_record-IsValid = record { fits = omega arith; sorted = (tt, tt); doc_id_fits = omega arith }

-- The first hundred bytes of a log of two records.
abbrev cut_file : Disk
cut_file = record {
  content = take 100 (frames (add_record other ∷ add_record other ∷ []));
  stable = [];
}

abbrev frames_in_file : List WalRecord
frames_in_file = add_record other ∷ add_record other ∷ []

second_record-IsValid : Frame.IsValid (add_record second)
unfolding encode le_bytes write_meta
second_record-IsValid = record { fits = omega arith; sorted = tt; doc_id_fits = omega arith }

removal_record-IsValid : Frame.IsValid (remove_record 0)
unfolding encode le_bytes write_meta
removal_record-IsValid = record { fits = omega arith; sorted = tt; doc_id_fits = omega arith }

running-logs : logs running ≡ true
unfolding logs is_open
running-logs = refl

first-found : find_by_uri second.uri one_document ≡ some 0
unfolding find_by_uri find_document insert add_chunks new_chunks chunk_document chunk_loop
    split_lines split_from prepend next_start fill take_line emitted trim_end
first-found = refl

-- The corpus and the file after_log the upsert.
abbrev later : Corpus
later = (upsert_document windows in_order in_order second running empty_file).1

abbrev later_file : Disk
later_file = (upsert_document windows in_order in_order second running empty_file).2

later-Fits : Fits later.contents
unfolding run_op
later-Fits = upserted-Fits

one_upsert :
    Session windows running empty_file
      (([] ++ remove_record 0 ∷ []) ++ add_record second ∷ [])
      later
      later_file
one_upsert =
    replaced begun in_order in_order second 0 1 first-found (removal_logged 0 first-found)
      upserted-value

open_wal-Session_example :
    settled
      (open_wal windows in_order
        (some 3)
        (bytes "wal")
        SyncMode.flush
        running
        later_file).1.contents
    ≡ settled later.contents
open_wal-Session_example =
    open_wal-Session windows running later running empty_file later_file
      (([] ++ remove_record 0 ∷ []) ++ add_record second ∷ []) in_order (some 3) (bytes "wal")
      SyncMode.flush running-logs refl one_document-IsValid one_document-UniqueUris one_upsert
      later-Fits (removal_record-IsValid, (second_record-IsValid, tt)) refl

abbrev group : List DocInput
group = second ∷ other ∷ []

abbrev group_log : Reply × Wal × Disk
group_log = write_batch in_order (map add_record group) running empty_file

add_documents-insert_all_example :
    ((group_log.0 ≡ Reply.ok)
      × (add_documents windows in_order group running empty_file ≡ (
        Answer.returned (Result.value (new_ids windows group one_document)),
        record running { wal = group_log.1; contents = insert_all windows group one_document },
        group_log.2,
      )))
    ⊎ ((group_log.0 ≢ Reply.ok)
        × ((add_documents windows in_order group running empty_file).1.contents ≡ one_document))
add_documents-insert_all_example =
    add_documents-insert_all windows in_order group running empty_file
