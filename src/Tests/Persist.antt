-- ===== src/Tests/Persist.antt =====
-- The stored forms of the index and the corpus at concrete inputs.
use rag_cpp.Index.Corpus.{live_document_count, Contents, Row, no_contents, document_of}
use rag_cpp.Index.Corpus.Live.{live}
use rag_cpp.Index.Corpus.Valid
use rag_cpp.Index.Corpus.Count.{live_document_count_lem}
use rag_cpp.Common.SortedMap.{insert_or_assign}
use rag_cpp.Store.Container.{put_raw, set_flags}
use rag_cpp.Common.{◌⊎◌}
use rag_cpp.Core.{Errc}
use rag_cpp.Store.Container.RoundTrip
use rag_cpp.Store.Replace.{Files, Answers}
use rag_cpp.Index.Corpus.Persist.{checkpoint, load_file, checkpoint_lem}
use rag_cpp.Store.Format.{le_bytes, write_each}
use rag_cpp.Common.{◌≡◌, refl, true, false, none, [], ◌∷◌, length, arith}
use rag_cpp.Core.{text_lt, bytes, Result}
use rag_cpp.Lexical.Bm25.{Bm25Index, serialize_index, deserialize_index}
use rag_cpp.Lexical.Bm25.Codec
use rag_cpp.Index.Corpus.Logged.{Corpus, Answer}
use rag_cpp.Index.Corpus.Snapshot.{
  snapshot_locked, load, any_embedding, insert_id, put_deleted, put_embeddings, sorted_ids,
}
use rag_cpp.Index.Corpus.Snapshot.RoundTrip.{IsStorable, restarted, load-snapshot_locked}
use rag_cpp.Tests.Index.{new_index, log_in_use, in_order, empty_file, second, other}

abbrev small_index : Bm25Index
small_index = record new_index {
  k1 = 0x3F99999A;
  postings = (bytes "cat", (0, 1) ∷ (1, 2) ∷ []) ∷ (bytes "dog", (1, 1) ∷ []) ∷ [];
  doc_len = (0, 1) ∷ (1, 3) ∷ [];
  total_len = 4;
}

small_index-IsStorable : Codec.IsStorable small_index
unfolding text_lt
small_index-IsStorable = record {
  k1_fits = omega arith;
  b_fits = omega arith;
  total_fits = omega arith;
  docs_fit = omega arith;
  terms_fit = omega arith;
  doc_len_sorted = ((refl, tt), (tt, tt));
  postings_sorted = ((refl, tt), (tt, tt));
  pairs_fit = ((omega arith, omega arith), ((omega arith, omega arith), tt));
  postings_fit = (
    (omega arith, omega arith, ((omega arith, omega arith), ((omega arith, omega arith), tt))),
    ((omega arith, omega arith, ((omega arith, omega arith), tt)), tt),
  );
}

deserialize_index-serialize_index_example :
    deserialize_index (serialize_index small_index) ≡ Result.value (Codec.reloaded small_index)
deserialize_index-serialize_index_example =
    Codec.deserialize_index-serialize_index small_index small_index-IsStorable

abbrev one_row : Row
one_row = record {
  chunk = record {
    id = 0;
    doc = 0;
    text = bytes "cat";
    context = [];
    start_line = 0;
    end_line = 0;
  };
  embedding = 7 ∷ 9 ∷ [];
}

abbrev kept : Contents
kept = record (no_contents small_index) {
  docs = document_of 0 other ∷ document_of 1 second ∷ [];
  rows = one_row ∷ [];
  deleted = 1 ∷ 0 ∷ [];
}

kept-IsStorable : IsStorable kept
unfolding text_lt
kept-IsStorable = record {
  docs_fit = (
    record {
      id_fits = omega arith;
      uri_fits = omega arith;
      title_fits = omega arith;
      text_fits = omega arith;
      meta_fits = omega arith;
      entries_fit = ((omega arith, omega arith), tt);
      meta_sorted = (tt, tt);
    },
    (
      record {
        id_fits = omega arith;
        uri_fits = omega arith;
        title_fits = omega arith;
        text_fits = omega arith;
        meta_fits = omega arith;
        entries_fit = tt;
        meta_sorted = tt;
      },
      tt,
    ),
  );
  doc_count = omega arith;
  rows_fit = (
    record {
      id_fits = omega arith;
      doc_fits = omega arith;
      text_fits = omega arith;
      context_fits = omega arith;
      start_fits = omega arith;
      end_fits = omega arith;
    },
    tt,
  );
  row_count = omega arith;
  embeddings_fit =
      (record { words_fit = (omega arith, (omega arith, tt)); length_fits = omega arith }, tt);
  index_storable = small_index-IsStorable;
  deleted_fit = (omega arith, (omega arith, tt));
  deleted_count = omega arith;
  deleted_distinct = (refl, (refl, tt));
}

load-snapshot_locked_example :
    load new_index (snapshot_locked (bytes "{}") kept) ≡ Result.value (restarted kept)
load-snapshot_locked_example = load-snapshot_locked new_index (bytes "{}") kept kept-IsStorable

kept_snapshot-IsStorable : RoundTrip.IsStorable (snapshot_locked (bytes "{}") kept)
unfolding snapshot_locked put_deleted put_raw insert_or_assign put_embeddings any_embedding
    set_flags serialize_index write_each le_bytes sorted_ids insert_id
kept_snapshot-IsStorable = record {
  sorted = (
    (refl, (refl, (refl, (refl, (refl, tt))))),
    (
      (refl, (refl, (refl, (refl, tt)))),
      ((refl, (refl, (refl, tt))), ((refl, (refl, tt)), ((refl, tt), (tt, tt)))),
    ),
  );
  tags =
      (omega arith, (omega arith, (omega arith, (omega arith, (omega arith, (omega arith, tt))))));
  flags_fit = omega arith;
  major_known = refl;
  minor_fit = omega arith;
  count_fit = omega arith;
  size_fit = omega arith;
}

abbrev no_files : Files
no_files = record { dest = none; temp = none }

-- The temporary file cannot be synced.
abbrev no_sync : Answers
no_sync = record {
  temp_opened = true;
  failed_after = none;
  reopened = true;
  fsynced = false;
  renamed = true;
}

abbrev with_kept : Corpus
with_kept = record { contents = kept; wal = log_in_use; replaying = false }

checkpoint_lem_example :
    (load_file new_index
        (checkpoint (bytes "{}") no_sync true in_order with_kept no_files empty_file).1
      ≡ Result.value (restarted kept))
    ⊎ (((checkpoint (bytes "{}") no_sync true in_order with_kept no_files empty_file).0.0
          ≡ Answer.returned (Result.fail Errc.io_error))
        × (load_file new_index
              (checkpoint (bytes "{}") no_sync true in_order with_kept no_files empty_file).1
            ≡ load_file new_index no_files)
        × ((checkpoint (bytes "{}") no_sync true in_order with_kept no_files empty_file).0.2
            ≡ empty_file))
checkpoint_lem_example =
    checkpoint_lem (bytes "{}") no_sync true in_order with_kept no_files empty_file new_index
      kept-IsStorable kept_snapshot-IsStorable

kept-IsValid : Valid.IsValid kept
kept-IsValid = record {
  docs_numbered = (refl, (refl, tt));
  rows_numbered = (refl, tt);
  rows_belong = (omega arith, tt);
  deleted_known = (omega arith, (omega arith, tt));
  deleted_distinct = (refl, (refl, tt));
}

live_document_count_lem_example : live_document_count kept ≡ length (live kept)
live_document_count_lem_example = live_document_count_lem kept kept-IsValid
