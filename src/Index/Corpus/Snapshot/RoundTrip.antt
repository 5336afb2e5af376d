-- ===== src/Index/Corpus/Snapshot/RoundTrip.antt =====
-- What `snapshot_locked` packs, `load` brings back.
use rag_cpp.Common.{
  ℕ, suc, ◌%◌, ◌^◌, ◌<◌, ◌≡◌, refl, ◌∙◌, sym, ap, true, none, some, List, [], ◌∷◌, ◌++◌, length,
  append-nil, All, All-middle, if◌then◌else◌, arith, Bool-cases, inl, inr,
}
use rag_cpp.Common.SortedMap.{find, insert_or_assign}
use rag_cpp.Core.{Result, is_empty}
use rag_cpp.Store.Format.{le_bytes, reader, Read, write_u, write_each}
use rag_cpp.Store.Format.Codec.{at, read_u-then}
use rag_cpp.Store.Format.Loops.{each_bytes, write_each-append, repeat_read-each_bytes}
use rag_cpp.Store.Container.{get, put_raw, set_flags}
use rag_cpp.Lexical.Bm25.{Bm25Index, serialize_index, read_result}
use rag_cpp.Lexical.Bm25.Codec
use rag_cpp.Index.Corpus.{Row, Contents, no_contents}
use rag_cpp.Index.Corpus.Valid.{Distinct}
use rag_cpp.Index.Corpus.Snapshot.{
  tag_docs, tag_chunks, tag_embed, tag_bm25, tag_tomb, write_document, write_chunk, write_embedding,
  counted, any_embedding, sorted_ids, put_embeddings, put_deleted, snapshot_locked, read_document,
  read_chunk, read_deleted, read_counted, read_embeddings, section, load,
}
use rag_cpp.Index.Corpus.Snapshot.Fields.{
  DocumentFits, RowFits, plain, plain_rows, document_bytes, chunk_bytes, write_document-append,
  write_chunk-append, read_document-bytes, read_chunk-bytes,
}
use rag_cpp.Index.Corpus.Snapshot.Embeddings.{
  EmbeddingFits, embedding_bytes, write_embedding-append, read_embeddings-bytes, no_embedding,
}
use rag_cpp.Index.Corpus.Snapshot.Deleted.{
  IdFits, Readable, id_bytes, write_id-append, Distinct-sorted_ids, All-sorted_ids,
  length-sorted_ids, read_deleted-bytes,
}

module _ {X : Type 0} where
  -- A section of a count and as many items.
  section-counted :
      (write bytes : X → List ℕ → List ℕ) (f : List X → Read (List X)) (Q : List X → Type 0)
      → ((x : X) (w rest : List ℕ) → write x w ++ rest ≡ w ++ bytes x rest)
      → ((done xs : List X) (x : X) (rest : List ℕ)
          → Q (done ++ x ∷ xs)
          → f done (at (bytes x rest) true) ≡ (some (done ++ x ∷ []), at rest true))
      → (xs : List X) → length xs < 2 ^ 32
      → Q xs
      → section (some (counted write xs)) (read_counted f) [] ≡ Result.value xs
  section-counted write bytes f Q wa step xs fits q =
      let size : length xs % 2 ^ 32 ≡ length xs = omega arith in
      let written : counted write xs ≡ le_bytes 4 (length xs % 2 ^ 32) ++ each_bytes bytes xs [] =
        sym (append-nil (counted write xs))
        ∙ write_each-append write bytes wa xs (le_bytes 4 (length xs % 2 ^ 32)) [] in
      ap (λ s. read_result (read_counted f (reader s)).0)
        (written ∙ ap (λ n. le_bytes 4 n ++ each_bytes bytes xs []) size)
      ∙ ap (λ o. read_result o.0)
          (read_u-then _ 4 (length xs) (each_bytes bytes xs []) true (omega arith)
            (repeat_read-each_bytes f bytes Q true step xs [] [] q))

length-plain_rows : (rows : List Row) → length (plain_rows rows) ≡ length rows
length-plain_rows [] = refl
length-plain_rows (row ∷ rows) = ap suc (length-plain_rows rows)

write_plain :
    (rows : List Row) (w : List ℕ)
    → write_each write_chunk (plain_rows rows) w ≡ write_each write_chunk rows w
unfolding write_each
write_plain [] w = refl
write_plain (row ∷ rows) w = write_plain rows (write_chunk row w)

same_fits : (row : Row) → RowFits row → RowFits (plain row)
same_fits row h = record {
  id_fits = h.id_fits;
  doc_fits = h.doc_fits;
  text_fits = h.text_fits;
  context_fits = h.context_fits;
  start_fits = h.start_fits;
  end_fits = h.end_fits;
}

abbrev PlainRow : Row → Type 0
PlainRow row = RowFits row × (plain row ≡ row)

plain_rows-PlainRow : (rows : List Row) → All RowFits rows → All PlainRow (plain_rows rows)
plain_rows-PlainRow [] h = tt
plain_rows-PlainRow (row ∷ rows) h = ((same_fits row h.0, refl), plain_rows-PlainRow rows h.1)

no_ids : (ids : List ℕ) → is_empty ids ≡ true → Result.value [] ≡ Result.value (sorted_ids ids)
unfolding sorted_ids
no_ids [] e = refl
no_ids (i ∷ ids) e = cc e

-- The plain rows are written the same way.
counted-plain_rows :
    (rows : List Row) → counted write_chunk (plain_rows rows) ≡ counted write_chunk rows
counted-plain_rows rows =
    rw (length-plain_rows rows) (write_plain rows (write_u 4 (length rows % 2 ^ 32) []))

-- What a snapshot can hold: every field and count fits its width, and what is a map or a set is one.
pub record IsStorable (s : Contents) : Type 0 where
  pub docs_fit : All DocumentFits s.docs
  pub doc_count : length s.docs < 2 ^ 32
  pub rows_fit : All RowFits s.rows
  pub row_count : length s.rows < 2 ^ 32
  pub embeddings_fit : All EmbeddingFits s.rows
  pub index_storable : Codec.IsStorable s.bm25
  pub deleted_fit : All IdFits s.deleted
  pub deleted_count : length s.deleted < 2 ^ 32
  pub deleted_distinct : Distinct s.deleted

-- The contents as they come back.
abbrev pub restarted : Contents → Contents
restarted s = record (no_contents (Codec.reloaded s.bm25)) {
  docs = s.docs;
  rows = s.rows;
  deleted = sorted_ids s.deleted;
}

docs_section :
    (s : Contents)
    → IsStorable s
    → section (some (counted write_document s.docs)) (read_counted read_document) []
      ≡ Result.value s.docs
docs_section s h =
    section-counted write_document document_bytes read_document (All DocumentFits)
      write_document-append
      (λ done xs d rest q.
        read_document-bytes done d rest true (All-middle DocumentFits done d xs q))
      s.docs h.doc_count h.docs_fit

chunks_section :
    (s : Contents)
    → IsStorable s
    → section (some (counted write_chunk s.rows)) (read_counted read_chunk) []
      ≡ Result.value (plain_rows s.rows)
chunks_section s h =
    ap (λ p. section (some p) (read_counted read_chunk) []) (sym (counted-plain_rows s.rows))
    ∙ section-counted write_chunk chunk_bytes read_chunk (All PlainRow) write_chunk-append
        (λ done xs row rest q.
          let (fits, is_plain) = All-middle PlainRow done row xs q in
          read_chunk-bytes done row rest true fits
          ∙ ap (λ (r : Row). (some (done ++ r ∷ []), at rest true)) is_plain)
        (plain_rows s.rows) (rw (length-plain_rows s.rows) h.row_count)
        (plain_rows-PlainRow s.rows h.rows_fit)

embed_section :
    (s : Contents)
    → IsStorable s
    → section
        (if any_embedding s.rows then some (write_each write_embedding s.rows []) else none)
        (read_embeddings (plain_rows s.rows))
        (plain_rows s.rows)
      ≡ Result.value s.rows
embed_section s h = elim (Bool-cases (any_embedding s.rows)) [
  | inl e ↦ rw e (
      ap (λ p. read_result (read_embeddings (plain_rows s.rows) (reader p)).0)
        (sym (append-nil (write_each write_embedding s.rows []))
          ∙ write_each-append write_embedding embedding_bytes write_embedding-append s.rows [] [])
      ∙ ap (λ o. read_result o.0) (read_embeddings-bytes s.rows [] true h.embeddings_fit))
  | inr e ↦ rw e (ap Result.value (no_embedding s.rows e))
]

tomb_section :
    (s : Contents)
    → IsStorable s
    → section
        (if is_empty s.deleted then none else some (counted (write_u 4) (sorted_ids s.deleted)))
        (read_counted read_deleted)
        []
      ≡ Result.value (sorted_ids s.deleted)
tomb_section s h = elim (Bool-cases (is_empty s.deleted)) [
  | inl e ↦ rw e (no_ids s.deleted e)
  | inr e ↦ rw e (
      section-counted (write_u 4) id_bytes read_deleted Readable write_id-append
        (λ done xs i rest q. read_deleted-bytes done xs i rest true q) (sorted_ids s.deleted)
        (rw (length-sorted_ids s.deleted) h.deleted_count)
        (Distinct-sorted_ids s.deleted h.deleted_distinct, All-sorted_ids s.deleted h.deleted_fit))
]

-- The sections of a snapshot.
snapshot-sections :
    (meta : List ℕ) (s : Contents)
    → let c = snapshot_locked meta s in
      (get tag_docs c ≡ some (counted write_document s.docs))
      × (get tag_chunks c ≡ some (counted write_chunk s.rows))
      × (get tag_embed c
          ≡ (if any_embedding s.rows then some (write_each write_embedding s.rows []) else none))
      × (get tag_bm25 c ≡ some (serialize_index s.bm25))
      × (get tag_tomb c ≡ (
          if is_empty s.deleted then none else some (counted (write_u 4) (sorted_ids s.deleted))))
unfolding snapshot_locked put_embeddings put_deleted put_raw set_flags get find insert_or_assign
snapshot-sections meta s = elim (Bool-cases (any_embedding s.rows)) [
  | inl e ↦ elim (Bool-cases (is_empty s.deleted)) [
    | inl d ↦ rw (e, d) (refl, refl, refl, refl, refl)
    | inr d ↦ rw (e, d) (refl, refl, refl, refl, refl)
  ]
  | inr e ↦ elim (Bool-cases (is_empty s.deleted)) [
    | inl d ↦ rw (e, d) (refl, refl, refl, refl, refl)
    | inr d ↦ rw (e, d) (refl, refl, refl, refl, refl)
  ]
]

-- Contents that fit the format come back from their snapshot: the documents, the rows with their
-- embeddings, the index up to its tokenizer, and the deleted ids, sorted.
pub load-snapshot_locked :
    (idx : Bm25Index) (meta : List ℕ) (s : Contents)
    → IsStorable s
    → load idx (snapshot_locked meta s) ≡ Result.value (restarted s)
unfolding load
load-snapshot_locked idx meta s h =
    let (docs, chunks, embed, bm25, tomb) = snapshot-sections meta s in
    let index = Codec.deserialize_index-serialize_index s.bm25 h.index_storable in
    rw (docs, chunks, embed, bm25, tomb)
      (rw (docs_section s h)
        (rw (chunks_section s h) (rw (embed_section s h) (rw index (rw (tomb_section s h) refl)))))
