-- ===== src/Index/Corpus/Snapshot/Fields.antt =====
-- One document, chunk, embedding or deleted id of the sections, written and read back.
use rag_cpp.Common.{
  ℕ, ◌%◌, ◌^◌, ◌<◌, ◌≡◌, refl, ◌∙◌, Bool, some, List, [], ◌∷◌, ◌++◌, length, append_assoc, All,
  All-middle, arith,
}
use rag_cpp.Common.SortedMap.{IsSorted, insert_or_assign_last, Below-middle}
use rag_cpp.Core.{text_order}
use rag_cpp.Store.Format.{le_bytes, repeat_read}
use rag_cpp.Store.Format.Codec.{at, read_u-then, read_str-then, >>=-then}
use rag_cpp.Store.Format.Loops.{str_bytes, each_bytes, write_each-append, repeat_read-each_bytes}
use rag_cpp.Index.Corpus.{Metadata, Document, Row}
use rag_cpp.Index.Corpus.Snapshot.{
  write_entry, write_document, write_chunk, read_entry, read_document, read_chunk,
}

abbrev entry_bytes : List ℕ × List ℕ → List ℕ → List ℕ
entry_bytes (k, v) rest = str_bytes k (str_bytes v rest)

abbrev pub document_bytes : Document → List ℕ → List ℕ
document_bytes d rest =
    le_bytes 4 d.id
    ++ str_bytes d.uri (
        str_bytes d.title (
          str_bytes d.text
            (le_bytes 4 (length d.meta % 2 ^ 32) ++ each_bytes entry_bytes d.meta rest)))

abbrev pub chunk_bytes : Row → List ℕ → List ℕ
chunk_bytes row rest =
    let ch = row.chunk in
    le_bytes 4 ch.id
    ++ (le_bytes 4 ch.doc
        ++ str_bytes ch.text
            (str_bytes ch.context (le_bytes 4 ch.start_line ++ (le_bytes 4 ch.end_line ++ rest))))

write_entry-append :
    (e : List ℕ × List ℕ) (w rest : List ℕ) → write_entry e w ++ rest ≡ w ++ entry_bytes e rest
write_entry-append (k, v) w rest = simp append_assoc

pub write_document-append :
    (d : Document) (w rest : List ℕ) → write_document d w ++ rest ≡ w ++ document_bytes d rest
write_document-append d w rest =
    write_each-append write_entry entry_bytes write_entry-append d.meta _ rest ∙ simp append_assoc

pub write_chunk-append :
    (row : Row) (w rest : List ℕ) → write_chunk row w ++ rest ≡ w ++ chunk_bytes row rest
write_chunk-append row w rest = simp append_assoc

abbrev EntryFits : List ℕ × List ℕ → Type 0
EntryFits e = (length e.0 < 2 ^ 32) × (length e.1 < 2 ^ 32)

-- The fields of a document fit the widths of the format, and the metadata are a map.
pub record DocumentFits (d : Document) : Type 0 where
  pub id_fits : d.id < 2 ^ 32
  pub uri_fits : length d.uri < 2 ^ 32
  pub title_fits : length d.title < 2 ^ 32
  pub text_fits : length d.text < 2 ^ 32
  pub meta_fits : length d.meta < 2 ^ 32
  pub entries_fit : All EntryFits d.meta
  pub meta_sorted : IsSorted text_order d.meta

pub record RowFits (row : Row) : Type 0 where
  pub id_fits : row.chunk.id < 2 ^ 32
  pub doc_fits : row.chunk.doc < 2 ^ 32
  pub text_fits : length row.chunk.text < 2 ^ 32
  pub context_fits : length row.chunk.context < 2 ^ 32
  pub start_fits : row.chunk.start_line < 2 ^ 32
  pub end_fits : row.chunk.end_line < 2 ^ 32

read_entry-entries :
    (m : Metadata) (rest : List ℕ) (b : Bool)
    → IsSorted text_order m
    → All EntryFits m
    → repeat_read (length m) read_entry [] (at (each_bytes entry_bytes m rest) b)
      ≡ (some m, at rest b)
unfolding read_entry
read_entry-entries m rest b s h =
    repeat_read-each_bytes read_entry entry_bytes (λ l. IsSorted text_order l × All EntryFits l) b
      (λ done xs (k, v) r q.
        let fits = All-middle EntryFits done (k, v) xs q.1 in
        read_str-then _ k _ b fits.0 (
          read_str-then _ v _ b fits.1 (
            rw (insert_or_assign_last text_order k v done (Below-middle text_order done k v xs q.0))
              refl)))
      m [] rest (s, h)

pub read_document-bytes :
    (done : List Document) (d : Document) (rest : List ℕ) (b : Bool)
    → DocumentFits d
    → read_document done (at (document_bytes d rest) b) ≡ (some (done ++ d ∷ []), at rest b)
unfolding read_document
read_document-bytes done d rest b h =
    let count : length d.meta % 2 ^ 32 ≡ length d.meta = omega (arith, h.meta_fits) in
    rw count (
      read_u-then _ 4 d.id _ b (omega (arith, h.id_fits)) (
        read_str-then _ d.uri _ b h.uri_fits (
          read_str-then _ d.title _ b h.title_fits (
            read_str-then _ d.text _ b h.text_fits (
              read_u-then _ 4 (length d.meta) _ b (omega (arith, h.meta_fits)) (
                >>=-then _ (repeat_read (length d.meta) read_entry [])
                  (read_entry-entries d.meta rest b h.meta_sorted h.entries_fit) refl))))))

-- The row before its embedding is read.
abbrev pub plain : Row → Row
plain row = record { chunk = row.chunk; embedding = [] }

abbrev pub plain_rows : List Row → List Row
plain_rows [] = []
plain_rows (row ∷ rows) = plain row ∷ plain_rows rows

pub read_chunk-bytes :
    (done : List Row) (row : Row) (rest : List ℕ) (b : Bool)
    → RowFits row
    → read_chunk done (at (chunk_bytes row rest) b) ≡ (some (done ++ plain row ∷ []), at rest b)
unfolding read_chunk
read_chunk-bytes done row rest b h =
    let ch = row.chunk in
    read_u-then _ 4 ch.id _ b (omega (arith, h.id_fits)) (
      read_u-then _ 4 ch.doc _ b (omega (arith, h.doc_fits)) (
        read_str-then _ ch.text _ b h.text_fits (
          read_str-then _ ch.context _ b h.context_fits (
            read_u-then _ 4 ch.start_line _ b (omega (arith, h.start_fits))
              (read_u-then _ 4 ch.end_line _ b (omega (arith, h.end_fits)) refl)))))
