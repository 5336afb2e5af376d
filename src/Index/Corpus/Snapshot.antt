-- ===== src/Index/Corpus/Snapshot.antt =====
-- The sections that `snapshot_locked` and `load` of src/index/corpus.cpp write and read, for a corpus
-- without a graph. The text of the META section is an argument, and what `load` takes from
-- that section (the configuration) is not part of the contents.
pub mod Fields
pub mod Embeddings
pub mod Deleted
pub mod RoundTrip
use rag_cpp.Common.{
  ℕ, zero, suc, ◌+◌, ◌*◌, ◌%◌, ◌^◌, Bool, true, false, not, Option, none, some, List, [], ◌∷◌, ◌++◌,
  length, take, drop, ltb, ◌==◌, if◌then◌else◌,
}
use rag_cpp.Common.SortedMap.{insert_or_assign}
use rag_cpp.Core.{Chunk, Errc, Result, is_empty, text_order}
use rag_cpp.Store.Format.{
  le_value, write_u, write_str, write_each, Reader, Read, reader, pure, read_u, read_str,
  read_bytes, repeat_read, ◌>>=◌, continue,
}
use rag_cpp.Store.Container.{Container, empty, put_raw, get, set_flags, to_result}
use rag_cpp.Lexical.Bm25.{Bm25Index, serialize_index, deserialize_index, read_result}
use rag_cpp.Index.Corpus.{Metadata, Document, Row, Contents, contains_id, no_contents}

-- `store::Tag`
abbrev pub tag_meta : ℕ
tag_meta = 0x4154454D

abbrev pub tag_docs : ℕ
tag_docs = 0x53434F44

abbrev pub tag_chunks : ℕ
tag_chunks = 0x4B4E4843

abbrev pub tag_embed : ℕ
tag_embed = 0x42444D45

abbrev pub tag_bm25 : ℕ
tag_bm25 = 0x35324D42

abbrev pub tag_tomb : ℕ
tag_tomb = 0x424D4F54

abbrev pub has_embeddings : ℕ
has_embeddings = 2

abbrev pub write_entry : List ℕ × List ℕ → List ℕ → List ℕ
write_entry (k, v) w = write_str v (write_str k w)

abbrev pub write_document : Document → List ℕ → List ℕ
write_document d w = write_each write_entry d.meta (
    write_u 4 (length d.meta % 2 ^ 32)
      (write_str d.text (write_str d.title (write_str d.uri (write_u 4 d.id w)))))

abbrev pub write_chunk : Row → List ℕ → List ℕ
write_chunk row w =
    let ch = row.chunk in
    write_u 4 ch.end_line (
      write_u 4 ch.start_line
        (write_str ch.context (write_str ch.text (write_u 4 ch.doc (write_u 4 ch.id w)))))

-- The floats of an embedding, in the order of their bytes.
abbrev pub write_embedding : Row → List ℕ → List ℕ
write_embedding row w =
    write_each (write_u 4) row.embedding (write_u 4 (length row.embedding % 2 ^ 32) w)

unfoldable pub any_embedding : List Row → Bool
any_embedding [] = false
any_embedding (row ∷ rows) = if is_empty row.embedding then any_embedding rows else true

-- `std::sort` on the ids
unfoldable pub insert_id : ℕ → List ℕ → List ℕ
insert_id i [] = i ∷ []
insert_id i (j ∷ ids) = let rest = insert_id i ids in if ltb j i then j ∷ rest else i ∷ j ∷ ids

unfoldable pub sorted_ids : List ℕ → List ℕ
sorted_ids [] = []
sorted_ids (i ∷ ids) = insert_id i (sorted_ids ids)

abbrev pub counted : {X : Type 0} → (X → List ℕ → List ℕ) → List X → List ℕ
counted write xs = write_each write xs (write_u 4 (length xs % 2 ^ 32) [])

unfoldable pub put_embeddings : List Row → Container → Container
put_embeddings rows c =
    if any_embedding rows
    then set_flags has_embeddings (put_raw tag_embed (write_each write_embedding rows []) c)
    else c

unfoldable pub put_deleted : List ℕ → Container → Container
put_deleted deleted c =
    if is_empty deleted then c else put_raw tag_tomb (counted (write_u 4) (sorted_ids deleted)) c

-- `meta` is the text of the configuration.
unfoldable pub snapshot_locked : List ℕ → Contents → Container
snapshot_locked meta s =
    let with_docs =
      put_raw tag_docs (counted write_document s.docs) (put_raw tag_meta meta empty) in
    let with_chunks = put_raw tag_chunks (counted write_chunk s.rows) with_docs in
    let with_bm25 = put_raw tag_bm25 (serialize_index s.bm25) (put_embeddings s.rows with_chunks) in
    put_deleted s.deleted with_bm25

-- `d.meta[k] = v;`
unfoldable pub read_entry : Metadata → Read Metadata
read_entry m = do k ← read_str; v ← read_str; pure (insert_or_assign text_order k v m)

unfoldable pub read_document : List Document → Read (List Document)
read_document docs = do
  id ← read_u 4
  uri ← read_str
  title ← read_str
  text ← read_str
  mn ← read_u 4
  meta ← repeat_read mn read_entry []
  pure (docs ++ record { id = id; uri = uri; title = title; text = text; meta = meta } ∷ [])

unfoldable pub read_chunk : List Row → Read (List Row)
read_chunk rows = do
  id ← read_u 4
  doc ← read_u 4
  text ← read_str
  context ← read_str
  start_line ← read_u 4
  end_line ← read_u 4
  pure (
      rows
      ++ record {
        chunk = record {
          id = id;
          doc = doc;
          text = text;
          context = context;
          start_line = start_line;
          end_line = end_line;
        };
        embedding = [];
      }
        ∷ [])

-- The words that `memcpy` leaves.
unfoldable pub words : ℕ → List ℕ → List ℕ
words zero raw = []
words (suc n) raw = le_value (take 4 raw) ∷ words n (drop 4 raw)

-- The loop over the rows: it ends early, and without an error, where no length can be read.
abbrev pub embed_next :
    Row → List Row → Read (List Row) → Option ℕ × Reader → Option (List Row) × Reader
embed_next row rows go (none, r) = (some (row ∷ rows), r)
embed_next row rows go (some dim, r) =
    if dim == 0
    then continue (go r) (λ rest. pure (row ∷ rest))
    else continue (read_bytes (dim * 4) r)
        (λ raw. go >>= λ rest. pure (record row { embedding = words dim raw } ∷ rest))

unfoldable pub read_embeddings : List Row → Read (List Row)
read_embeddings [] r = (some [], r)
read_embeddings (row ∷ rows) r = embed_next row rows (read_embeddings rows) (read_u 4 r)

-- `c.deleted_docs_.insert(id);`
unfoldable pub read_deleted : List ℕ → Read (List ℕ)
read_deleted ids = do id ← read_u 4; pure (if contains_id id ids then ids else ids ++ id ∷ [])

abbrev pub read_counted : {X : Type 0} → (List X → Read (List X)) → Read (List X)
read_counted f = do n ← read_u 4; repeat_read n f []

-- A section that is absent leaves what is there.
abbrev pub section : {X : Type 0} → Option (List ℕ) → Read X → X → Result X
section none f x = Result.value x
section (some payload) f x = read_result (f (reader payload)).0

abbrev pub bm25_section : Option (List ℕ) → Bm25Index → Result Bm25Index
bm25_section none idx = Result.value idx
bm25_section (some payload) idx = deserialize_index payload

abbrev pub then_load : {X Y : Type 0} → Result X → (X → Result Y) → Result Y
then_load (Result.value x) k = k x
then_load (Result.fail e) k = Result.fail e

-- `load` from the container that `read_file` gave, for one without a graph; `idx` is the index of a new
-- corpus.
unfoldable pub load : Bm25Index → Container → Result Contents
load idx c = then_load (section (get tag_docs c) (read_counted read_document) []) (λ docs.
    then_load (section (get tag_chunks c) (read_counted read_chunk) []) (λ plain.
      then_load (section (get tag_embed c) (read_embeddings plain) plain) (λ rows.
        then_load (bm25_section (get tag_bm25 c) idx) (λ bm25.
          then_load (section (get tag_tomb c) (read_counted read_deleted) []) (λ deleted.
            Result.value
              (record (no_contents bm25) { docs = docs; rows = rows; deleted = deleted }))))))
