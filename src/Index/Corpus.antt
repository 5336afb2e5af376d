-- ===== src/Index/Corpus.antt =====
-- The corpus of include/rag/index/corpus.hpp and src/index/corpus.cpp: what it holds, and how
-- documents enter and leave it. The model is of a corpus without an embedder, so that no graph is built
-- (`hnsw_` stays empty). A chunk's borrowed pointer to its document's metadata is `meta_of`, looked
-- up when it is used. `Corpus.Logged` has the operations with the write-ahead log around them.
pub mod Logged
pub mod Valid
pub mod Steps
pub mod Replacing
pub mod Upsert
pub mod Apply
pub mod Settled
pub mod Session
pub mod Snapshot
pub mod Count
pub mod Group
pub mod Persist
pub mod Query
pub mod Fixed
pub mod Live
use rag_cpp.Common.{
  ℕ, ◌+◌, ◌-◌, ◌%◌, ◌^◌, ◌≡◌, Bool, true, false, ◌||◌, Option, none, some, List, [], ◌∷◌, ◌++◌,
  length, get_elem?, All, ltb, leb, ◌==◌, if◌then◌else◌,
}
use rag_cpp.Core.{Chunk, Errc, Result, indexed_text, is_empty, text_eq}
use rag_cpp.Text.Contextual.{Contextualizer, contextualize}
use rag_cpp.Lexical.Bm25.{Bm25Index, add, finalize}

abbrev pub Metadata : Type 0
Metadata = List (List ℕ × List ℕ)

pub record Document : Type 0 where
  pub id : ℕ
  pub uri : List ℕ
  pub title : List ℕ
  pub text : List ℕ
  pub meta : Metadata

-- A chunk with its dense vector, as 32-bit words.
pub record Row : Type 0 where
  pub chunk : Chunk
  pub embedding : List ℕ

pub record DocInput : Type 0 where
  pub uri : List ℕ
  pub text : List ℕ
  pub meta : Metadata
  pub title : List ℕ

-- How a document becomes chunks: the chunker that `cfg_.chunking` selects, with its law, and the
-- policy on contextual retrieval.
pub record Ingest : Type 0 where
  pub chunks : ℕ → Document → List Chunk
  pub contextual : Bool
  pub contextualizer : Contextualizer
  pub of_document : (id : ℕ) (d : Document) → All (λ (ch : Chunk). ch.doc ≡ id) (chunks id d)

-- The members of the class but for the log, which `Logged.Corpus` adds.
pub record Contents : Type 0 where
  pub docs : List Document
  pub rows : List Row
  pub bm25 : Bm25Index
  pub deleted : List ℕ
  pub meta_stale : Bool
  pub dirty : Bool
  pub epoch : ℕ

unfoldable pub new_chunks : Ingest → Document → List Chunk
new_chunks ing d =
    let chunks = ing.chunks d.id d in
    if ing.contextual then contextualize chunks d.text ing.contextualizer else chunks

-- `for (auto& ch : new_chunks)`
unfoldable pub add_chunks : List Chunk → Contents → Contents
add_chunks [] s = s
add_chunks (ch ∷ chs) s =
    let cid = length s.rows % 2 ^ 32 in
    add_chunks chs (record s {
      bm25 = add cid (indexed_text ch) s.bm25;
      rows = s.rows ++ record { chunk = record ch { id = cid }; embedding = [] } ∷ [];
    })

abbrev pub document_of : ℕ → DocInput → Document
document_of did d = record { id = did; uri = d.uri; title = d.title; text = d.text; meta = d.meta }

-- `add_document_locked` behind the log
unfoldable pub insert : Ingest → DocInput → Contents → Contents
insert ing d s =
    let doc = document_of (length s.docs % 2 ^ 32) d in
    let added = add_chunks (new_chunks ing doc) (record s { docs = s.docs ++ doc ∷ [] }) in
    record added { meta_stale = true; dirty = true; epoch = (added.epoch + 1) % 2 ^ 64 }

abbrev pub contains_id : ℕ → List ℕ → Bool
contains_id id [] = false
contains_id id (i ∷ ids) = (id == i) || contains_id id ids

unfoldable pub is_deleted : ℕ → Contents → Bool
is_deleted id s = contains_id id s.deleted

unfoldable pub live_document_count : Contents → ℕ
live_document_count s = length s.docs - length s.deleted

unfoldable pub find_document : List ℕ → List ℕ → List Document → Option ℕ
find_document deleted uri [] = none
find_document deleted uri (d ∷ docs) =
    if contains_id d.id deleted
    then find_document deleted uri docs
    else if text_eq d.uri uri
    then some d.id
    else find_document deleted uri docs

unfoldable pub find_by_uri : List ℕ → Contents → Option ℕ
find_by_uri uri s = if is_empty uri then none else find_document s.deleted uri s.docs

-- The pointers are good again.
unfoldable pub ensure_linked : Contents → Contents
ensure_linked s = record s { meta_stale = false }

-- `id.get() >= docs_.size() || deleted_docs_.count(id.get())`
unfoldable pub is_unknown : ℕ → Contents → Bool
is_unknown id s = leb (length s.docs) id || is_deleted id s

-- `remove_document_locked` behind its check and the log
unfoldable pub tombstone : ℕ → Contents → Contents
tombstone id s = record s { deleted = id ∷ s.deleted; epoch = (s.epoch + 1) % 2 ^ 64 }

unfoldable pub build : Contents → Contents
build s =
    let linked = ensure_linked s in
    record linked {
      bm25 = finalize linked.bm25;
      dirty = false;
      epoch = (linked.epoch + 1) % 2 ^ 64;
    }

abbrev pub no_contents : Bm25Index → Contents
no_contents idx = record {
  docs = [];
  rows = [];
  bm25 = idx;
  deleted = [];
  meta_stale = false;
  dirty = false;
  epoch = 0;
}
