-- ===== src/Index/Corpus/Fixed.antt =====
-- The fixed windows (`Chunking::fixed`) as the chunker of a corpus. Where `chunk_document` does not end
-- there are no chunks.
use rag_cpp.Common.{
  ℕ, zero, suc, ◌≡◌, refl, Bool, Option, none, some, List, [], length, drop, ltb, All, All-append,
  Bool-cases, inl, inr,
}
use rag_cpp.Core.{Chunk, is_empty}
use rag_cpp.Text.Lines.{split_lines, trim_end}
use rag_cpp.Text.Contextual.{Contextualizer}
use rag_cpp.Text.Chunker.{
  ChunkOptions, Window, fill, opened, cleared, emitted, next_start, prepend, chunk_loop,
  chunk_document,
}
use rag_cpp.Index.Corpus.{Document, Ingest}

abbrev pub or_no_chunks : Option (List Chunk) → List Chunk
or_no_chunks none = []
or_no_chunks (some chs) = chs

abbrev pub OfDocument : ℕ → Chunk → Type 0
OfDocument id ch = ch.doc ≡ id

emitted-OfDocument : (id start : ℕ) (w : Window) → All (OfDocument id) (emitted id start w)
unfolding emitted
emitted-OfDocument id start w = elim (Bool-cases (is_empty (trim_end w.chunk_text))) [
  | inl e ↦ rw e tt
  | inr e ↦ rw e (refl, tt)
]

prepend-OfDocument :
    (id : ℕ) (chs : List Chunk) (o : Option (List Chunk))
    → All (OfDocument id) chs
    → All (OfDocument id) (or_no_chunks o)
    → All (OfDocument id) (or_no_chunks (prepend chs o))
unfolding prepend
prepend-OfDocument id chs none h k = tt
prepend-OfDocument id chs (some more) h k = All-append (OfDocument id) chs more h k

chunk_loop-OfDocument :
    (f id : ℕ) (opts : ChunkOptions) (lines : List (List ℕ)) (i : ℕ) (crumb : List (List ℕ))
    → All (OfDocument id) (or_no_chunks (chunk_loop f id opts lines i crumb))
unfolding chunk_loop
chunk_loop-OfDocument zero id opts lines i crumb = elim (Bool-cases (ltb i (length lines))) [
  | inl e ↦ rw e tt
  | inr e ↦ rw e tt
]
chunk_loop-OfDocument (suc f) id opts lines i crumb = elim (Bool-cases (ltb i (length lines))) [
  | inl e ↦
      let w = fill opts (drop i lines) (opened i crumb) in
      rw e (
        prepend-OfDocument id (emitted id i w) _ (emitted-OfDocument id i w)
          (chunk_loop-OfDocument f id opts lines (next_start opts (length lines) i w.i) w.crumb))
  | inr e ↦ rw e tt
]

pub chunk_document-OfDocument :
    (opts : ChunkOptions) (id : ℕ) (d : Document)
    → All (OfDocument id) (or_no_chunks (chunk_document id d.text opts))
unfolding chunk_document
chunk_document-OfDocument opts id d =
    chunk_loop-OfDocument (length (split_lines d.text)) id opts (split_lines d.text) 0 (cleared 7)

abbrev pub fixed_ingest : ChunkOptions → Bool → Contextualizer → Ingest
fixed_ingest opts contextual contextualizer = record {
  chunks = λ id d. or_no_chunks (chunk_document id d.text opts);
  contextual = contextual;
  contextualizer = contextualizer;
  of_document = chunk_document-OfDocument opts;
}
