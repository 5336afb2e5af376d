-- ===== src/Lib.antt =====
-- The parts of rag-cpp, a library for retrieval-augmented generation, that keep and prepare text:
-- its corpus, its storage format, its write-ahead log, its inverted index, its caches, its
-- tokenizers, its chunkers and its readers of documents. The corpus chunks a document (Text,
-- Loaders), adds the chunks to the inverted index (Lexical), logs the change first (Store/Wal) and is
-- stored in a container (Store).
--
-- A byte is a natural number and a `std::string` the list of its bytes; the arithmetic of 32 and 64
-- bits is written out where it can wrap. `std::map` and `std::unordered_map` are association lists.
-- A message beside an error kind is left out.
--
-- Common: tests on numbers, lists, and sorted maps. Core: include/rag/core/types.hpp and
-- document.hpp, with the decimal numerals of `std::to_string`.
--
-- Store/Format: `Writer` and `Reader` of include/rag/store/format.hpp. A read is a function from the
-- reader to a result and the reader after it. Store/Crc: `crc32`. Store/Container: `Container` of
-- src/store/container.cpp, `serialize` and `parse`; Layout, RoundTrip and Bounds are about its bytes.
-- Store/Replace: `write_file` and `read_file`, over the destination and the temporary file, with the
-- answers of the system as arguments.
-- Store/Wal: records, frames and `Wal::replay` of src/store/wal.cpp; Store/Wal/Log: the class `Wal`
-- over a file, where a `Disk` is the bytes of the file and the bytes that the device holds, and the
-- answers of `write`, `fsync`, `fcntl`, `open` and `ftruncate` are arguments. A log that is replayed
-- is the file that a crash leaves: the stable bytes, and some of what was written since, where the
-- body of the last record may be damaged; other damage is not modelled. Replay runs on fuel, one
-- more than the file's length, which is enough since a record takes at least 12 bytes.
--
-- Lexical/Bm25: the inverted index of src/lexical/bm25.cpp without its scores: postings, lengths, term
-- coverage and the stored form. The walk over a posting list and the candidates runs on fuel, both
-- lengths together, since each round leaves one item behind.
--
-- Index/Corpus: `Corpus` of src/index/corpus.cpp, without an embedder and a graph. `Contents` are its
-- members but for the log; Logged has the operations around the log, Steps the step relation
-- that they follow, Valid the well-formed contents, Live, Replacing and Upsert the list of live
-- documents that the corpus stands for. Group is about the ingestion of several documents, Count
-- about the number of live ones. Apply, Settled and Session are about the replay of the log: a
-- session is a data type of calls. Snapshot: the sections of `snapshot_locked` and `load`; Persist:
-- `save` and `checkpoint` over the files. Query: what is read by an id. The chunker is the interface
-- `Ingest`, which Fixed fills with `chunk_document`. The deleted ids are a list without repetition.
--
-- Cache: `LruCache` and the keys of the three caches of include/rag/cache/cache.hpp. The iterator
-- that an entry keeps is its key. Floats are not modelled, so that the values are of any type.
--
-- Text/Stopwords, Text/Porter, Text/Tokenizer: src/text/tokenizer.cpp. The stemmer is one function
-- for each step of `porter_stem`; `measure` runs on fuel, two more than its bound. Text/Chunker:
-- `chunk_document` of src/text/chunker.cpp; the outer loop runs on fuel, the number of lines, and
-- `none` is a loop that does not end; the overlap's sum and difference wrap as a `size_t` does.
--
-- Text/Contextual: src/text/contextual.cpp, with the language model a parameter.
--
-- Dense/Wordpiece: include/rag/dense/wordpiece.hpp, with the vocabulary of a vocab.txt; the loop over
-- a word runs on fuel, the word's length.
--
-- Loaders/Csv: `load_csv_text` of src/loaders/csv.cpp; a position is the text that is left, and the
-- loop over the rows runs on fuel, one more than the text's length, since a record takes a byte.
-- Loaders/CodeChunker: `chunk_code` of src/loaders/code_chunker.cpp; the fixed windows run on fuel,
-- the number of lines. Plugin/Registry: include/rag/plugin/registry.hpp, over any kind of JSON value.
--
-- Documents in archives, src/loaders/ooxml.cpp. Loaders/Bits: `rd16`, `rd32` and `BitReader`, where a
-- read is a function from the reader to a value and the reader after it, to the error, or to a read
-- outside of an array. Loaders/Huffman: `build` and `decode`. Loaders/Inflate: `inflate_raw`; its
-- loops run on fuel, the number of bits of the input and one, since each round takes a bit.
-- Loaders/Zip: `zip_entries`, `zip_read` and `zip_read_name`. Loaders/Xml: `ooxml_xml_to_text`, on
-- fuel, the number of bytes. Loaders/Ooxml: Word and Excel; Loaders/Documents: PowerPoint,
-- OpenDocument, and the choice among Office formats; Loaders/Epub: EPUB and
-- `zip_document_to_text`. A loop over a text runs on fuel, its length and one, since each round takes
-- a byte; without fuel it gives `none`. Loaders/Html: `html_to_text` of src/loaders/loaders.cpp, which
-- EPUB uses; fuel is the text's length. `strtoul` and `strtol` of the C library are parameters. Where
-- `std::sort` meets two slides of one number, the model keeps their order.
--
-- Not modelled: everything on floats (the scores, the embedders, the vector indexes), the
-- lexical search of a corpus, whose ranking is on floats, the configuration in the META section of
-- a corpus, which is JSON, the sweep of temporary files that a dead process left, the readers of RTF
-- and plain text with the choice by extension (src/loaders/loaders.cpp, extract.cpp, structure.cpp),
-- the network, the plugins, and the language models.
pub mod Common
pub mod Core
pub mod Store
pub mod Cache
pub mod Text
pub mod Index
pub mod Lexical
pub mod Dense
pub mod Loaders
pub mod Plugin
pub mod Tests
