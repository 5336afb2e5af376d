-- ===== src/Loaders.antt =====
-- src/loaders: the readers of documents that need no other library.
pub mod Csv
pub mod CodeChunker
pub mod Bits
pub mod Huffman
pub mod Inflate
pub mod Zip
pub mod Xml
pub mod Html
pub mod Ooxml
pub mod Documents
pub mod Epub
