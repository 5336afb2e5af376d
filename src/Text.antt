-- ===== src/Text.antt =====
-- src/text: the tokenizer with its stopwords and stemmer, and the prose chunker.
pub mod Stopwords
pub mod Porter
pub mod Tokenizer
pub mod Lines
pub mod Chunker
pub mod Contextual
