-- ===== src/Index.antt =====
-- src/index: the corpus.
pub mod Corpus
