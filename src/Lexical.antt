-- ===== src/Lexical.antt =====
-- include/rag/lexical: the lexical index.
pub mod Bm25
