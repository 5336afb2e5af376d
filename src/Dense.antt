-- ===== src/Dense.antt =====
-- include/rag/dense: the part of the embedding backends that is no arithmetic on floats.
pub mod Wordpiece
