-- ===== src/Plugin.antt =====
-- include/rag/plugin: the part that is no glue to JSON or to shared libraries.
pub mod Registry
