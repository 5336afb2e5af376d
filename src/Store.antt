-- ===== src/Store.antt =====
-- include/rag/store and src/store: the byte format, the `.ragdb` container and the write-ahead log.
pub mod Format
pub mod Crc
pub mod Container
pub mod Wal
pub mod Replace
