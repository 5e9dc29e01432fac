-- ===== src/Wiki.antt =====
-- The wiki pipeline, src/memline/wiki.
pub mod Batch
pub mod Adjudication
pub mod Cursor
pub mod Related
