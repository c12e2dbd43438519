-- ===== src/Ingest.antt =====
-- internal/ingest: the write path.
pub mod Writer
pub mod Loop
pub mod Visitor
pub mod Enrich
pub mod Collector
