-- ===== src/Indexer.antt =====
-- The indexing loop of one chain and protocol, and its stores, of internal/indexer.
pub mod Cursors
pub mod Hashes
pub mod Fork
pub mod Storage
pub mod Processor
pub mod Start
