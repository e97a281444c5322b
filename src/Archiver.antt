-- ===== src/Archiver.antt =====
-- The archiver, of internal/archiver.
pub mod Months
pub mod Records
pub mod Store
pub mod Find
pub mod Cycle
pub mod Objects
pub mod Complete
pub mod Archived
