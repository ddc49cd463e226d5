-- ===== src/Batches.antt =====
-- internal/domain/batches: draft payment batches, posting and corrections.
pub mod Input
pub mod InputLaws
pub mod Types
pub mod Draft
pub mod Entries
pub mod Post
pub mod Correct
pub mod Chain
pub mod Inert
pub mod Reads
pub mod Grows
pub mod TotalLaws
pub mod Example
pub mod Tests
