-- ===== src/Imports.antt =====
-- internal/domain/importd: the import of a roster from Groups.io.
pub mod Dues
pub mod Found
pub mod Normalize
pub mod Lifetime
pub mod Reimport
mod Tests
