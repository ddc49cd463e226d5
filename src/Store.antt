-- ===== src/Store.antt =====
-- The database that the treasury services work on: one list of rows for each table, in the order of
-- insertion, and transactions on it.
--
-- A statement either returns a value and the changed tables or fails; `in_tx` is the services' own
-- `inTx` (internal/domain/batches/service.go), by which a failure rolls everything back. A key that
-- SQLite assigns is one more than the largest in the table. The clock stands for both `time.Now()`
-- and SQLite's `strftime(…, 'now')`, and does not move within a request. Storage failures other
-- than those of the schema's constraints, and two requests at once, are not modelled: SQLite runs
-- one writing transaction at a time. The tables of users and import runs are not modelled, so their
-- foreign keys are taken to hold.
pub mod Rows
pub mod DirectoryRows
pub mod Tx
pub mod Updates
pub mod MembershipQueries
pub mod GrantQueries
pub mod NoteQueries
pub mod Autocommit
pub mod Inversions
pub mod BatchQueries
pub mod EntryQueries
pub mod LedgerQueries
pub mod CoverageQueries
pub mod KeyQueries
pub mod DuesQueries
pub mod DirectoryQueries
pub mod ChangeQueries
pub mod ItemQueries
pub mod AttemptQueries
pub mod Follows
pub mod Runs
pub mod Appends
