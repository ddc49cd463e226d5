-- ===== src/Lib.antt =====
-- The treasury and the member requests of the BCARS members portal: the capability policy, draft
-- payment batches, posting, corrections, coverage and dues rates, the requests that members make and
-- officers review, and the rate limiter, over a model of the SQLite tables they write.
--
-- An operation of a service runs as follows. It asks the capability policy (internal/domain/authz),
-- checks its arguments, opens a transaction, claims the idempotency key of the request
-- (internal/domain/idem), runs statements of internal/db/sqlc, and commits, or rolls back when any of
-- them fails.
--
-- The files:
--   Base            lists, natural numbers and integers the other files share, and their laws
--   GoText          what Go's fmt, strings and time packages and SQLite's text functions do to texts
--   Outcome         errors as values, and the result of code that can fail
--   Authz           internal/domain/authz: Authorize, with the catalogue in Authz/Catalog
--   Store           internal/db/sqlc and internal/db/migrations: the tables as
--                   one record of lists, a statement as a function from tables to a result and tables,
--                   with the constraints an insert can break; Store/Tx has transactions and do blocks,
--                   Store/Follows and Store/Appends the relations between the tables before and after
--   Idem            internal/domain/idem: Hash, Begin, Complete
--   Batches         internal/domain/batches: Draft and Entries are service.go, Post is post.go, Correct
--                   is correct.go, Input and Types the argument and result types of the three;
--                   Batches/Chain has the links between payments that a correction makes
--   Dues            internal/domain/dues: AdjustCoverage, GetRate, SetRate; Dues/Standing has the
--                   derived standing of ListDuesStanding, Dues/Suggestions the totals of SuggestFor
--   Requests        the writing requests of the treasury as data, and a history of them
--   Members         internal/domain/members/service.go: Members itself has what a reviewed request is
--                   applied through, Standing persons and memberships, Honorary grants, Notes notes;
--                   Store/Autocommit has the statements that run with no transaction around them
--   ChangeRequests  internal/domain/changerequests: Policy, Types, Validation and Intake are policy.go,
--                   mapping.go and Create, Status has Triage, Resolve and Withdraw, Apply the adapters
--                   of review.go and Review its DecideItem
--   Imports         internal/domain/importd: Normalize is normalize.go, Dues is dues.go
--   RateLimit       internal/ratelimit: Allow and Prune over the log of attempts
--
-- Conventions. A row keeps the column names of internal/db/sqlc/models.go. Identifiers, sequences and
-- versions are naturals, since the database assigns them from 1 up; amounts are integers, and neither
-- wraps around, so the model is exact while values stay within 64 bits. The tables are lists in the
-- order of insertion, and a new row's id is one more than the largest id of its table. A transaction
-- that fails leaves the tables as they were. Requests are handled one after the other: SQLite
-- lets one transaction write at a time, so those that write do not interleave. The clock is a field of
-- the tables that moves between requests, and a time is the two texts the services make of it.
-- SHA-256, in hexadecimal, is a parameter, as are strings.ToLower and strings.ToUpper, the keyed
-- digest of the rate limiter, the decimal digits of Unicode, the texts that the limiter's clock gives,
-- and the hook failBeforeCommit that the tests of post.go set. The tables of users and of import runs
-- are not modelled: a reference to one of them is taken to hold. Faults of the disk, of the connection
-- and of a context that is cancelled are not modelled.
--
-- The loops of effectivePayment and loadCorrected, which follow links between payments, run on as many
-- rounds as the next payment id, which no id reaches; each step goes to a smaller id on the way back
-- and to a larger one on the way forward. When the rounds run out the model gives an error of its own,
-- out_of_rounds. The other loops are structural.
--
-- Not modelled: the HTTP and web layers, sign-in, audit log, mail and metrics, the directory, the
-- parsing, matching and staging of imports, reports, worksheets, and lists of rows that only page
-- through a table.
pub mod Base
pub mod GoText
pub mod Outcome
pub mod Authz
pub mod Store
pub mod Idem
pub mod Batches
pub mod Dues
pub mod Requests
pub mod Members
pub mod ChangeRequests
pub mod RateLimit
pub mod Imports
