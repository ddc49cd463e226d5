-- ===== src/Store/Tx.antt =====
-- The tables, and statements and transactions on them.
use bcars_portal.Base.{
  ℕ, suc, String, Option, none, some, Bool, List, max_of, find_by, update_where, if◌then◌else◌,
  str_eq,
}
use bcars_portal.Base.Int.{ℤ, pos}
use bcars_portal.Outcome.{Error, Result, ok, err, no_rows, stale, check_failed}
use bcars_portal.Store.Rows.{
  PaymentBatch, PaymentBatchEntry, Payment, PaymentCorrection, CoverageEvent, IdempotencyRecord,
  Membership, DuesRate,
}
use bcars_portal.Store.DirectoryRows.{
  Person, ContactMethod, VisibilityEvent, SharingEvent, ChangeRequest, ChangeRequestItem,
  RequestAttempt, MembershipApproval, FccVerification, HonoraryGrant, Note, NoteRevision,
}

-- A `time.Time`, as the two texts that the services make of it in UTC: under the layout
-- "2006-01-02", and under "2006-01-02T15:04:05.000Z".
pub record Instant : Type 0 where
  pub iso_date : String
  pub iso_timestamp : String

pub record Db : Type 0 where
  pub clock : Instant
  pub memberships : List Membership
  pub payment_batches : List PaymentBatch
  pub payment_batch_entries : List PaymentBatchEntry
  pub payments : List Payment
  pub payment_corrections : List PaymentCorrection
  pub coverage_events : List CoverageEvent
  pub idempotency_records : List IdempotencyRecord
  pub dues_rates : List DuesRate
  pub persons : List Person
  pub contact_methods : List ContactMethod
  pub visibility_events : List VisibilityEvent
  pub sharing_events : List SharingEvent
  pub change_requests : List ChangeRequest
  pub change_request_items : List ChangeRequestItem
  pub request_attempts : List RequestAttempt
  pub membership_approvals : List MembershipApproval
  pub fcc_verifications : List FccVerification
  pub honorary_grants : List HonoraryGrant
  pub member_notes : List Note
  pub note_revisions : List NoteRevision

-- a statement, or several in one transaction
abbrev pub Tx : Type 0 → Type 0
Tx A = Db → Result (A × Db)

unfoldable pub pure : {A : Type 0} → A → Tx A
pure a db = ok (a, db)

unfoldable pub fail : {A : Type 0} → Error → Tx A
fail e db = err e

-- a check that reads no table
unfoldable pub lift : {A : Type 0} → Result A → Tx A
lift (ok a) db = ok (a, db)
lift (err e) db = err e

-- a query that changes nothing
unfoldable pub gets : {A : Type 0} → (Db → A) → Tx A
gets f db = ok (f db, db)

-- a query that returns one row, or `sql.ErrNoRows`
unfoldable pub one : {A : Type 0} → (Db → Option A) → Tx A
one f db = elim (f db) [ none ↦ err no_rows | some a ↦ ok (a, db) ]

infixl 5 ◌>>=◌ ◌>>◌
-- opening this opens `pure`, `fail`, `lift`, `gets` and `one` too
unfoldable pub ◌>>=◌ : {A B : Type 0} → Tx A → (A → Tx B) → Tx B
unfolding pure fail lift gets one
◌>>=◌ m f db = elim (m db) [ ok (a, db') ↦ f a db' | err e ↦ err e ]

abbrev pub ◌>>◌ : {A B : Type 0} → Tx A → Tx B → Tx B
m >> k = m >>= λ _. k

abbrev pub stale_of : Error → Error
stale_of no_rows = stale
stale_of e = e

-- `if errors.Is(err, sql.ErrNoRows) { return db.ErrStale }`
unfoldable pub or_stale : {A : Type 0} → Tx A → Tx A
or_stale m db = elim (m db) [ ok r ↦ ok r | err e ↦ err (stale_of e) ]

-- what the caller of an operation sees: the answer, and the tables afterwards
abbrev pub Action : Type 0 → Type 0
Action A = Db → Result A × Db

-- how `inTx` ends: `tx.Commit()` after a success, the deferred `tx.Rollback()` after a failure
abbrev pub settle : {A : Type 0} → Result (A × Db) → Db → Result A × Db
settle (ok (a, db')) db = (ok a, db')
settle (err e) db = (err e, db)

unfoldable pub in_tx : {A : Type 0} → Tx A → Action A
in_tx m db = settle (m db) db

-- the checks before a transaction is opened
unfoldable pub after : {A : Type 0} → Result (Unit {0}) → Action A → Action A
after (ok _) m db = m db
after (err e) m db = (err e, db)

-- an operation that opens no transaction and changes nothing
unfoldable pub read_only : {A : Type 0} → Tx A → Action A
read_only m = in_tx m

-- `if now.IsZero() { now = time.Now() }`
abbrev pub or_clock : Option Instant → Db → Instant
or_clock none db = db.clock
or_clock (some t) db = t

-- `nullString`, `nullInt`, and the zero value that a null column is read as
abbrev pub null_string : String → Option String
null_string s = if str_eq s "" then none else some s

abbrev pub text_of : Option String → String
text_of none = ""
text_of (some s) = s

abbrev pub id_of : Option ℕ → ℕ
id_of none = 0
id_of (some n) = n

abbrev pub cents_of : Option ℤ → ℤ
cents_of none = pos 0
cents_of (some c) = c

-- the key of a new row
unfoldable pub next_id : {A : Type 0} → (A → ℕ) → List A → ℕ
next_id key rows = suc (max_of key rows)

-- `UPDATE … WHERE … RETURNING *` on a table that is read by `rows` and written by `set`: the changed
-- row, or `sql.ErrNoRows`; `checks` tells whether the new row meets the CHECK constraints
unfoldable pub update_row :
    {A : Type 0} → (Db → List A) → (List A → Db → Db) → (A → Bool) → (A → A) → (A → Bool) → Tx A
update_row rows set checks f p db = elim (find_by p (rows db)) [
  | none ↦ err no_rows
  | some a ↦
      if checks (f a) then ok (f a, set (update_where p f (rows db)) db) else err check_failed
]

-- an error under another name: `if errors.Is(err, sql.ErrNoRows) { return e }`
abbrev pub rename_missing : Error → Error → Error
rename_missing e no_rows = e
rename_missing e other = other

unfoldable pub or_missing : {A : Type 0} → Error → Tx A → Tx A
or_missing e m db = elim (m db) [ ok r ↦ ok r | err x ↦ err (rename_missing e x) ]
