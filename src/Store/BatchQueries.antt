-- ===== src/Store/BatchQueries.antt =====
-- internal/db/sqlc/batches.sql.go and treasury.sql.go: draft batches and their entries, and the
-- lookup of a membership (memberships.sql.go).
use bcars_portal.Base.{
  ℕ, ◌+◌, String, Bool, true, false, ◌&&◌, not, Option, none, some, [], ◌∷◌, ◌++◌, find_by,
  update_where, ◌==◌, if◌then◌else◌,
}
use bcars_portal.Base.Int.{ℤ, is_pos}
use bcars_portal.GoText.{is_sql_blank}
use bcars_portal.GoText.Dates.{is_date_glob}
use bcars_portal.Outcome.{ok, err, no_rows, check_failed}
use bcars_portal.Store.Rows.{
  PaymentBatch, Membership, BatchState, state_open, state_posted, state_abandoned,
}
use bcars_portal.Store.Tx.{Db, Tx, one, next_id}

-- GetMembership
unfoldable pub get_membership : ℕ → Tx Membership
get_membership id = one (λ db. find_by (λ m. m.id == id) db.memberships)

abbrev pub find_batch : ℕ → Db → Option PaymentBatch
find_batch id db = find_by (λ b. b.id == id) db.payment_batches

-- GetPaymentBatch
unfoldable pub get_payment_batch : ℕ → Tx PaymentBatch
get_payment_batch id = one (find_batch id)

abbrev pub is_open : BatchState → Bool
is_open state_open = true
is_open _ = false

-- the checks of a column that may be null
abbrev pub null_or {ℓ} : {A : Type ℓ} → (A → Bool) → Option A → Bool
null_or p none = true
null_or p (some a) = p a

pub record CreatePaymentBatchParams : Type 0 where
  pub label : String
  pub default_amount_cents : Option ℤ
  pub default_paid_through : Option String
  pub opened_by : ℕ
  pub opened_at : String

-- the row that CreatePaymentBatch inserts
abbrev pub new_batch : Db → CreatePaymentBatchParams → PaymentBatch
new_batch db arg = record {
  id = next_id (λ b. b.id) db.payment_batches;
  label = arg.label;
  state = state_open;
  default_amount_cents = arg.default_amount_cents;
  default_paid_through = arg.default_paid_through;
  opened_by = arg.opened_by;
  opened_at = arg.opened_at;
  posted_by = none;
  posted_at = none;
  abandoned_by = none;
  abandoned_at = none;
  abandon_reason = none;
  created_at = db.clock.iso_timestamp;
  updated_at = db.clock.iso_timestamp;
  version = 1;
  worksheet_run_id = none;
}

-- the CHECK constraints of payment_batches on the columns that are stated
unfoldable pub batch_checks : String → Option ℤ → Option String → Bool
batch_checks label amount paid_through =
    not (is_sql_blank label) && null_or is_pos amount && null_or is_date_glob paid_through

-- CreatePaymentBatch
unfoldable pub create_payment_batch : CreatePaymentBatchParams → Tx PaymentBatch
create_payment_batch arg db =
    if batch_checks arg.label arg.default_amount_cents arg.default_paid_through
    then ok (
      new_batch db arg,
      record db { payment_batches = db.payment_batches ++ new_batch db arg ∷ [] },
    )
    else err check_failed

-- `UPDATE payment_batches SET … WHERE … RETURNING …`: the changed row, or `sql.ErrNoRows`;
-- `checks` tells whether the new values meet the CHECK constraints
abbrev pub update_batches :
    Bool → (PaymentBatch → Bool) → (PaymentBatch → PaymentBatch) → Tx PaymentBatch
update_batches checks p f db = elim (find_by p db.payment_batches) [
  | none ↦ err no_rows
  | some b ↦
      if checks
      then ok (f b, record db { payment_batches = update_where p f db.payment_batches })
      else err check_failed
]

-- `id = ? AND version = ? AND state = 'open'`
abbrev pub open_at : ℕ → ℕ → PaymentBatch → Bool
open_at id version b = b.id == id && b.version == version && is_open b.state

pub record UpdatePaymentBatchDefaultsParams : Type 0 where
  pub label : String
  pub default_amount_cents : Option ℤ
  pub default_paid_through : Option String
  pub id : ℕ
  pub version : ℕ

-- UpdatePaymentBatchDefaults
unfoldable pub update_payment_batch_defaults : UpdatePaymentBatchDefaultsParams → Tx PaymentBatch
update_payment_batch_defaults arg db =
    update_batches (batch_checks arg.label arg.default_amount_cents arg.default_paid_through)
      (open_at arg.id arg.version)
      (λ b. record b {
        label = arg.label;
        default_amount_cents = arg.default_amount_cents;
        default_paid_through = arg.default_paid_through;
        version = b.version + 1;
        updated_at = db.clock.iso_timestamp;
      })
      db

-- TouchPaymentBatch
unfoldable pub touch_payment_batch : ℕ → Tx PaymentBatch
touch_payment_batch id db =
    update_batches true (λ b. b.id == id && is_open b.state)
      (λ b. record b { version = b.version + 1; updated_at = db.clock.iso_timestamp }) db

-- MarkPaymentBatchPosted
unfoldable pub mark_payment_batch_posted : ℕ → String → ℕ → ℕ → Tx PaymentBatch
mark_payment_batch_posted posted_by posted_at id version db =
    update_batches true (open_at id version)
      (λ b. record b {
        state = state_posted;
        posted_by = some posted_by;
        posted_at = some posted_at;
        version = b.version + 1;
        updated_at = db.clock.iso_timestamp;
      })
      db

-- MarkPaymentBatchAbandoned
unfoldable pub mark_payment_batch_abandoned : ℕ → String → Option String → ℕ → ℕ → Tx PaymentBatch
mark_payment_batch_abandoned abandoned_by abandoned_at reason id version db =
    update_batches true (open_at id version)
      (λ b. record b {
        state = state_abandoned;
        abandoned_by = some abandoned_by;
        abandoned_at = some abandoned_at;
        abandon_reason = reason;
        version = b.version + 1;
        updated_at = db.clock.iso_timestamp;
      })
      db
