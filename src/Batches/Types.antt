-- ===== src/Batches/Types.antt =====
-- The shapes that the batch service returns, and how it reads them from the rows
-- (internal/domain/batches/service.go and post.go).
use bcars_portal.Base.{
  ℕ, String, Bool, true, false, Option, none, some, List, [], map, ◌==◌, ◌&&◌, if◌then◌else◌,
}
use bcars_portal.Base.Int.{ℤ, pos_part, neg_part}
use bcars_portal.Outcome.{batch_not_open}
use bcars_portal.Store.Rows.{
  PaymentBatch, PaymentBatchEntry, Payment, CoverageEvent, BatchState, EntryKind, ReasonKind,
}
use bcars_portal.Store.Tx.{Tx, pure, fail, ◌>>=◌, text_of, id_of, cents_of}
use bcars_portal.Store.BatchQueries.{get_payment_batch, is_open}
use bcars_portal.Store.EntryQueries.{Totals, get_payment_batch_totals, list_payment_batch_entries}

pub record Entry : Type 0 where
  pub id : ℕ
  pub batch_id : ℕ
  pub membership_id : ℕ
  pub sequence : ℕ
  pub amount_cents : ℤ
  pub method : String
  pub reference : String
  pub received_on : String
  pub received_by_officer : String
  pub paid_through : String
  pub treasurer_note : String
  pub version : ℕ
  pub created_at : String
  pub updated_at : String

pub record Batch : Type 0 where
  pub id : ℕ
  pub label : String
  pub state : BatchState
  pub totals : Totals
  pub default_amount_cents : ℤ
  pub default_paid_through : String
  pub opened_by_user_id : ℕ
  pub opened_at : String
  pub posted_by_user_id : ℕ
  pub posted_at : String
  pub abandoned_by_user_id : ℕ
  pub abandoned_at : String
  pub abandon_reason : String
  pub worksheet_run_id : ℕ
  pub version : ℕ
  pub created_at : String
  pub updated_at : String
  pub entries : List Entry

-- the domain's `Payment`
pub record LedgerPayment : Type 0 where
  pub id : ℕ
  pub membership_id : ℕ
  pub batch_id : ℕ
  pub amount_cents : ℤ
  pub method : String
  pub reference : String
  pub received_on : String
  pub received_by_officer : String
  pub entered_by_user_id : ℕ
  pub entered_at : String
  pub receipt_code : String
  pub entry_kind : EntryKind
  pub treasurer_note : String
  pub created_at : String

pub record Coverage : Type 0 where
  pub id : ℕ
  pub membership_id : ℕ
  pub paid_through : String
  pub reason_kind : ReasonKind
  pub payment_id : ℕ
  pub supersedes_event_id : ℕ
  pub decided_by_user_id : ℕ
  pub decided_at : String

pub record Posted : Type 0 where
  pub batch : Batch
  pub payments : List LedgerPayment
  pub coverage : List Coverage

-- `entryFromRow`
unfoldable pub entry_from_row : PaymentBatchEntry → Entry
entry_from_row e = record {
  id = e.id;
  batch_id = e.batch_id;
  membership_id = e.membership_id;
  sequence = e.sequence;
  amount_cents = e.amount_cents;
  method = e.method;
  reference = text_of e.reference;
  received_on = e.received_on;
  received_by_officer = text_of e.received_by_officer;
  paid_through = e.paid_through;
  treasurer_note = text_of e.treasurer_note;
  version = e.version;
  created_at = e.created_at;
  updated_at = e.updated_at;
}

-- `paymentFromRow`
unfoldable pub payment_from_row : Payment → LedgerPayment
payment_from_row p = record {
  id = p.id;
  membership_id = p.membership_id;
  batch_id = id_of p.batch_id;
  amount_cents = p.amount_cents;
  method = p.method;
  reference = text_of p.reference;
  received_on = p.received_on;
  received_by_officer = text_of p.received_by_officer;
  entered_by_user_id = p.entered_by;
  entered_at = p.entered_at;
  receipt_code = p.receipt_code;
  entry_kind = p.entry_kind;
  treasurer_note = text_of p.treasurer_note;
  created_at = p.created_at;
}

-- `coverageFromRow`
unfoldable pub coverage_from_row : CoverageEvent → Coverage
coverage_from_row c = record {
  id = c.id;
  membership_id = c.membership_id;
  paid_through = c.paid_through;
  reason_kind = c.reason_kind;
  payment_id = id_of c.payment_id;
  supersedes_event_id = id_of c.supersedes_event_id;
  decided_by_user_id = id_of c.decided_by;
  decided_at = c.decided_at;
}

abbrev pub batch_from_row : PaymentBatch → Totals → List Entry → Batch
batch_from_row row totals entries = record {
  id = row.id;
  label = row.label;
  state = row.state;
  totals = totals;
  default_amount_cents = cents_of row.default_amount_cents;
  default_paid_through = text_of row.default_paid_through;
  opened_by_user_id = row.opened_by;
  opened_at = row.opened_at;
  posted_by_user_id = id_of row.posted_by;
  posted_at = text_of row.posted_at;
  abandoned_by_user_id = id_of row.abandoned_by;
  abandoned_at = text_of row.abandoned_at;
  abandon_reason = text_of row.abandon_reason;
  worksheet_run_id = id_of row.worksheet_run_id;
  version = row.version;
  created_at = row.created_at;
  updated_at = row.updated_at;
  entries = entries;
}

abbrev pub entries_if : Bool → ℕ → Tx (List Entry)
entries_if false batch_id = pure []
entries_if true batch_id = do
  rows ← list_payment_batch_entries batch_id
  pure (map entry_from_row rows)

-- `assemble`
unfoldable pub assemble : PaymentBatch → Bool → Tx Batch
assemble row with_entries = do
  totals ← get_payment_batch_totals row.id
  entries ← entries_if with_entries row.id
  pure (batch_from_row row totals entries)

-- `load`
unfoldable pub load : ℕ → Bool → Tx Batch
load id with_entries = do row ← get_payment_batch id; assemble row with_entries

-- `requireOpen`
unfoldable pub require_open : ℕ → Tx (Unit {0})
require_open id = do
  row ← get_payment_batch id
  if is_open row.state then pure tt else fail batch_not_open

-- `nullInt`
abbrev pub null_int : ℤ → Option ℤ
null_int v = if pos_part v == 0 && neg_part v == 0 then none else some v
