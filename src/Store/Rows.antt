-- ===== src/Store/Rows.antt =====
-- The rows of internal/db/sqlc/models.go that the treasury reads and writes. An `int64` amount is an
-- integer; identifiers, sequences and versions, which the database assigns from 1 up, are naturals.
-- A `sql.Null…` value is an option.
use bcars_portal.Base.{ℕ, String, Option}
use bcars_portal.Base.Int.{ℤ}

-- internal/domain/batches: StateOpen, StatePosted, StateAbandoned
pub data BatchState : Type 0 where
  state_open state_posted state_abandoned : BatchState

-- internal/domain/batches: EntryKindOriginal, EntryKindReversal, EntryKindReplacement
pub data EntryKind : Type 0 where
  kind_original kind_reversal kind_replacement : EntryKind

-- the values that the schema allows in coverage_events.reason_kind
pub data ReasonKind : Type 0 where
  reason_payment reason_correction reason_adjustment reason_legacy_import reason_import : ReasonKind

pub record PaymentBatch : Type 0 where
  pub id : ℕ
  pub label : String
  pub state : BatchState
  pub default_amount_cents : Option ℤ
  pub default_paid_through : Option String
  pub opened_by : ℕ
  pub opened_at : String
  pub posted_by : Option ℕ
  pub posted_at : Option String
  pub abandoned_by : Option ℕ
  pub abandoned_at : Option String
  pub abandon_reason : Option String
  pub created_at : String
  pub updated_at : String
  pub version : ℕ
  pub worksheet_run_id : Option ℕ

pub record PaymentBatchEntry : Type 0 where
  pub id : ℕ
  pub batch_id : ℕ
  pub membership_id : ℕ
  pub sequence : ℕ
  pub amount_cents : ℤ
  pub method : String
  pub reference : Option String
  pub received_on : String
  pub received_by_officer : Option String
  pub paid_through : String
  pub treasurer_note : Option String
  pub created_at : String
  pub updated_at : String
  pub version : ℕ

pub record Payment : Type 0 where
  pub id : ℕ
  pub membership_id : ℕ
  pub batch_id : Option ℕ
  pub amount_cents : ℤ
  pub method : String
  pub reference : Option String
  pub received_on : String
  pub received_by_officer : Option String
  pub entered_by : ℕ
  pub entered_at : String
  pub receipt_code : String
  pub entry_kind : EntryKind
  pub corrects_payment_id : Option ℕ
  pub treasurer_note : Option String
  pub created_at : String

pub record PaymentCorrection : Type 0 where
  pub id : ℕ
  pub original_payment_id : ℕ
  pub reversal_payment_id : ℕ
  pub replacement_payment_id : ℕ
  pub reason : String
  pub corrected_by : ℕ
  pub corrected_at : String
  pub created_at : String

pub record CoverageEvent : Type 0 where
  pub id : ℕ
  pub membership_id : ℕ
  pub paid_through : String
  pub reason_kind : ReasonKind
  pub reason : Option String
  pub payment_id : Option ℕ
  pub import_run_id : Option ℕ
  pub supersedes_event_id : Option ℕ
  pub source_note : Option String
  pub decided_by : Option ℕ
  pub decided_at : String
  pub created_at : String

pub record IdempotencyRecord : Type 0 where
  pub id : ℕ
  pub actor_user_id : ℕ
  pub operation : String
  pub idempotency_key : String
  pub request_hash : String
  pub resource_kind : Option String
  pub resource_id : Option ℕ
  pub created_at : String

pub record Membership : Type 0 where
  pub id : ℕ
  pub person_id : ℕ
  pub base_type : String
  pub lifecycle : String
  pub joined_on : Option String
  pub ended_on : Option String
  pub created_at : String
  pub updated_at : String
  pub version : ℕ

pub record DuesRate : Type 0 where
  pub year : ℕ
  pub amount_cents : ℤ
  pub note : Option String
  pub set_by : ℕ
  pub set_at : String
  pub created_at : String
  pub updated_at : String
  pub version : ℕ
