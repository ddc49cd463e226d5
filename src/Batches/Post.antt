-- ===== src/Batches/Post.antt =====
-- Posting (internal/domain/batches/post.go): the one transition that turns drafts into money.
pub mod Effect
pub mod Posting
pub mod Retry
pub mod NetTotal
use Prim.Native.String.{◌++◌ as ◌<>◌}
use bcars_portal.Base.{
  ℕ, String, Bool, true, false, not, Option, none, some, List, [], ◌∷◌, ◌++◌, ◌==◌, str_eq,
  if◌then◌else◌, select, length,
}
use bcars_portal.GoText.{format_int, format_padded}
use bcars_portal.Base.Int.{pos}
use bcars_portal.Outcome.{
  Error, guard, batch_not_open, empty_batch, confirmation_required, idempotency_key_required,
}
use bcars_portal.Authz.{Principal, authorize, user_id_of}
use bcars_portal.Store.Rows.{
  PaymentBatch, PaymentBatchEntry, Payment, CoverageEvent, kind_original, reason_payment,
}
use bcars_portal.Store.Tx.{
  Instant, Db, Tx, Action, pure, fail, lift, gets, ◌>>=◌, ◌>>◌, in_tx, after, or_clock, or_stale,
  null_string, text_of,
}
use bcars_portal.Store.BatchQueries.{
  get_membership, get_payment_batch, is_open, create_payment_batch, mark_payment_batch_posted,
}
use bcars_portal.Store.EntryQueries.{list_payment_batch_entries, create_payment_batch_entry}
use bcars_portal.Store.LedgerQueries.{
  CreatePaymentParams, create_payment, list_payments_by_batch, is_id,
}
use bcars_portal.Store.CoverageQueries.{
  CreateCoverageEventParams, create_coverage_event, get_effective_coverage_event,
  list_coverage_events_by_membership,
}
use bcars_portal.Idem.{Env, Claim, hash, begin, complete}
use bcars_portal.Batches.Input.{EntryInput, validate, entry_hash}
use bcars_portal.Batches.Types.{
  LedgerPayment, Coverage, Posted, payment_from_row, coverage_from_row, assemble, null_int,
}

-- OpBatchPost and OpSinglePayent
abbrev pub op_batch_post : String
op_batch_post = "payment-batch-post"

abbrev pub op_single_payment : String
op_single_payment = "payment-single-post"

-- `ReceiptCode`
unfoldable pub receipt_code : ℕ → ℕ → String
receipt_code batch_id sequence =
    "RCPT-" <> format_padded 6 batch_id <> "-" <> format_padded 3 sequence

-- the checks on one row before anything is written
abbrev row_input : PaymentBatchEntry → EntryInput
row_input e = record {
  membership_id = e.membership_id;
  amount_cents = e.amount_cents;
  method = e.method;
  reference = "";
  received_on = e.received_on;
  received_by_officer = "";
  paid_through = e.paid_through;
  treasurer_note = "";
}

unfoldable pub check_entries : List PaymentBatchEntry → Tx (Unit {0})
check_entries [] = pure tt
check_entries (e ∷ es) = do
  lift (validate (row_input e))
  get_membership e.membership_id
  check_entries es

-- the map `latestCoverage`, the latest write in front
abbrev pub Written : Type 0
Written = List (ℕ × ℕ)

abbrev pub written_id : ℕ → Written → Option ℕ
written_id m [] = none
written_id m ((k, v) ∷ w) = if k == m then some v else written_id m w

abbrev pub event_id : Option CoverageEvent → Option ℕ
event_id none = none
event_id (some c) = some c.id

-- `effectiveCoverageID`: the decision written earlier in this batch, or else the effective one
unfoldable pub coverage_id_from : ℕ → Option ℕ → Tx (Option ℕ)
coverage_id_from membership_id (some id) = pure (some id)
coverage_id_from membership_id none = do
  prior ← get_effective_coverage_event membership_id
  pure (event_id prior)

unfoldable pub effective_coverage_id : ℕ → Written → Tx (Option ℕ)
unfolding coverage_id_from
effective_coverage_id membership_id written =
    coverage_id_from membership_id (written_id membership_id written)

-- what the loop writes for one row
abbrev pub payment_params : ℕ → ℕ → String → PaymentBatchEntry → CreatePaymentParams
payment_params actor batch_id entered_at e = record {
  membership_id = e.membership_id;
  batch_id = some batch_id;
  amount_cents = e.amount_cents;
  method = e.method;
  reference = e.reference;
  received_on = e.received_on;
  received_by_officer = e.received_by_officer;
  entered_by = actor;
  entered_at = entered_at;
  receipt_code = receipt_code batch_id e.sequence;
  entry_kind = kind_original;
  corrects_payment_id = none;
  treasurer_note = e.treasurer_note;
}

abbrev pub decided : ℕ → Option ℕ
decided actor = if actor == 0 then none else some actor

abbrev pub coverage_params :
    ℕ → String → PaymentBatchEntry → ℕ → Option ℕ → CreateCoverageEventParams
coverage_params actor entered_at e payment_id supersedes = record {
  membership_id = e.membership_id;
  paid_through = e.paid_through;
  reason_kind = reason_payment;
  reason = some "Granted by a posted payment.";
  payment_id = some payment_id;
  import_run_id = none;
  supersedes_event_id = supersedes;
  source_note = none;
  decided_by = decided actor;
  decided_at = entered_at;
}

-- one turn of the loop
unfoldable pub post_entry :
    ℕ → ℕ → String → PaymentBatchEntry → Written → Tx (Payment × CoverageEvent)
post_entry actor batch_id entered_at e written = do
  payment ← create_payment (payment_params actor batch_id entered_at e)
  supersedes ← effective_coverage_id e.membership_id written
  event ← create_coverage_event (coverage_params actor entered_at e payment.id supersedes)
  pure (payment, event)

abbrev pub Rows : Type 0
Rows = List LedgerPayment × List Coverage

abbrev pub cons_rows : Payment → CoverageEvent → Rows → Rows
cons_rows p c (ps, cs) = (payment_from_row p ∷ ps, coverage_from_row c ∷ cs)

-- the loop over the entries
unfoldable pub post_entries : ℕ → ℕ → String → List PaymentBatchEntry → Written → Tx Rows
post_entries actor batch_id entered_at [] written = pure ([], [])
post_entries actor batch_id entered_at (e ∷ es) written = do
  wrote ← post_entry actor batch_id entered_at e written
  rows ← post_entries actor batch_id entered_at es ((e.membership_id, wrote.1.id) ∷ written)
  pure (cons_rows wrote.0 wrote.1 rows)

-- `if failBeforeCommit != nil { … }`
abbrev pub hook : Option Error → Tx (Unit {0})
hook none = pure tt
hook (some e) = fail e

unfoldable pub require_state : PaymentBatch → Tx (Unit {0})
require_state batch = if is_open batch.state then pure tt else fail batch_not_open

unfoldable pub require_entries : List PaymentBatchEntry → Tx (Unit {0})
require_entries [] = fail empty_batch
require_entries (e ∷ es) = pure tt

-- `postTx` up to the first write: the rows to post, each of them valid
unfoldable pub post_checks : ℕ → Tx (List PaymentBatchEntry)
post_checks batch_id = do
  batch ← get_payment_batch batch_id
  require_state batch
  entries ← list_payment_batch_entries batch_id
  require_entries entries
  check_entries entries
  pure entries

-- `postTx`
unfoldable pub post_tx : Env → ℕ → ℕ → ℕ → Option Instant → Tx Posted
post_tx env actor batch_id expected_version now = do
  entries ← post_checks batch_id
  t ← gets (or_clock now)
  rows ← post_entries actor batch_id t.iso_timestamp entries []
  hook env.fail_before_commit
  posted ← or_stale (mark_payment_batch_posted actor t.iso_timestamp batch_id expected_version)
  out ← assemble posted true
  pure (record { batch = out; payments = rows.0; coverage = rows.1 })

-- the decisions that a payment granted, among its membership's
abbrev pub granted_by : ℕ → List CoverageEvent → List Coverage
granted_by payment_id [] = []
granted_by payment_id (c ∷ cs) =
    let rest = granted_by payment_id cs in
    if is_id c.payment_id payment_id then coverage_from_row c ∷ rest else rest

-- the loop of `loadPosted`
unfoldable pub load_rows : List Payment → Tx Rows
load_rows [] = pure ([], [])
load_rows (p ∷ ps) = do
  events ← list_coverage_events_by_membership p.membership_id
  rows ← load_rows ps
  pure (payment_from_row p ∷ rows.0, granted_by p.id events ++ rows.1)

-- `loadPosted`
unfoldable pub load_posted : ℕ → Tx Posted
load_posted batch_id = do
  row ← get_payment_batch batch_id
  batch ← assemble row true
  payments ← list_payments_by_batch batch_id
  rows ← load_rows payments
  pure (record { batch = batch; payments = rows.0; coverage = rows.1 })

pub record PostParams : Type 0 where
  pub expected_version : ℕ
  pub idempotency_key : String
  pub confirm : Bool

abbrev pub post_hash : Env → ℕ → PostParams → String
post_hash env batch_id params =
    hash env (format_int (pos batch_id) ∷ format_int (pos params.expected_version) ∷ [])

-- the body of `Post` after the claim
unfoldable pub post_claimed : Env → ℕ → ℕ → PostParams → Option Instant → Claim → Tx Posted
post_claimed env actor batch_id params now claim =
    if claim.replay then load_posted claim.resource_id else (do
      out ← post_tx env actor batch_id params.expected_version now
      complete claim "payment_batch" batch_id
      pure out)

-- the transaction of `Post`
unfoldable pub post_body : Env → ℕ → ℕ → PostParams → Option Instant → Tx Posted
post_body env actor batch_id params now = do
  claim ← begin actor op_batch_post params.idempotency_key (post_hash env batch_id params)
  post_claimed env actor batch_id params now claim

-- `Post`
unfoldable pub post : Env → Option Principal → ℕ → PostParams → Option Instant → Action Posted
post env p batch_id params now = after (authorize p "payment.post") (
    after (guard params.confirm confirmation_required) (
      after (guard (not (str_eq params.idempotency_key "")) idempotency_key_required)
        (in_tx (post_body env (user_id_of p) batch_id params now))))

pub record SingleParams : Type 0 where
  pub entry : EntryInput
  pub label : String
  pub idempotency_key : String
  pub confirm : Bool

-- the default label
abbrev pub single_label : SingleParams → Instant → String
single_label params t =
    if str_eq params.label "" then "Single payment " <> t.iso_date else params.label

-- the body of `PostSinglePayment` after the claim
unfoldable pub single_claimed : Env → ℕ → SingleParams → Instant → Claim → Tx Posted
single_claimed env actor params t claim =
    if claim.replay then load_posted claim.resource_id else (do
      get_membership params.entry.membership_id
      batch ← create_payment_batch (record {
        label = single_label params t;
        default_amount_cents = null_int params.entry.amount_cents;
        default_paid_through = null_string params.entry.paid_through;
        opened_by = actor;
        opened_at = t.iso_timestamp;
      })
      create_payment_batch_entry (record {
        batch_id = batch.id;
        membership_id = params.entry.membership_id;
        sequence = 1;
        amount_cents = params.entry.amount_cents;
        method = params.entry.method;
        reference = null_string params.entry.reference;
        received_on = params.entry.received_on;
        received_by_officer = null_string params.entry.received_by_officer;
        paid_through = params.entry.paid_through;
        treasurer_note = null_string params.entry.treasurer_note;
      })
      out ← post_tx env actor batch.id batch.version (some t)
      complete claim "payment_batch" batch.id
      pure out)

-- `PostSinglePayment`
unfoldable pub post_single_payment :
    Env → Option Principal → SingleParams → Option Instant → Action Posted
post_single_payment env p params now = after (authorize p "payment.post") (
    after (guard params.confirm confirmation_required) (
      after (guard (not (str_eq params.idempotency_key "")) idempotency_key_required) (
        after (validate params.entry) (
          in_tx (do
            t ← gets (or_clock now)
            claim ←
                begin (user_id_of p) op_single_payment params.idempotency_key
                  (hash env (entry_hash env params.entry 0 ∷ single_label params t ∷ []))
            single_claimed env (user_id_of p) params t claim)))))
