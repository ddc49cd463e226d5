-- ===== src/Batches/Entries.antt =====
-- The draft rows of an open batch (internal/domain/batches/service.go): AddEntry, UpdateEntry,
-- DeleteEntry.
use bcars_portal.Base.{ℕ, String, true, Option, ◌==◌, if◌then◌else◌}
use bcars_portal.Outcome.{entry_not_in_batch}
use bcars_portal.Authz.{Principal, authorize, user_id_of}
use bcars_portal.Store.Rows.{PaymentBatchEntry}
use bcars_portal.Store.Tx.{Tx, Action, pure, fail, ◌>>=◌, ◌>>◌, in_tx, after, or_stale, null_string}
use bcars_portal.Store.BatchQueries.{get_membership, touch_payment_batch}
use bcars_portal.Store.EntryQueries.{
  get_payment_batch_entry, next_payment_batch_entry_sequence, create_payment_batch_entry,
  update_payment_batch_entry, delete_payment_batch_entry,
}
use bcars_portal.Idem.{Env, Claim, begin, complete}
use bcars_portal.Batches.Input.{EntryInput, validate, entry_hash}
use bcars_portal.Batches.Types.{Entry, Batch, entry_from_row, load, require_open}

-- OpEntryCreate
abbrev pub op_entry_create : String
op_entry_create = "payment-batch-entry-create"

-- the body of `AddEntry` after the claim
unfoldable pub add_claimed : ℕ → EntryInput → Claim → Tx (Entry × Batch)
add_claimed batch_id e claim =
    if claim.replay
    then (do
      row ← get_payment_batch_entry claim.resource_id
      batch ← load batch_id true
      pure (entry_from_row row, batch))
    else (do
      seq ← next_payment_batch_entry_sequence batch_id
      row ← create_payment_batch_entry (record {
        batch_id = batch_id;
        membership_id = e.membership_id;
        sequence = seq;
        amount_cents = e.amount_cents;
        method = e.method;
        reference = null_string e.reference;
        received_on = e.received_on;
        received_by_officer = null_string e.received_by_officer;
        paid_through = e.paid_through;
        treasurer_note = null_string e.treasurer_note;
      })
      complete claim "payment_batch_entry" row.id
      touch_payment_batch batch_id
      batch ← load batch_id true
      pure (entry_from_row row, batch))

-- `AddEntry`
unfoldable pub add_entry : Env → Option Principal → ℕ → EntryInput → String → Action (Entry × Batch)
add_entry env p batch_id e key = after (authorize p "payment.batch.manage") (
    after (validate e) (
      in_tx (do
        require_open batch_id
        get_membership e.membership_id
        claim ← begin (user_id_of p) op_entry_create key (entry_hash env e batch_id)
        add_claimed batch_id e claim)))

-- `if existing.BatchID != batchID { return ErrEntryNotInBatch }`
unfoldable pub require_in_batch : ℕ → PaymentBatchEntry → Tx (Unit {0})
require_in_batch batch_id existing =
    if existing.batch_id == batch_id then pure tt else fail entry_not_in_batch

-- `UpdateEntry`
unfoldable pub update_entry : Option Principal → ℕ → ℕ → EntryInput → ℕ → Action (Entry × Batch)
update_entry p batch_id entry_id e expected_version = after (authorize p "payment.batch.manage") (
    after (validate e) (
      in_tx (do
        require_open batch_id
        existing ← get_payment_batch_entry entry_id
        require_in_batch batch_id existing
        get_membership e.membership_id
        row ← or_stale (
            update_payment_batch_entry (record {
              membership_id = e.membership_id;
              amount_cents = e.amount_cents;
              method = e.method;
              reference = null_string e.reference;
              received_on = e.received_on;
              received_by_officer = null_string e.received_by_officer;
              paid_through = e.paid_through;
              treasurer_note = null_string e.treasurer_note;
              id = entry_id;
              version = expected_version;
            }))
        touch_payment_batch batch_id
        batch ← load batch_id true
        pure (entry_from_row row, batch))))

-- `DeleteEntry`
unfoldable pub delete_entry : Option Principal → ℕ → ℕ → ℕ → Action Batch
delete_entry p batch_id entry_id expected_version = after (authorize p "payment.batch.manage") (
    in_tx (do
      require_open batch_id
      existing ← get_payment_batch_entry entry_id
      require_in_batch batch_id existing
      delete_payment_batch_entry entry_id expected_version
      touch_payment_batch batch_id
      load batch_id true))
