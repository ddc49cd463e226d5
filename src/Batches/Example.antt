-- ===== src/Batches/Example.antt =====
-- A small treasury to run the services on: two members, and an open batch with a row for each.
use bcars_portal.Base.{ℕ, String, none, some, [], ◌∷◌}
use bcars_portal.Base.Int.{ℤ, pos}
use bcars_portal.Store.Rows.{Membership, PaymentBatch, PaymentBatchEntry, state_open}
use bcars_portal.Store.Tx.{Db, Instant}
use bcars_portal.Idem.{Env}

abbrev pub noon : Instant
noon = record { iso_date = "2026-03-01"; iso_timestamp = "2026-03-01T12:00:00.000Z" }

-- the digest is the identity here
abbrev pub plain_env : Env
plain_env = record {
  sha256_hex = λ s. s;
  to_lower = λ s. s;
  to_upper = λ s. s;
  hmac_target = λ s. s;
  fail_before_commit = none;
}

abbrev member : ℕ → Membership
member id = record {
  id = id;
  person_id = id;
  base_type = "full";
  lifecycle = "active";
  joined_on = none;
  ended_on = none;
  created_at = "";
  updated_at = "";
  version = 1;
}

abbrev pub open_row : PaymentBatch
open_row = record {
  id = 1;
  label = "March";
  state = state_open;
  default_amount_cents = some (pos 2500);
  default_paid_through = none;
  opened_by = 7;
  opened_at = "2026-03-01T09:00:00.000Z";
  posted_by = none;
  posted_at = none;
  abandoned_by = none;
  abandoned_at = none;
  abandon_reason = none;
  created_at = "2026-03-01T09:00:00.000Z";
  updated_at = "2026-03-01T09:00:00.000Z";
  version = 3;
  worksheet_run_id = none;
}

abbrev pub draft_row : ℕ → ℕ → ℤ → String → PaymentBatchEntry
draft_row id membership_id amount method = record {
  id = id;
  batch_id = 1;
  membership_id = membership_id;
  sequence = id;
  amount_cents = amount;
  method = method;
  reference = none;
  received_on = "2026-03-01";
  received_by_officer = none;
  paid_through = "2026-12-31";
  treasurer_note = none;
  created_at = "";
  updated_at = "";
  version = 1;
}

abbrev pub start : Db
start = record {
  clock = noon;
  memberships = member 1 ∷ member 2 ∷ [];
  payment_batches = open_row ∷ [];
  payment_batch_entries = draft_row 1 2 (pos 2500) "cash" ∷ draft_row 2 1 (pos 4000) "check" ∷ [];
  payments = [];
  payment_corrections = [];
  coverage_events = [];
  idempotency_records = [];
  dues_rates = [];
  persons = [];
  contact_methods = [];
  visibility_events = [];
  sharing_events = [];
  change_requests = [];
  change_request_items = [];
  request_attempts = [];
  membership_approvals = [];
  fcc_verifications = [];
  honorary_grants = [];
  member_notes = [];
  note_revisions = [];
}
