-- ===== src/Batches/Draft.antt =====
-- The life of a draft batch (internal/domain/batches/service.go): Open, Get, Update, Abandon.
use bcars_portal.Base.{ℕ, String, true, false, not, Option, [], ◌∷◌, if◌then◌else◌}
use bcars_portal.Base.Int.{ℤ}
use bcars_portal.GoText.{is_blank, format_int}
use bcars_portal.Outcome.{guard, label_required, reason_required}
use bcars_portal.Authz.{Principal, authorize, user_id_of}
use bcars_portal.Store.Tx.{
  Instant, Tx, Action, gets, ◌>>=◌, ◌>>◌, in_tx, read_only, after, or_clock, or_stale, null_string,
}
use bcars_portal.Store.BatchQueries.{
  get_payment_batch, create_payment_batch, update_payment_batch_defaults,
  mark_payment_batch_abandoned,
}
use bcars_portal.Idem.{Env, Claim, hash, begin, complete}
use bcars_portal.Batches.Input.{optional_date, default_amount}
use bcars_portal.Batches.Types.{Batch, assemble, require_open, null_int}

-- OpBatchCreate
abbrev pub op_batch_create : String
op_batch_create = "payment-batch-create"

pub record OpenParams : Type 0 where
  pub label : String
  pub default_amount_cents : ℤ
  pub default_paid_through : String
  pub idempotency_key : String

-- the body of `Open` after the claim
unfoldable pub open_claimed : OpenParams → ℕ → Option Instant → Claim → Tx Batch
open_claimed params actor now claim =
    if claim.replay then (do row ← get_payment_batch claim.resource_id; assemble row false) else (do
      t ← gets (or_clock now)
      row ← create_payment_batch (record {
        label = params.label;
        default_amount_cents = null_int params.default_amount_cents;
        default_paid_through = null_string params.default_paid_through;
        opened_by = actor;
        opened_at = t.iso_timestamp;
      })
      complete claim "payment_batch" row.id
      assemble row false)

-- `Open`
unfoldable pub open_batch : Env → Option Principal → OpenParams → Option Instant → Action Batch
open_batch env p params now = after (authorize p "payment.batch.manage") (
    after (guard (not (is_blank params.label)) label_required) (
      after (default_amount params.default_amount_cents) (
        after (optional_date params.default_paid_through) (
          in_tx (do
            claim ← begin (user_id_of p) op_batch_create params.idempotency_key (
                hash env (
                  params.label
                  ∷ format_int params.default_amount_cents
                  ∷ params.default_paid_through
                  ∷ []))
            open_claimed params (user_id_of p) now claim)))))

-- `Get`
unfoldable pub get_batch : Option Principal → ℕ → Action Batch
get_batch p id =
    after (authorize p "payment.read")
      (read_only (do row ← get_payment_batch id; assemble row true))

pub record UpdateParams : Type 0 where
  pub label : String
  pub default_amount_cents : ℤ
  pub default_paid_through : String
  pub expected_version : ℕ

-- `Update`
unfoldable pub update_batch : Option Principal → ℕ → UpdateParams → Action Batch
update_batch p id params = after (authorize p "payment.batch.manage") (
    after (guard (not (is_blank params.label)) label_required) (
      after (default_amount params.default_amount_cents) (
        after (optional_date params.default_paid_through) (
          in_tx (do
            require_open id
            row ← or_stale (
                update_payment_batch_defaults (record {
                  label = params.label;
                  default_amount_cents = null_int params.default_amount_cents;
                  default_paid_through = null_string params.default_paid_through;
                  id = id;
                  version = params.expected_version;
                }))
            assemble row true)))))

-- `Abandon`
unfoldable pub abandon_batch : Option Principal → ℕ → String → ℕ → Option Instant → Action Batch
abandon_batch p id reason expected_version now = after (authorize p "payment.batch.manage") (
    after (guard (not (is_blank reason)) reason_required) (
      in_tx (do
        require_open id
        t ← gets (or_clock now)
        row ← or_stale (
            mark_payment_batch_abandoned (user_id_of p) t.iso_timestamp (null_string reason) id
              expected_version)
        assemble row true)))
