-- ===== src/Requests/Tests.antt =====
-- A short history of requests on a ledger with a corrected payment: a batch is posted, the payment is
-- corrected once more, and the posted batch is not abandoned.
use bcars_portal.Base.{
  arith, exists_by, find_by, refl, ◌≡◌, length, ℕ, String, Option, none, some, List, [], ◌∷◌, true,
  order_by, select, max_of, update_where,
}
use bcars_portal.Base.Int.{ℤ, pos, negsuc, neg}
use bcars_portal.Authz.{Principal, authorize, by_code}
use bcars_portal.Store.Tx.{Db, Instant, after, in_tx, ◌>>=◌, next_id, or_stale}
use bcars_portal.Store.Rows.{
  Payment, PaymentCorrection, EntryKind, kind_original, kind_reversal, kind_replacement,
}
use bcars_portal.Store.Appends.{Appends}
use bcars_portal.Store.LedgerQueries.{
  find_payment, find_correction, get_payment, create_payment, payment_checks, payment_unique,
  payment_references, create_payment_correction, correction_checks, correction_unique,
  correction_references, get_payment_correction_by_original,
}
use bcars_portal.Batches.Correct.{
  effective_payment, correct_payment, validate_correction, correct_claimed, correct_tx,
  load_corrected, require_correctable, walk_back, step_back, walk_forward, step_forward,
  require_current, append_correction, adjust_coverage_for_correction, collect, collect_step,
  batch_part,
}
use bcars_portal.Outcome.{ok}
use bcars_portal.Requests.{
  Request, handle, Call, run, post_request, correct_request, abandon_request,
}
use bcars_portal.Requests.History.{run-Appends, run-effective_payment}
use bcars_portal.Batches.Chain.{Chained, Held}
use bcars_portal.Batches.Example.{plain_env, start, noon}
use bcars_portal.Batches.Draft.{abandon_batch}
use bcars_portal.GoText.{is_blank, is_sql_blank, format_padded, format_int}
use bcars_portal.Batches.Types.{require_open, assemble}
use bcars_portal.Store.BatchQueries.{get_payment_batch, mark_payment_batch_posted, get_membership}
use bcars_portal.Batches.Input.{validate}
use bcars_portal.Store.EntryQueries.{
  is_method, list_payment_batch_entries, get_payment_batch_totals,
}
use bcars_portal.GoText.Dates.{is_iso_date, is_date_glob}
use bcars_portal.Idem.{begin, claim_from, complete}
use bcars_portal.Store.KeyQueries.{
  get_idempotency_record, create_idempotency_record, complete_idempotency_record,
}
use bcars_portal.Batches.Post.{
  post, post_body, post_claimed, post_tx, post_checks, require_state, require_entries,
  check_entries, post_entries, post_entry, receipt_code, effective_coverage_id,
}
use bcars_portal.Store.CoverageQueries.{
  get_effective_coverage_event, create_coverage_event, event_checks, event_unique, event_references,
  get_coverage_event_by_payment,
}

abbrev officer : Principal
officer = record {
  user_id = 7;
  capabilities = "payment.batch.manage" ∷ "payment.post" ∷ "payment.correct" ∷ [];
}

abbrev call : Request → Instant × Call
call r = (noon, (some officer, none, r))

-- a payment of the ledger, and one that stands against it
abbrev old_payment : ℕ → ℤ → EntryKind → Option ℕ → String → Payment
old_payment id amount kind corrects code = record {
  id = id;
  membership_id = 1;
  batch_id = none;
  amount_cents = amount;
  method = "cash";
  reference = none;
  received_on = "2026-02-01";
  received_by_officer = none;
  entered_by = 7;
  entered_at = "2026-02-01T09:00:00.000Z";
  receipt_code = code;
  entry_kind = kind;
  corrects_payment_id = corrects;
  treasurer_note = none;
  created_at = "2026-02-01T09:00:00.000Z";
}

abbrev old_correction : PaymentCorrection
old_correction = record {
  id = 1;
  original_payment_id = 1;
  reversal_payment_id = 2;
  replacement_payment_id = 3;
  reason = "wrong amount";
  corrected_by = 7;
  corrected_at = "2026-02-02T09:00:00.000Z";
  created_at = "2026-02-02T09:00:00.000Z";
}

-- a payment of 25 dollars that was corrected to one of 30
abbrev linked : Db
linked = record start {
  payments =
      old_payment 1 (pos 2500) kind_original none "B9-1"
      ∷ old_payment 2 (negsuc 2499) kind_reversal (some 1) "B9-1-R1"
      ∷ old_payment 3 (pos 3000) kind_replacement (some 1) "B9-1-C1"
      ∷ [];
  payment_corrections = old_correction ∷ [];
}

abbrev evening : List (Instant × Call)
evening =
    call (post_request 1 (record { expected_version = 3; idempotency_key = "k1"; confirm = true }))
    ∷ call (
        correct_request 3 (record {
          amount_cents = pos 2000;
          method = "check";
          reference = "";
          received_on = "2026-03-01";
          received_by_officer = "";
          treasurer_note = "";
          paid_through = "2026-12-31";
          reason = "wrong again";
          expected_revision = 1;
          idempotency_key = "k2";
          confirm = true;
        }))
    ∷ call (abandon_request 1 "too late" 4)
    ∷ []

-- the tables after the evening
at_night : Db
at_night = run plain_env evening linked

-- The batch of two rows is posted, and the second correction adds two payments and a link.
at_night-lengths : (length at_night.payments ≡ 7) × (length at_night.payment_corrections ≡ 2)
unfolding at_night run handle abandon_batch after in_tx ◌>>=◌ next_id or_stale authorize by_code
    is_blank is_sql_blank format_padded format_int require_open assemble get_payment_batch
    mark_payment_batch_posted get_membership correct_payment validate_correction correct_claimed
    correct_tx load_corrected require_correctable effective_payment walk_back step_back walk_forward
    step_forward require_current append_correction adjust_coverage_for_correction collect
    collect_step batch_part validate is_method list_payment_batch_entries get_payment_batch_totals
    is_iso_date is_date_glob begin claim_from complete get_idempotency_record find_by order_by
    select exists_by max_of update_where neg get_payment create_payment payment_checks
    payment_unique payment_references create_payment_correction correction_checks correction_unique
    correction_references get_payment_correction_by_original post post_body
    create_idempotency_record post_claimed post_tx post_checks require_state require_entries
    check_entries post_entries post_entry receipt_code effective_coverage_id
    get_effective_coverage_event create_coverage_event event_checks event_unique event_references
    complete_idempotency_record get_coverage_event_by_payment
at_night-lengths = (refl, refl)

linked-Chained : Chained linked
unfolding exists_by
linked-Chained = record {
  backward = (tt, ((ground arith, refl), ((ground arith, refl), tt)));
  forward = ((ground arith, refl), tt);
}

run-Appends_example : Appends linked (run plain_env evening linked)
run-Appends_example = run-Appends plain_env evening linked

-- The first payment is still the one that its number finds.
first-stays :
    find_payment 1 (run plain_env evening linked)
    ≡ some (old_payment 1 (pos 2500) kind_original none "B9-1")
unfolding find_by
first-stays = let kept = (run-Appends plain_env evening linked).payments in rw kept.grown refl

run-effective_payment_example :
    Chained at_night
    × ((q : Payment) × (n : ℕ) × (effective_payment 1 at_night ≡ ok ((q, n), at_night))
        × Held at_night q
        × (find_correction q.id at_night ≡ none))
unfolding at_night
run-effective_payment_example =
    run-effective_payment plain_env evening linked 1
      (old_payment 1 (pos 2500) kind_original none "B9-1") linked-Chained first-stays
