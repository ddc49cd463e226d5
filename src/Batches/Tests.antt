-- ===== src/Batches/Tests.antt =====
-- The services run on the small treasury of Batches/Example.antt.
use bcars_portal.Base.{
  ◌↔◌, ℕ, Option, some, ◌∷◌, arith, str_eq, true, update_where, find_by, order_by, select,
  exists_by, max_of, ◌+◌, ◌≡◌, refl, none, [],
}
use bcars_portal.Base.Int.{neg, pos, ◌+ℤ◌}
use bcars_portal.Batches.TotalLaws.{totals_add_up}
use bcars_portal.GoText.{format_padded, format_int, is_sql_blank}
use bcars_portal.GoText.Dates.{is_iso_date, is_date_glob}
use bcars_portal.Outcome.{Result, ok, err, invalid_date}
use bcars_portal.Store.Tx.{Db, ◌>>=◌, or_stale, next_id}
use bcars_portal.Store.BatchQueries.{get_membership, get_payment_batch, mark_payment_batch_posted}
use bcars_portal.Store.EntryQueries.{
  list_payment_batch_entries, get_payment_batch_totals, entries_of, Totals, totals_of, is_method,
}
use bcars_portal.Store.LedgerQueries.{
  get_payment, find_correction, get_payment_correction_by_original, create_payment_correction,
  correction_checks, correction_unique, correction_references, create_payment, new_payment,
  payment_checks, payment_unique, payment_references,
}
use bcars_portal.Store.CoverageQueries.{
  get_coverage_event_by_payment, create_coverage_event, event_checks, event_unique,
  event_references, get_effective_coverage_event,
}
use bcars_portal.Batches.InputLaws.{Positive, Method, validate_iff}
use bcars_portal.GoText.Dates.Calendar.{IsDate}
use bcars_portal.Batches.Input.{EntryInput, validate}
use bcars_portal.Batches.Types.{Posted, assemble, batch_from_row}
use bcars_portal.Batches.Post.{
  PostParams, post, post_hash, op_batch_post, payment_params, post_tx, post_checks, require_state,
  require_entries, check_entries, post_entries, post_entry, effective_coverage_id, receipt_code,
}
use bcars_portal.Batches.Post.Posting.{Posts, post_tx-eq-ok}
use bcars_portal.Batches.Correct.{
  CorrectParams, correct_tx, require_correctable, effective_payment, walk_back, step_back,
  walk_forward, step_forward, require_current, append_correction, adjust_coverage_for_correction,
}
use bcars_portal.Store.Rows.{Payment, IdempotencyRecord}
use bcars_portal.Batches.Correct.Effect.{net, Corrects, correct_tx-eq-ok}
use bcars_portal.Batches.Chain.{Chained, Held, effective_payment-ok}
use bcars_portal.Authz.{Principal, by_code, authorize}
use bcars_portal.Batches.Post.Retry.{retry, post-retry}
use bcars_portal.Batches.Post.NetTotal.{post_tx-net}
use bcars_portal.Batches.Example.{plain_env, start, noon, open_row, draft_row}

-- the tables after a run
abbrev tables_of : {A : Type 0} → Result (A × Db) → Db
tables_of (ok (a, db)) = db
tables_of (err e) = start

abbrev no_totals : Totals
no_totals = totals_of []

-- the answer of a run
abbrev answer_of : Result (Posted × Db) → Posted
answer_of (ok (out, db)) = out
answer_of (err e) = record {
  batch = batch_from_row open_row no_totals [];
  payments = [];
  coverage = [];
}

-- the batch of the example posted by user 7
posted : Result (Posted × Db)
unfolding post_tx post_checks require_state require_entries check_entries post_entries post_entry
    validate effective_coverage_id receipt_code create_payment payment_checks payment_unique
    payment_references create_coverage_event event_checks event_unique event_references
    get_effective_coverage_event list_payment_batch_entries get_payment_batch get_membership
    mark_payment_batch_posted or_stale assemble get_payment_batch_totals totals_of
posted = post_tx plain_env 7 1 3 none start

post_tx-eq-ok_example : Posts 7 1 3 noon start (tables_of posted) (answer_of posted)
unfolding posted ◌>>=◌ find_by order_by select is_method is_iso_date is_date_glob exists_by next_id
    max_of format_padded
post_tx-eq-ok_example =
    post_tx-eq-ok plain_env 7 1 3 none start (tables_of posted) (answer_of posted) refl

totals_add_up_example :
    let t = totals_of start.payment_batch_entries in
    (t.cash_count + t.check_count + t.other_count ≡ t.entry_count)
    × (t.cash_total_cents +ℤ t.check_total_cents +ℤ t.other_total_cents ≡ t.net_total_cents)
unfolding is_method
totals_add_up_example = totals_add_up start.payment_batch_entries (refl, (refl, tt))

abbrev correction : CorrectParams
correction = record {
  amount_cents = pos 2000;
  method = "check";
  reference = "";
  received_on = "2026-03-01";
  received_by_officer = "";
  treasurer_note = "";
  paid_through = "2026-12-31";
  reason = "wrong amount";
  expected_revision = 0;
  idempotency_key = "k2";
  confirm = true;
}

-- the first payment of the posted batch corrected by user 7
corrected : Result (Payment × Db)
unfolding posted correct_tx get_payment require_correctable effective_payment walk_back step_back
    walk_forward step_forward require_current append_correction adjust_coverage_for_correction
    get_payment_correction_by_original create_payment_correction correction_checks correction_unique
    correction_references get_coverage_event_by_payment
corrected = correct_tx 7 1 correction none (tables_of posted)

-- the payment that a run answers
abbrev replacement_of : Result (Payment × Db) → Payment
replacement_of (ok (q, db)) = q
replacement_of (err e) = new_payment start (payment_params 7 1 "" (draft_row 1 1 (pos 1) "cash"))

correct_tx-eq-ok_example :
    Corrects 1 correction (replacement_of corrected) (tables_of posted) (tables_of corrected)
unfolding corrected posted ◌>>=◌ find_by order_by select is_method is_iso_date is_date_glob
    exists_by next_id max_of format_padded neg format_int update_where is_sql_blank
correct_tx-eq-ok_example =
    correct_tx-eq-ok 7 1 correction none (tables_of posted) (tables_of corrected)
      (replacement_of corrected) refl

corrected-Chained : Chained (tables_of corrected)
unfolding corrected posted ◌>>=◌ find_by order_by select is_method is_iso_date is_date_glob
    exists_by next_id max_of format_padded neg format_int update_where is_sql_blank
corrected-Chained = record {
  backward = (tt, (tt, ((ground arith, refl), ((ground arith, refl), tt))));
  forward = ((ground arith, refl), tt);
}

effective_payment-ok_example :
    (q : Payment) × (n : ℕ) × (effective_payment 1 (tables_of corrected)
      ≡ ok ((q, n), tables_of corrected))
    × Held (tables_of corrected) q
    × (find_correction q.id (tables_of corrected) ≡ none)
unfolding corrected posted ◌>>=◌ find_by order_by select is_method is_iso_date is_date_glob
    exists_by next_id max_of format_padded neg format_int update_where is_sql_blank
effective_payment-ok_example = effective_payment-ok (tables_of corrected) 1 _ corrected-Chained refl

abbrev treasurer : Option Principal
treasurer = some (record { user_id = 7; capabilities = "payment.post" ∷ [] })

abbrev confirmed_post : PostParams
confirmed_post = record { expected_version = 3; idempotency_key = "k1"; confirm = true }

-- the record of an earlier post with the same key, for another version
abbrev earlier_record : IdempotencyRecord
earlier_record = record {
  id = 1;
  actor_user_id = 7;
  operation = op_batch_post;
  idempotency_key = "k1";
  request_hash = "another request";
  resource_kind = some "payment_batch";
  resource_id = some 1;
  created_at = "2026-03-01T11:00:00.000Z";
}

abbrev claimed : Db
claimed = record start { idempotency_records = earlier_record ∷ [] }

post-retry_example :
    (post plain_env treasurer 1 confirmed_post none claimed
      ≡ retry (str_eq "another request" (post_hash plain_env 1 confirmed_post)) 1 claimed)
    × ((post plain_env treasurer 1 confirmed_post none claimed).1 ≡ claimed)
unfolding authorize by_code find_by
post-retry_example =
    post-retry plain_env treasurer 1 confirmed_post none claimed earlier_record refl refl refl refl

post_tx-net_example :
    net (tables_of posted).payments
    ≡ net start.payments +ℤ (totals_of (entries_of 1 start)).net_total_cents
unfolding posted ◌>>=◌ find_by order_by select is_method is_iso_date is_date_glob exists_by next_id
    max_of format_padded
post_tx-net_example =
    post_tx-net plain_env 7 1 3 none start (tables_of posted) (answer_of posted) refl

abbrev cash_entry : EntryInput
cash_entry = record {
  membership_id = 1;
  amount_cents = pos 2500;
  method = "cash";
  reference = "";
  received_on = "2026-03-01";
  received_by_officer = "";
  paid_through = "2026-12-31";
  treasurer_note = "";
}

validate_iff_example :
    (validate cash_entry ≡ ok tt)
    ↔ (Positive (pos 2500) × Method "cash" × IsDate "2026-03-01" × IsDate "2026-12-31")
validate_iff_example = validate_iff cash_entry

-- A check dated the 30th of February, and one paid through a leap day.
refused_entry :
    validate (record cash_entry { method = "check"; received_on = "2026-02-30" }) ≡ err invalid_date
unfolding validate is_method is_iso_date
refused_entry = refl

accepted_entry :
    validate (record cash_entry { method = "other"; paid_through = "2028-02-29" }) ≡ ok tt
unfolding validate is_method is_iso_date
accepted_entry = refl
