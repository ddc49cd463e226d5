-- ===== src/Store/Appends/Statements.antt =====
-- Which statements leave the ledger alone, and which append to it.
use bcars_portal.Base.{ℕ, String, Option, arith}
use bcars_portal.Store.BatchQueries.{
  create_payment_batch, CreatePaymentBatchParams, update_payment_batch_defaults,
  UpdatePaymentBatchDefaultsParams, touch_payment_batch, mark_payment_batch_posted,
  mark_payment_batch_abandoned,
}
use bcars_portal.Store.EntryQueries.{
  create_payment_batch_entry, CreatePaymentBatchEntryParams, update_payment_batch_entry,
  UpdatePaymentBatchEntryParams, delete_payment_batch_entry,
}
use bcars_portal.Store.KeyQueries.{create_idempotency_record, complete_idempotency_record}
use bcars_portal.Store.LedgerQueries.{
  create_payment, CreatePaymentParams, create_payment_correction, CreatePaymentCorrectionParams,
}
use bcars_portal.Store.CoverageQueries.{create_coverage_event, CreateCoverageEventParams}
use bcars_portal.Store.LedgerQueries.{new_payment, new_correction}
use bcars_portal.Store.CoverageQueries.{new_event}
use bcars_portal.Store.LedgerQueries.Inserts.{create_payment-eq-ok, create_payment_correction-eq-ok}
use bcars_portal.Store.CoverageQueries.Inserts.{create_coverage_event-eq-ok}
use bcars_portal.Store.Follows.{Follows, follows_rules}
use bcars_portal.Store.Appends.{
  Appends, Inert, Appends-IsHistory, Inert-IsHistory, Inert→Appends, Extends-refl, Extends-snoc,
}

pub create_payment_batch-Inert :
    (arg : CreatePaymentBatchParams) → Follows Inert (create_payment_batch arg)
unfolding create_payment_batch
create_payment_batch-Inert arg = record { at = λ db db' a e. ground arith }

pub update_payment_batch_defaults-Inert :
    (arg : UpdatePaymentBatchDefaultsParams) → Follows Inert (update_payment_batch_defaults arg)
unfolding update_payment_batch_defaults
update_payment_batch_defaults-Inert arg = record { at = λ db db' a e. ground arith }

pub touch_payment_batch-Inert : (arg : ℕ) → Follows Inert (touch_payment_batch arg)
unfolding touch_payment_batch
touch_payment_batch-Inert arg = record { at = λ db db' a e. ground arith }

pub mark_payment_batch_posted-Inert :
    (x0 : ℕ) (x1 : String) (x2 : ℕ) (x3 : ℕ) → Follows Inert (mark_payment_batch_posted x0 x1 x2 x3)
unfolding mark_payment_batch_posted
mark_payment_batch_posted-Inert x0 x1 x2 x3 = record { at = λ db db' a e. ground arith }

pub mark_payment_batch_abandoned-Inert :
    (x0 : ℕ) (x1 : String) (x2 : Option String) (x3 : ℕ) (x4 : ℕ)
    → Follows Inert (mark_payment_batch_abandoned x0 x1 x2 x3 x4)
unfolding mark_payment_batch_abandoned
mark_payment_batch_abandoned-Inert x0 x1 x2 x3 x4 = record { at = λ db db' a e. ground arith }

pub create_payment_batch_entry-Inert :
    (arg : CreatePaymentBatchEntryParams) → Follows Inert (create_payment_batch_entry arg)
unfolding create_payment_batch_entry
create_payment_batch_entry-Inert arg = record { at = λ db db' a e. ground arith }

pub update_payment_batch_entry-Inert :
    (arg : UpdatePaymentBatchEntryParams) → Follows Inert (update_payment_batch_entry arg)
unfolding update_payment_batch_entry
update_payment_batch_entry-Inert arg = record { at = λ db db' a e. ground arith }

pub delete_payment_batch_entry-Inert :
    (x0 : ℕ) (x1 : ℕ) → Follows Inert (delete_payment_batch_entry x0 x1)
unfolding delete_payment_batch_entry
delete_payment_batch_entry-Inert x0 x1 = record { at = λ db db' a e. ground arith }

pub create_idempotency_record-Inert :
    (x0 : ℕ) (x1 : String) (x2 : String) (x3 : String)
    → Follows Inert (create_idempotency_record x0 x1 x2 x3)
unfolding create_idempotency_record
create_idempotency_record-Inert x0 x1 x2 x3 = record { at = λ db db' a e. ground arith }

pub complete_idempotency_record-Inert :
    (x0 : Option String) (x1 : Option ℕ) (x2 : ℕ)
    → Follows Inert (complete_idempotency_record x0 x1 x2)
unfolding complete_idempotency_record
complete_idempotency_record-Inert x0 x1 x2 = record { at = λ db db' a e. ground arith }

pub create_payment-Appends : (arg : CreatePaymentParams) → Follows Appends (create_payment arg)
create_payment-Appends arg = record {
  at = λ db db' a e. rw ((create_payment-eq-ok arg db db' a e).state) (record {
    payments = Extends-snoc db.payments (new_payment db arg);
    corrections = Extends-refl db.payment_corrections;
    coverage = Extends-refl db.coverage_events;
  });
}

pub create_payment_correction-Appends :
    (arg : CreatePaymentCorrectionParams) → Follows Appends (create_payment_correction arg)
create_payment_correction-Appends arg = record {
  at = λ db db' a e. rw ((create_payment_correction-eq-ok arg db db' a e).state) (record {
    payments = Extends-refl db.payments;
    corrections = Extends-snoc db.payment_corrections (new_correction db arg);
    coverage = Extends-refl db.coverage_events;
  });
}

pub create_coverage_event-Appends :
    (arg : CreateCoverageEventParams) → Follows Appends (create_coverage_event arg)
create_coverage_event-Appends arg = record {
  at = λ db db' a e. rw ((create_coverage_event-eq-ok arg db db' a e).state) (record {
    payments = Extends-refl db.payments;
    corrections = Extends-refl db.payment_corrections;
    coverage = Extends-snoc db.coverage_events (new_event db arg);
  });
}

pub ruleset inert_rules = (
  follows_rules, Inert-IsHistory, create_payment_batch-Inert, update_payment_batch_defaults-Inert,
  touch_payment_batch-Inert, mark_payment_batch_posted-Inert, mark_payment_batch_abandoned-Inert,
  create_payment_batch_entry-Inert, update_payment_batch_entry-Inert,
  delete_payment_batch_entry-Inert, create_idempotency_record-Inert,
  complete_idempotency_record-Inert,
)

pub ruleset append_rules = (
  follows_rules, Appends-IsHistory, create_payment-Appends, create_payment_correction-Appends,
  create_coverage_event-Appends,
)
