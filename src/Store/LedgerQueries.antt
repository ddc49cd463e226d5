-- ===== src/Store/LedgerQueries.antt =====
-- internal/db/sqlc/treasury.sql.go and corrections.sql.go: the posted payments and their corrections.
-- No statement updates or deletes a row of either table.
pub mod Inserts
use bcars_portal.Base.{
  ℕ, String, Bool, true, false, ◌&&◌, ◌||◌, not, Option, none, some, List, [], ◌∷◌, ◌++◌, find_by,
  select, exists_by, order_by, leb, ◌==◌, str_eq, if◌then◌else◌, length,
}
use bcars_portal.Base.Int.{ℤ, is_pos, is_neg}
use bcars_portal.GoText.{is_sql_blank}
use bcars_portal.GoText.Dates.{is_date_glob}
use bcars_portal.Outcome.{ok, err, check_failed, unique_failed, foreign_key_failed}
use bcars_portal.Store.Rows.{
  Payment, PaymentCorrection, EntryKind, kind_original, kind_reversal, kind_replacement,
}
use bcars_portal.Store.Tx.{Db, Tx, gets, one, next_id}
use bcars_portal.Store.EntryQueries.{
  is_method, known_batch, known_membership, method_cash, method_check, method_other, sum_cents,
  sum_method,
}

abbrev pub find_payment : ℕ → Db → Option Payment
find_payment id db = find_by (λ p. p.id == id) db.payments

-- GetPayment
unfoldable pub get_payment : ℕ → Tx Payment
get_payment id = one (find_payment id)

-- `column = ?` for a column that may be null
abbrev pub is_id : Option ℕ → ℕ → Bool
is_id none id = false
is_id (some n) id = n == id

abbrev pub payments_of : ℕ → Db → List Payment
payments_of batch_id db = select (λ p. is_id p.batch_id batch_id) db.payments

-- ListPaymentsByBatch
unfoldable pub list_payments_by_batch : ℕ → Tx (List Payment)
list_payments_by_batch batch_id =
    gets (λ db. order_by (λ a b. leb a.id b.id) (payments_of batch_id db))

pub record CreatePaymentParams : Type 0 where
  pub membership_id : ℕ
  pub batch_id : Option ℕ
  pub amount_cents : ℤ
  pub method : String
  pub reference : Option String
  pub received_on : String
  pub received_by_officer : Option String
  pub entered_by : ℕ
  pub entered_at : String
  pub receipt_code : String
  pub entry_kind : EntryKind
  pub corrects_payment_id : Option ℕ
  pub treasurer_note : Option String

-- the row that CreatePayment inserts
abbrev pub new_payment : Db → CreatePaymentParams → Payment
new_payment db arg = record {
  id = next_id (λ p. p.id) db.payments;
  membership_id = arg.membership_id;
  batch_id = arg.batch_id;
  amount_cents = arg.amount_cents;
  method = arg.method;
  reference = arg.reference;
  received_on = arg.received_on;
  received_by_officer = arg.received_by_officer;
  entered_by = arg.entered_by;
  entered_at = arg.entered_at;
  receipt_code = arg.receipt_code;
  entry_kind = arg.entry_kind;
  corrects_payment_id = arg.corrects_payment_id;
  treasurer_note = arg.treasurer_note;
  created_at = db.clock.iso_timestamp;
}

-- Only a reversal is negative, and no amount is zero.
abbrev pub sign_check : EntryKind → ℤ → Bool
sign_check kind_reversal amount = is_neg amount
sign_check _ amount = is_pos amount

-- Only an original stands alone.
abbrev pub target_check : EntryKind → Option ℕ → Bool
target_check kind_original none = true
target_check kind_original (some n) = false
target_check kind none = false
target_check kind (some n) = true

abbrev pub same_kind : EntryKind → EntryKind → Bool
same_kind kind_original kind_original = true
same_kind kind_reversal kind_reversal = true
same_kind kind_replacement kind_replacement = true
same_kind _ _ = false

-- the CHECK constraints of payments
unfoldable pub payment_checks : CreatePaymentParams → Bool
payment_checks arg =
    sign_check arg.entry_kind arg.amount_cents
    && target_check arg.entry_kind arg.corrects_payment_id
    && is_method arg.method
    && is_date_glob arg.received_on

-- both name the same payment; null equals nothing in a UNIQUE index
abbrev same_target : Option ℕ → Payment → Bool
same_target none p = false
same_target (some id) p = is_id p.corrects_payment_id id

-- ux_payments_receipt and ux_payments_correction_target
abbrev collides : CreatePaymentParams → Payment → Bool
collides arg p =
    str_eq p.receipt_code arg.receipt_code
    || (same_target arg.corrects_payment_id p && same_kind arg.entry_kind p.entry_kind)

unfoldable pub payment_unique : CreatePaymentParams → Db → Bool
payment_unique arg db = not (exists_by (collides arg) db.payments)

abbrev known_target : Option ℕ → Db → Bool
known_target none db = true
known_target (some id) db = exists_by (λ p. p.id == id) db.payments

abbrev known_owner : Option ℕ → Db → Bool
known_owner none db = true
known_owner (some id) db = known_batch id db

unfoldable pub payment_references : CreatePaymentParams → Db → Bool
payment_references arg db =
    known_membership arg.membership_id db
    && known_owner arg.batch_id db
    && known_target arg.corrects_payment_id db

-- CreatePayment
unfoldable pub create_payment : CreatePaymentParams → Tx Payment
create_payment arg db =
    if not (payment_checks arg)
    then err check_failed
    else if not (payment_unique arg db)
    then err unique_failed
    else if not (payment_references arg db)
    then err foreign_key_failed
    else ok (new_payment db arg, record db { payments = db.payments ++ new_payment db arg ∷ [] })

pub record CreatePaymentCorrectionParams : Type 0 where
  pub original_payment_id : ℕ
  pub reversal_payment_id : ℕ
  pub replacement_payment_id : ℕ
  pub reason : String
  pub corrected_by : ℕ
  pub corrected_at : String

-- the row that CreatePaymentCorrection inserts
abbrev pub new_correction : Db → CreatePaymentCorrectionParams → PaymentCorrection
new_correction db arg = record {
  id = next_id (λ c. c.id) db.payment_corrections;
  original_payment_id = arg.original_payment_id;
  reversal_payment_id = arg.reversal_payment_id;
  replacement_payment_id = arg.replacement_payment_id;
  reason = arg.reason;
  corrected_by = arg.corrected_by;
  corrected_at = arg.corrected_at;
  created_at = db.clock.iso_timestamp;
}

-- the CHECK constraints of payment_corrections
unfoldable pub correction_checks : CreatePaymentCorrectionParams → Bool
correction_checks arg =
    not (is_sql_blank arg.reason)
    && not (arg.original_payment_id == arg.reversal_payment_id)
    && not (arg.original_payment_id == arg.replacement_payment_id)
    && not (arg.reversal_payment_id == arg.replacement_payment_id)

-- ux_corrections_original, ux_corrections_reversal and ux_corrections_replacement
unfoldable pub correction_unique : CreatePaymentCorrectionParams → Db → Bool
correction_unique arg db = not (
    exists_by
      (λ c.
        c.original_payment_id == arg.original_payment_id
        || c.reversal_payment_id == arg.reversal_payment_id
        || c.replacement_payment_id == arg.replacement_payment_id)
      db.payment_corrections)

unfoldable pub correction_references : CreatePaymentCorrectionParams → Db → Bool
correction_references arg db =
    known_target (some arg.original_payment_id) db
    && known_target (some arg.reversal_payment_id) db
    && known_target (some arg.replacement_payment_id) db

-- CreatePaymentCorrection
unfoldable pub create_payment_correction : CreatePaymentCorrectionParams → Tx PaymentCorrection
create_payment_correction arg db =
    if not (correction_checks arg)
    then err check_failed
    else if not (correction_unique arg db)
    then err unique_failed
    else if not (correction_references arg db)
    then err foreign_key_failed
    else ok (
      new_correction db arg,
      record db { payment_corrections = db.payment_corrections ++ new_correction db arg ∷ [] },
    )

abbrev pub find_correction : ℕ → Db → Option PaymentCorrection
find_correction original db =
    find_by (λ c. c.original_payment_id == original) db.payment_corrections

-- GetPaymentCorrectionByOriginal, with `sql.ErrNoRows` as an absent value
unfoldable pub get_payment_correction_by_original : ℕ → Tx (Option PaymentCorrection)
get_payment_correction_by_original original = gets (find_correction original)

pub record LedgerTotals : Type 0 where
  pub payment_count : ℕ
  pub net_total_cents : ℤ
  pub cash_total_cents : ℤ
  pub check_total_cents : ℤ
  pub other_total_cents : ℤ

unfoldable pub ledger_totals_of : List Payment → LedgerTotals
ledger_totals_of ps = record {
  payment_count = length ps;
  net_total_cents = sum_cents (λ p. p.amount_cents) ps;
  cash_total_cents = sum_method (λ p. p.amount_cents) (λ p. p.method) method_cash ps;
  check_total_cents = sum_method (λ p. p.amount_cents) (λ p. p.method) method_check ps;
  other_total_cents = sum_method (λ p. p.amount_cents) (λ p. p.method) method_other ps;
}

-- GetBatchLedgerTotals
unfoldable pub get_batch_ledger_totals : ℕ → Tx LedgerTotals
get_batch_ledger_totals batch_id = gets (λ db. ledger_totals_of (payments_of batch_id db))
