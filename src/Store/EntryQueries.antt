-- ===== src/Store/EntryQueries.antt =====
-- internal/db/sqlc/batches.sql.go and treasury.sql.go: the mutable draft entries of a batch, and
-- their totals.
use bcars_portal.Base.{
  ℕ, ◌+◌, String, Bool, ◌&&◌, ◌||◌, not, Option, none, some, List, [], ◌∷◌, ◌++◌, find_by, select,
  update_where, delete_where, exists_by, order_by, max_of, leb, ltb, ◌==◌, str_eq, if◌then◌else◌,
  length,
}
use bcars_portal.Base.Int.{ℤ, pos, ◌+ℤ◌, is_pos}
use bcars_portal.GoText.Dates.{is_date_glob}
use bcars_portal.Outcome.{ok, err, no_rows, stale, check_failed, unique_failed, foreign_key_failed}
use bcars_portal.Store.Rows.{PaymentBatchEntry}
use bcars_portal.Store.Tx.{Db, Tx, gets, one, next_id}

-- internal/domain/batches: MethodCash, MethodCheck, MethodOther
abbrev pub method_cash : String
method_cash = "cash"

abbrev pub method_check : String
method_check = "check"

abbrev pub method_other : String
method_other = "other"

-- `method IN ('cash', 'check', 'other')`
unfoldable pub is_method : String → Bool
is_method m = str_eq m method_cash || str_eq m method_check || str_eq m method_other

-- GetPaymentBatchEntry
unfoldable pub get_payment_batch_entry : ℕ → Tx PaymentBatchEntry
get_payment_batch_entry id = one (λ db. find_by (λ e. e.id == id) db.payment_batch_entries)

abbrev pub entries_of : ℕ → Db → List PaymentBatchEntry
entries_of batch_id db = select (λ e. e.batch_id == batch_id) db.payment_batch_entries

-- `ORDER BY sequence, id`
abbrev pub by_sequence : PaymentBatchEntry → PaymentBatchEntry → Bool
by_sequence a b = ltb a.sequence b.sequence || (a.sequence == b.sequence && leb a.id b.id)

-- ListPaymentBatchEntries
unfoldable pub list_payment_batch_entries : ℕ → Tx (List PaymentBatchEntry)
list_payment_batch_entries batch_id = gets (λ db. order_by by_sequence (entries_of batch_id db))

-- NextPaymentBatchEntrySequence
unfoldable pub next_payment_batch_entry_sequence : ℕ → Tx ℕ
next_payment_batch_entry_sequence batch_id =
    gets (λ db. max_of (λ e. e.sequence) (entries_of batch_id db) + 1)

pub record CreatePaymentBatchEntryParams : Type 0 where
  pub batch_id : ℕ
  pub membership_id : ℕ
  pub sequence : ℕ
  pub amount_cents : ℤ
  pub method : String
  pub reference : Option String
  pub received_on : String
  pub received_by_officer : Option String
  pub paid_through : String
  pub treasurer_note : Option String

-- the row that CreatePaymentBatchEntry inserts
abbrev pub new_entry : Db → CreatePaymentBatchEntryParams → PaymentBatchEntry
new_entry db arg = record {
  id = next_id (λ e. e.id) db.payment_batch_entries;
  batch_id = arg.batch_id;
  membership_id = arg.membership_id;
  sequence = arg.sequence;
  amount_cents = arg.amount_cents;
  method = arg.method;
  reference = arg.reference;
  received_on = arg.received_on;
  received_by_officer = arg.received_by_officer;
  paid_through = arg.paid_through;
  treasurer_note = arg.treasurer_note;
  created_at = db.clock.iso_timestamp;
  updated_at = db.clock.iso_timestamp;
  version = 1;
}

-- the CHECK constraints of payment_batch_entries
unfoldable pub entry_checks : ℤ → String → String → String → Bool
entry_checks amount method received_on paid_through =
    is_pos amount && is_method method && is_date_glob received_on && is_date_glob paid_through

abbrev pub known_batch : ℕ → Db → Bool
known_batch id db = exists_by (λ b. b.id == id) db.payment_batches

abbrev pub known_membership : ℕ → Db → Bool
known_membership id db = exists_by (λ m. m.id == id) db.memberships

-- CreatePaymentBatchEntry, with the foreign keys and ux_batch_entries_sequence
unfoldable pub create_payment_batch_entry : CreatePaymentBatchEntryParams → Tx PaymentBatchEntry
create_payment_batch_entry arg db =
    if not (entry_checks arg.amount_cents arg.method arg.received_on arg.paid_through)
    then err check_failed
    else if exists_by (λ e. e.batch_id == arg.batch_id && e.sequence == arg.sequence)
        db.payment_batch_entries
    then err unique_failed
    else if not (known_batch arg.batch_id db && known_membership arg.membership_id db)
    then err foreign_key_failed
    else ok (
      new_entry db arg,
      record db { payment_batch_entries = db.payment_batch_entries ++ new_entry db arg ∷ [] },
    )

pub record UpdatePaymentBatchEntryParams : Type 0 where
  pub membership_id : ℕ
  pub amount_cents : ℤ
  pub method : String
  pub reference : Option String
  pub received_on : String
  pub received_by_officer : Option String
  pub paid_through : String
  pub treasurer_note : Option String
  pub id : ℕ
  pub version : ℕ

-- `id = ? AND version = ?`
abbrev pub entry_at : ℕ → ℕ → PaymentBatchEntry → Bool
entry_at id version e = e.id == id && e.version == version

abbrev pub updated_entry :
    Db → UpdatePaymentBatchEntryParams → PaymentBatchEntry → PaymentBatchEntry
updated_entry db arg e = record e {
  membership_id = arg.membership_id;
  amount_cents = arg.amount_cents;
  method = arg.method;
  reference = arg.reference;
  received_on = arg.received_on;
  received_by_officer = arg.received_by_officer;
  paid_through = arg.paid_through;
  treasurer_note = arg.treasurer_note;
  version = e.version + 1;
  updated_at = db.clock.iso_timestamp;
}

-- UpdatePaymentBatchEntry
unfoldable pub update_payment_batch_entry : UpdatePaymentBatchEntryParams → Tx PaymentBatchEntry
update_payment_batch_entry arg db =
    elim (find_by (entry_at arg.id arg.version) db.payment_batch_entries) [
      | none ↦ err no_rows
      | some e ↦
          if not (entry_checks arg.amount_cents arg.method arg.received_on arg.paid_through)
          then err check_failed
          else if not (known_membership arg.membership_id db)
          then err foreign_key_failed
          else ok (
            updated_entry db arg e,
            record db {
              payment_batch_entries =
                  update_where (entry_at arg.id arg.version) (updated_entry db arg)
                    db.payment_batch_entries;
            },
          )
    ]

-- DeletePaymentBatchEntry under `db.CheckVersion` (internal/db/db.go): no deleted row is a stale write
unfoldable pub delete_payment_batch_entry : ℕ → ℕ → Tx (Unit {0})
delete_payment_batch_entry id version db =
    if exists_by (entry_at id version) db.payment_batch_entries
    then ok (
      tt,
      record db {
        payment_batch_entries = delete_where (entry_at id version) db.payment_batch_entries;
      },
    )
    else err stale

-- `SUM(amount_cents)` and `COUNT(*)` over rows with an amount and a method
module _ {A : Type 0} (amount : A → ℤ) where
  unfoldable pub sum_cents : List A → ℤ
  sum_cents [] = pos 0
  sum_cents (x ∷ xs) = amount x +ℤ sum_cents xs

module _ {A : Type 0} (amount : A → ℤ) (method : A → String) (m : String) where
  -- `SUM(CASE WHEN method = m THEN amount_cents ELSE 0 END)`
  unfoldable pub sum_method : List A → ℤ
  sum_method [] = pos 0
  sum_method (x ∷ xs) = (if str_eq (method x) m then amount x else pos 0) +ℤ sum_method xs

-- `SUM(CASE WHEN method = m THEN 1 ELSE 0 END)`
unfoldable pub count_method : {A : Type 0} → (A → String) → String → List A → ℕ
count_method method m [] = 0
count_method method m (x ∷ xs) = (if str_eq (method x) m then 1 else 0) + count_method method m xs

-- the columns of GetPaymentBatchTotals, which `assemble` copies into the domain's `Totals`
pub record Totals : Type 0 where
  pub entry_count : ℕ
  pub cash_count : ℕ
  pub cash_total_cents : ℤ
  pub check_count : ℕ
  pub check_total_cents : ℤ
  pub other_count : ℕ
  pub other_total_cents : ℤ
  pub net_total_cents : ℤ

unfoldable pub totals_of : List PaymentBatchEntry → Totals
totals_of es = record {
  entry_count = length es;
  cash_count = count_method (λ e. e.method) method_cash es;
  cash_total_cents = sum_method (λ e. e.amount_cents) (λ e. e.method) method_cash es;
  check_count = count_method (λ e. e.method) method_check es;
  check_total_cents = sum_method (λ e. e.amount_cents) (λ e. e.method) method_check es;
  other_count = count_method (λ e. e.method) method_other es;
  other_total_cents = sum_method (λ e. e.amount_cents) (λ e. e.method) method_other es;
  net_total_cents = sum_cents (λ e. e.amount_cents) es;
}

-- GetPaymentBatchTotals. The sums are exact: they leave out SQLite's overflow error, past 2^63 cents.
unfoldable pub get_payment_batch_totals : ℕ → Tx Totals
get_payment_batch_totals batch_id = gets (λ db. totals_of (entries_of batch_id db))
