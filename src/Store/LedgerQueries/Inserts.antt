-- ===== src/Store/LedgerQueries/Inserts.antt =====
-- What a successful insert into the ledger has checked, and what it has written.
use bcars_portal.Base.{◌≡◌, true, [], ◌∷◌, ◌++◌, arith}
use bcars_portal.Outcome.{ok}
use bcars_portal.Store.Rows.{Payment, PaymentCorrection}
use bcars_portal.Store.Tx.{Db}
use bcars_portal.Store.LedgerQueries.{
  CreatePaymentParams, CreatePaymentCorrectionParams, create_payment, new_payment, payment_checks,
  payment_unique, payment_references, create_payment_correction, new_correction,
}

pub record PaymentInserted (arg : CreatePaymentParams) (db db' : Db) (p : Payment) : Type 0 where
  pub row : p ≡ new_payment db arg
  pub state : db' ≡ record db { payments = db.payments ++ new_payment db arg ∷ [] }
  pub checks : payment_checks arg ≡ true
  pub unique : payment_unique arg db ≡ true
  pub references : payment_references arg db ≡ true

pub create_payment-eq-ok :
    (arg : CreatePaymentParams) (db db' : Db) (p : Payment)
    → create_payment arg db ≡ ok (p, db')
    → PaymentInserted arg db db' p
unfolding create_payment
create_payment-eq-ok arg db db' p e = record {
  row = ground arith;
  state = ground arith;
  checks = ground arith;
  unique = ground arith;
  references = ground arith;
}

pub record CorrectionInserted (arg : CreatePaymentCorrectionParams) (db db' : Db)
    (c : PaymentCorrection) : Type 0 where
  pub row : c ≡ new_correction db arg
  pub state :
      db' ≡ record db { payment_corrections = db.payment_corrections ++ new_correction db arg ∷ [] }

pub create_payment_correction-eq-ok :
    (arg : CreatePaymentCorrectionParams) (db db' : Db) (c : PaymentCorrection)
    → create_payment_correction arg db ≡ ok (c, db')
    → CorrectionInserted arg db db' c
unfolding create_payment_correction
create_payment_correction-eq-ok arg db db' c e = record { row = ground arith; state = ground arith }
