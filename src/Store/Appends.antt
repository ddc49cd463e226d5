-- ===== src/Store/Appends.antt =====
-- The ledger only grows: no statement changes or drops a posted payment, a correction or a coverage
-- decision.
pub mod Statements
use mathlib.Core.List.{append-nil, append_assoc}
use bcars_portal.Base.{ℕ, String, ◌≡◌, refl, sym, ◌∙◌, ap, Option, List, [], ◌∷◌, ◌++◌, arith}
use bcars_portal.Store.Rows.{Payment, PaymentCorrection, CoverageEvent}
use bcars_portal.Store.Tx.{Db, Tx, ◌>>=◌}
use bcars_portal.Store.BatchQueries.{
  CreatePaymentBatchParams, UpdatePaymentBatchDefaultsParams, create_payment_batch,
  update_payment_batch_defaults, touch_payment_batch, mark_payment_batch_posted,
  mark_payment_batch_abandoned,
}
use bcars_portal.Store.Follows.{Follows, IsHistory}

-- `ys` continues `xs`
pub record Extends {A : Type 0} (xs ys : List A) : Type 0 where
  pub more : List A
  pub grown : ys ≡ xs ++ more

pub Extends-refl : {A : Type 0} (xs : List A) → Extends xs xs
Extends-refl xs = record { more = []; grown = sym (append-nil xs) }

pub Extends-trans : {A : Type 0} (xs ys zs : List A) → Extends xs ys → Extends ys zs → Extends xs zs
Extends-trans xs ys zs p q = record {
  more = p.more ++ q.more;
  grown = rw (q.grown, p.grown) (append_assoc xs p.more q.more);
}

pub Extends-snoc : {A : Type 0} (xs : List A) (x : A) → Extends xs (xs ++ x ∷ [])
Extends-snoc xs x = record { more = x ∷ []; grown = refl }

pub record Appends (a b : Db) : Type 0 where
  pub payments : Extends a.payments b.payments
  pub corrections : Extends a.payment_corrections b.payment_corrections
  pub coverage : Extends a.coverage_events b.coverage_events

pub Appends-IsHistory : IsHistory Appends
Appends-IsHistory = record {
  stays = λ db. record {
    payments = Extends-refl db.payments;
    corrections = Extends-refl db.payment_corrections;
    coverage = Extends-refl db.coverage_events;
  };
  chains = λ a b c p q. record {
    payments = Extends-trans a.payments b.payments c.payments p.payments q.payments;
    corrections =
        Extends-trans a.payment_corrections b.payment_corrections c.payment_corrections
          p.corrections q.corrections;
    coverage =
        Extends-trans a.coverage_events b.coverage_events c.coverage_events p.coverage q.coverage;
  };
}

-- Draft work leaves the whole ledger as it is.
pub record Inert (a b : Db) : Type 0 where
  pub payments : b.payments ≡ a.payments
  pub corrections : b.payment_corrections ≡ a.payment_corrections
  pub coverage : b.coverage_events ≡ a.coverage_events

pub Inert-IsHistory : IsHistory Inert
Inert-IsHistory = record {
  stays = λ db. record { payments = refl; corrections = refl; coverage = refl };
  chains = λ a b c p q. record {
    payments = q.payments ∙ p.payments;
    corrections = q.corrections ∙ p.corrections;
    coverage = q.coverage ∙ p.coverage;
  };
}

-- What leaves the ledger as it is appends to it.
pub Inert→Appends : (a b : Db) → Inert a b → Appends a b
Inert→Appends a b h = record {
  payments = record { more = []; grown = h.payments ∙ sym (append-nil a.payments) };
  corrections = record {
    more = [];
    grown = h.corrections ∙ sym (append-nil a.payment_corrections);
  };
  coverage = record { more = []; grown = h.coverage ∙ sym (append-nil a.coverage_events) };
}
