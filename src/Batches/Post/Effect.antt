-- ===== src/Batches/Post/Effect.antt =====
-- What posting writes: one payment for each draft row, in the order of the sequences.
use mathlib.Core.List.{append-nil, append_assoc}
use bcars_portal.Base.{
  ℕ, suc, String, ◌≡◌, refl, ap, ◌∙◌, none, some, List, [], ◌∷◌, ◌++◌, map, arith,
}
use bcars_portal.Base.ListLaws.{max_of-snoc}
use bcars_portal.Outcome.{ok}
use bcars_portal.Store.Rows.{Payment, PaymentBatchEntry, CoverageEvent, kind_original}
use bcars_portal.Store.Tx.{Db, next_id, pure}
use bcars_portal.Store.LedgerQueries.{CreatePaymentParams, create_payment}
use bcars_portal.Store.LedgerQueries.Inserts.{create_payment-eq-ok}
use bcars_portal.Store.CoverageQueries.{CreateCoverageEventParams, create_coverage_event}
use bcars_portal.Store.CoverageQueries.Inserts.{create_coverage_event-eq-ok}
use bcars_portal.Store.Follows.{
  Follows, IsHistory, >>=-eq-ok, follows_rules, Follows-bind, Follows-pure,
}
use bcars_portal.Batches.Reads.{effective_coverage_id-Follows}
use bcars_portal.Batches.Types.{payment_from_row}
use bcars_portal.Batches.Post.{
  Written, Rows, payment_params, coverage_params, effective_coverage_id, post_entry, post_entries,
  receipt_code,
}

-- the payment that a draft row becomes, under the key `n`
abbrev pub payment_row : ℕ → ℕ → String → String → ℕ → PaymentBatchEntry → Payment
payment_row actor batch_id entered_at created_at n e = record {
  id = n;
  membership_id = e.membership_id;
  batch_id = some batch_id;
  amount_cents = e.amount_cents;
  method = e.method;
  reference = e.reference;
  received_on = e.received_on;
  received_by_officer = e.received_by_officer;
  entered_by = actor;
  entered_at = entered_at;
  receipt_code = receipt_code batch_id e.sequence;
  entry_kind = kind_original;
  corrects_payment_id = none;
  treasurer_note = e.treasurer_note;
  created_at = created_at;
}

-- the payments that a list of rows becomes, under consecutive keys
abbrev pub payment_rows : ℕ → ℕ → String → String → ℕ → List PaymentBatchEntry → List Payment
payment_rows actor batch_id entered_at created_at n [] = []
payment_rows actor batch_id entered_at created_at n (e ∷ es) =
    payment_row actor batch_id entered_at created_at n e
    ∷ payment_rows actor batch_id entered_at created_at (suc n) es

abbrev pub Same : Db → Db → Type 0
Same a b = b ≡ a

pub Same-IsHistory : IsHistory Same
Same-IsHistory = record { stays = λ db. refl; chains = λ a b c p q. q ∙ p }

pub next_id-snoc :
    (ps : List Payment) (p : Payment)
    → p.id ≡ next_id (λ q. q.id) ps
    → next_id (λ q. q.id) (ps ++ p ∷ []) ≡ suc (next_id (λ q. q.id) ps)
unfolding next_id
next_id-snoc ps p e = omega (arith, max_of-snoc (λ (q : Payment). q.id) ps p)

-- the tables that posting a row leaves alone
pub record OnlyLedger (a b : Db) : Type 0 where
  pub clock : b.clock ≡ a.clock
  pub memberships : b.memberships ≡ a.memberships
  pub batches : b.payment_batches ≡ a.payment_batches
  pub entries : b.payment_batch_entries ≡ a.payment_batch_entries
  pub corrections : b.payment_corrections ≡ a.payment_corrections
  pub records : b.idempotency_records ≡ a.idempotency_records

pub OnlyLedger-IsHistory : IsHistory OnlyLedger
OnlyLedger-IsHistory = record {
  stays = λ db. record {
    clock = refl;
    memberships = refl;
    batches = refl;
    entries = refl;
    corrections = refl;
    records = refl;
  };
  chains = λ a b c p q. record {
    clock = q.clock ∙ p.clock;
    memberships = q.memberships ∙ p.memberships;
    batches = q.batches ∙ p.batches;
    entries = q.entries ∙ p.entries;
    corrections = q.corrections ∙ p.corrections;
    records = q.records ∙ p.records;
  };
}

create_payment-OnlyLedger : (arg : CreatePaymentParams) → Follows OnlyLedger (create_payment arg)
unfolding create_payment
create_payment-OnlyLedger arg = record { at = λ db db' a e. ground arith }

create_coverage_event-OnlyLedger :
    (arg : CreateCoverageEventParams) → Follows OnlyLedger (create_coverage_event arg)
unfolding create_coverage_event
create_coverage_event-OnlyLedger arg = record { at = λ db db' a e. ground arith }

-- a relation that the two inserts keep is kept by the loop
module _ (R : Db → Db → Type 0) (hist : IsHistory R)
    (pays : (arg : CreatePaymentParams) → Follows R (create_payment arg))
    (covers : (arg : CreateCoverageEventParams) → Follows R (create_coverage_event arg))
    (actor batch_id : ℕ) (entered_at : String) where
  pub post_entry-Follows :
      (e : PaymentBatchEntry) (written : Written)
      → Follows R (post_entry actor batch_id entered_at e written)
  unfolding post_entry
  post_entry-Follows e written =
      search (follows_rules, hist, pays, covers, effective_coverage_id-Follows) depth 9

  pub post_entries-Follows :
      (es : List PaymentBatchEntry) (written : Written)
      → Follows R (post_entries actor batch_id entered_at es written)
  unfolding post_entries
  post_entries-Follows [] written = Follows-pure R hist _
  post_entries-Follows (e ∷ es) written =
      Follows-bind R hist _ _ (post_entry-Follows e written) (λ wrote.
        Follows-bind R hist _ _ (post_entries-Follows es ((e.membership_id, wrote.1.id) ∷ written))
          (λ rows. Follows-pure R hist _))

pub post_entries-OnlyLedger :
    (actor batch_id : ℕ) (entered_at : String) (es : List PaymentBatchEntry) (written : Written)
    → Follows OnlyLedger (post_entries actor batch_id entered_at es written)
post_entries-OnlyLedger =
    post_entries-Follows OnlyLedger OnlyLedger-IsHistory create_payment-OnlyLedger
      create_coverage_event-OnlyLedger

pub record EntryPosted (actor batch_id : ℕ) (entered_at : String) (e : PaymentBatchEntry)
    (db db' : Db) (p : Payment) : Type 0 where
  pub row :
      p
      ≡ payment_row actor batch_id entered_at db.clock.iso_timestamp
          (next_id (λ q. q.id) db.payments)
          e
  pub payments : db'.payments ≡ db.payments ++ p ∷ []

module _ (actor batch_id : ℕ) (entered_at : String) where
  post_entry-eq-ok :
      (e : PaymentBatchEntry) (written : Written) (db db' : Db) (wrote : Payment × CoverageEvent)
      → post_entry actor batch_id entered_at e written db ≡ ok (wrote, db')
      → EntryPosted actor batch_id entered_at e db db' wrote.0
  unfolding post_entry pure
  post_entry-eq-ok e written db db' wrote h =
      let (p, s, hp, h1) =
        >>=-eq-ok (create_payment (payment_params actor batch_id entered_at e)) _ db db' wrote h in
      let (sup, s2, hs, h2) =
        >>=-eq-ok (effective_coverage_id e.membership_id written) _ s db' wrote h1 in
      let (c, s3, hc, h3) =
        >>=-eq-ok (create_coverage_event (coverage_params actor entered_at e p.id sup)) _ s2 db'
          wrote h2 in
      let ip = create_payment-eq-ok (payment_params actor batch_id entered_at e) db s p hp in
      let same =
        (effective_coverage_id-Follows Same Same-IsHistory e.membership_id written).at s s2 sup
          hs in
      let ic =
        create_coverage_event-eq-ok (coverage_params actor entered_at e p.id sup) s2 s3 c hc in
      record {
        row = cc (h3, ip.row);
        payments = cc (
          h3,
          ip.row,
          ap (λ (d : Db). d.payments) ip.state,
          ap (λ (d : Db). d.payments) same,
          ap (λ (d : Db). d.payments) ic.state,
        );
      }

  -- The loop appends the payments of its rows and returns them.
  pub post_entries-eq-ok :
      (es : List PaymentBatchEntry) (written : Written) (db db' : Db) (rows : Rows)
      → post_entries actor batch_id entered_at es written db ≡ ok (rows, db')
      → let new =
          payment_rows actor batch_id entered_at db.clock.iso_timestamp
            (next_id (λ q. q.id) db.payments)
            es in
        (db'.payments ≡ db.payments ++ new) × (rows.0 ≡ map payment_from_row new)
  unfolding post_entries pure
  post_entries-eq-ok [] written db db' rows h = (cc (append-nil db.payments, h), cc h)
  post_entries-eq-ok (e ∷ es) written db db' rows h =
      let (wrote, s, hw, h1) =
        >>=-eq-ok (post_entry actor batch_id entered_at e written) _ db db' rows h in
      let (rest, s2, hr, h2) =
        >>=-eq-ok
          (post_entries actor batch_id entered_at es ((e.membership_id, wrote.1.id) ∷ written)) _ s
          db' rows h1 in
      let one = post_entry-eq-ok e written db s wrote hw in
      let frame =
        (post_entry-Follows OnlyLedger OnlyLedger-IsHistory create_payment-OnlyLedger
            create_coverage_event-OnlyLedger actor batch_id entered_at e written).at
          db s wrote hw in
      let ih = post_entries-eq-ok es ((e.membership_id, wrote.1.id) ∷ written) s s2 rest hr in
      let next = next_id (λ (q : Payment). q.id) db.payments in
      let tail = payment_rows actor batch_id entered_at db.clock.iso_timestamp (suc next) es in
      let grown : next_id (λ q. q.id) s.payments ≡ suc next =
        rw one.payments (next_id-snoc db.payments wrote.0 (ap (λ (p : Payment). p.id) one.row)) in
      let moved : payment_rows actor batch_id entered_at s.clock.iso_timestamp
            (next_id (λ q. q.id) s.payments) es
          ≡ tail =
        rw (frame.clock, grown) refl in
      (
        cc (h2, ih.0, moved, one.payments, one.row, append_assoc db.payments (wrote.0 ∷ []) tail),
        cc (h2, ih.1, moved, one.row),
      )
