-- ===== src/Batches/Correct/Effect.antt =====
-- What a successful correction writes (internal/domain/batches/correct.go).
use mathlib.Core.List.{append_assoc}
use bcars_portal.Base.{
  ℕ, ◌+◌, String, ◌≡◌, ◌∙◌, refl, sym, ap, ap₂, Option, not, subst, if◌then◌else◌, some, List, [],
  ◌∷◌, ◌++◌, ◌==◌, arith, inl, inr, ==_sound,
}
use bcars_portal.Base.Int.{ℤ, neg, ◌+ℤ◌, ◌-ℤ◌, int_laws, zero_+ℤ, +ℤ_assoc}
use bcars_portal.Outcome.{ok, stale, payment_superseded}
use bcars_portal.Store.Rows.{Payment, PaymentCorrection, kind_reversal, kind_replacement}
use bcars_portal.Store.Tx.{Db, Instant, gets, pure, fail, or_clock}
use bcars_portal.Store.EntryQueries.{sum_cents}
use bcars_portal.Store.LedgerQueries.{
  create_payment, create_payment_correction, get_payment, find_payment,
}
use bcars_portal.Store.LedgerQueries.Inserts.{create_payment-eq-ok, create_payment_correction-eq-ok}
use bcars_portal.Store.CoverageQueries.{
  CreateCoverageEventParams, create_coverage_event, get_coverage_event_by_payment,
  get_effective_coverage_event,
}
use bcars_portal.Store.CoverageQueries.Inserts.{create_coverage_event-eq-ok}
use bcars_portal.Store.Follows.{
  Follows, IsHistory, >>=-eq-ok, pure-eq-ok, gets-eq-ok, follows_rules,
}
use bcars_portal.Store.Runs.{one-eq-ok, if-eq-ok}
use bcars_portal.Base.ListLaws.{find_by-true}
use bcars_portal.Batches.Post.Effect.{Same, Same-IsHistory}
use bcars_portal.Batches.Reads.{effective_payment-Follows, require_correctable-Follows}
use bcars_portal.Batches.Correct.{
  CorrectParams, reversal_params, replacement_params, append_correction,
  adjust_coverage_for_correction, effective_payment, require_current, require_correctable,
  correct_tx,
}

-- the coverage decision leaves payments and corrections alone
record OnlyCoverage (a b : Db) : Type 0 where
  payments : b.payments ≡ a.payments
  corrections : b.payment_corrections ≡ a.payment_corrections

OnlyCoverage-IsHistory : IsHistory OnlyCoverage
OnlyCoverage-IsHistory = record {
  stays = λ db. record { payments = refl; corrections = refl };
  chains = λ a b c p q. record {
    payments = q.payments ∙ p.payments;
    corrections = q.corrections ∙ p.corrections;
  };
}

create_coverage_event-OnlyCoverage :
    (arg : CreateCoverageEventParams) → Follows OnlyCoverage (create_coverage_event arg)
create_coverage_event-OnlyCoverage arg = record {
  at = λ db db' a e.
      let state = (create_coverage_event-eq-ok arg db db' a e).state in
      record {
        payments = ap (λ (d : Db). d.payments) state;
        corrections = ap (λ (d : Db). d.payment_corrections) state;
      };
}

adjust-OnlyCoverage :
    (actor : ℕ) (p q : Payment) (params : CorrectParams) (at : String)
    → Follows OnlyCoverage (adjust_coverage_for_correction actor p q params at)
unfolding adjust_coverage_for_correction get_coverage_event_by_payment get_effective_coverage_event
adjust-OnlyCoverage actor p q params at =
    search (follows_rules, OnlyCoverage-IsHistory, create_coverage_event-OnlyCoverage) depth 12

-- The payment `e` is taken back by `r` and replaced by `q`, under the link `c`.
pub record Replaces (e r q : Payment) (c : PaymentCorrection) (params : CorrectParams)
    : Type 0 where
  pub reversed : r.amount_cents ≡ neg e.amount_cents
  pub restated : q.amount_cents ≡ params.amount_cents
  pub reversal_kind : r.entry_kind ≡ kind_reversal
  pub replacement_kind : q.entry_kind ≡ kind_replacement
  pub reversal_target : r.corrects_payment_id ≡ some e.id
  pub replacement_target : q.corrects_payment_id ≡ some e.id
  pub same_member : (r.membership_id ≡ e.membership_id) × (q.membership_id ≡ e.membership_id)
  pub same_batch : (r.batch_id ≡ e.batch_id) × (q.batch_id ≡ e.batch_id)
  pub original_link : c.original_payment_id ≡ e.id
  pub reversal_link : c.reversal_payment_id ≡ r.id
  pub replacement_link : c.replacement_payment_id ≡ q.id

pub record Appended (e q : Payment) (params : CorrectParams) (db db' : Db) : Type 0 where
  pub r : Payment
  pub c : PaymentCorrection
  pub replaces : Replaces e r q c params
  pub payments : db'.payments ≡ db.payments ++ r ∷ q ∷ []
  pub corrections : db'.payment_corrections ≡ db.payment_corrections ++ c ∷ []

append_correction-eq-ok :
    (actor : ℕ) (at : String) (e : Payment) (revision : ℕ) (params : CorrectParams) (db db' : Db)
    (out : Payment)
    → append_correction actor at e revision params db ≡ ok (out, db')
    → Appended e out params db db'
unfolding append_correction
append_correction-eq-ok actor at e revision params db db' out h =
    let (r, s1, hr, h1) =
      >>=-eq-ok (create_payment (reversal_params actor at e revision)) _ db db' out h in
    let (q, s2, hq, h2) =
      >>=-eq-ok (create_payment (replacement_params actor at e revision params)) _ s1 db' out h1 in
    let (c, s3, hc, h3) = >>=-eq-ok (create_payment_correction _) _ s2 db' out h2 in
    let first = create_payment-eq-ok (reversal_params actor at e revision) db s1 r hr in
    let second = create_payment-eq-ok (replacement_params actor at e revision params) s1 s2 q hq in
    let link = create_payment_correction-eq-ok _ s2 s3 c hc in
    let end = pure-eq-ok q out s3 db' h3 in
    record {
      r = r;
      c = c;
      replaces = record {
        reversed = cc first.row;
        restated = cc (second.row, end.0);
        reversal_kind = cc first.row;
        replacement_kind = cc (second.row, end.0);
        reversal_target = cc first.row;
        replacement_target = cc (second.row, end.0);
        same_member = (cc first.row, cc (second.row, end.0));
        same_batch = (cc first.row, cc (second.row, end.0));
        original_link = cc link.row;
        reversal_link = cc link.row;
        replacement_link = cc (link.row, end.0);
      };
      payments = cc (
        end.0,
        ap (λ (d : Db). d.payments) end.1,
        ap (λ (d : Db). d.payments) link.state,
        ap (λ (d : Db). d.payments) second.state,
        ap (λ (d : Db). d.payments) first.state,
        first.row,
        second.row,
        append_assoc db.payments (r ∷ []) (q ∷ []),
      );
      corrections = cc (
        link.row,
        ap (λ (d : Db). d.payment_corrections) end.1,
        ap (λ (d : Db). d.payment_corrections) link.state,
        ap (λ (d : Db). d.payment_corrections) second.state,
        ap (λ (d : Db). d.payment_corrections) first.state,
      );
    }

abbrev pub net : List Payment → ℤ
net = sum_cents (λ p. p.amount_cents)

pub sum_cents-append : (xs ys : List Payment) → net (xs ++ ys) ≡ net xs +ℤ net ys
unfolding sum_cents
sum_cents-append [] ys = sym (zero_+ℤ (net ys))
sum_cents-append (x ∷ xs) ys =
    ap (◌+ℤ◌ x.amount_cents) (sum_cents-append xs ys)
    ∙ sym (+ℤ_assoc x.amount_cents (net xs) (net ys))

-- what a correction adds to the net total
net_change :
    (xs : List Payment) (e r q : Payment) (amount : ℤ)
    → r.amount_cents ≡ neg e.amount_cents
    → q.amount_cents ≡ amount
    → net (xs ++ r ∷ q ∷ []) ≡ net xs +ℤ amount -ℤ e.amount_cents
unfolding sum_cents
net_change xs e r q amount reversed restated =
    sum_cents-append xs (r ∷ q ∷ []) ∙ rw (reversed, restated) (omega int_laws)

pub record Corrects (payment_id : ℕ) (params : CorrectParams) (q : Payment) (db db' : Db)
    : Type 0 where
  pub e : Payment
  pub walked : effective_payment payment_id db ≡ ok ((e, params.expected_revision), db)
  pub current : e.id ≡ payment_id
  pub appended : Appended e q params db db'
  pub net_total : net db'.payments ≡ net db.payments +ℤ params.amount_cents -ℤ e.amount_cents

current-eq-ok :
    (expected revision : ℕ) (target effective : Payment) (db db' : Db) (u : Unit {0})
    → require_current expected revision target effective db ≡ ok (u, db')
    → (revision ≡ expected) × (effective.id ≡ target.id) × (db' ≡ db)
unfolding require_current pure fail
current-eq-ok expected revision target effective db db' u h =
    elim (if-eq-ok (not (revision == expected)) (fail stale)
      (if effective.id == target.id then pure tt else fail payment_superseded) db (u, db') h) [
        | inl stale_revision ↦ cc stale_revision.1
        | inr (fresh, h1) ↦
            elim (if-eq-ok (effective.id == target.id) (pure tt) (fail payment_superseded) db
              (u, db') h1) [
                | inl (same, done) ↦ (
                  ==_sound revision expected (ground (arith, fresh)),
                  ==_sound effective.id target.id same,
                  cc done,
                )
                | inr superseded ↦ cc superseded.1
              ]
      ]

get_payment-eq-ok :
    (id : ℕ) (db db' : Db) (p : Payment)
    → get_payment id db ≡ ok (p, db')
    → (p.id ≡ id) × (db' ≡ db)
unfolding get_payment
get_payment-eq-ok id db db' p h =
    let (found, same) = one-eq-ok (find_payment id) db db' p h in
    (==_sound p.id id (find_by-true (λ q. q.id == id) db.payments p found), same)

-- rows appended, seen from tables with the same rows before and after
Appended-between :
    (e p q : Payment) (params : CorrectParams) (s s' db db' : Db)
    → Appended e p params s s'
    → s ≡ db
    → p ≡ q
    → OnlyCoverage s' db'
    → Appended e q params db db'
Appended-between e p q params s s' db db' h base same after_it = record {
  r = h.r;
  c = h.c;
  replaces = subst (λ x. Replaces e h.r x h.c params) same h.replaces;
  payments =
      after_it.payments ∙ h.payments ∙ ap₂ (λ (d : Db) x. d.payments ++ h.r ∷ x ∷ []) base same;
  corrections =
      after_it.corrections
      ∙ h.corrections
      ∙ ap (λ (d : Db). d.payment_corrections ++ h.c ∷ []) base;
}

-- A correction that succeeds found, at the revision the caller expected, that nothing had superseded
-- the payment it was asked to correct. It appends a reversal of that payment and a replacement with
-- the stated amount, linked to it by one correction record, keeps every row that was there, and
-- changes the ledger's net total by the difference of the two amounts.
pub correct_tx-eq-ok :
    (actor payment_id : ℕ) (params : CorrectParams) (now : Option Instant) (db db' : Db)
    (q : Payment)
    → correct_tx actor payment_id params now db ≡ ok (q, db')
    → Corrects payment_id params q db db'
unfolding correct_tx
correct_tx-eq-ok actor payment_id params now db db' q h =
    let (target, s1, ht, h1) = >>=-eq-ok (get_payment payment_id) _ db db' q h in
    let (u, s2, hu, h2) = >>=-eq-ok (require_correctable target) _ s1 db' q h1 in
    let (found, s3, hf, h3) = >>=-eq-ok (effective_payment payment_id) _ s2 db' q h2 in
    let (v, s4, hv, h4) =
      >>=-eq-ok (require_current params.expected_revision found.1 target found.0) _ s3 db' q h3 in
    let (t, s5, hc, h5) = >>=-eq-ok (gets (or_clock now)) _ s4 db' q h4 in
    let (p, s6, hp, h6) =
      >>=-eq-ok (append_correction actor t.iso_timestamp found.0 (found.1 + 1) params) _ s5 db' q
        h5 in
    let (w, s7, hw, h7) =
      >>=-eq-ok (adjust_coverage_for_correction actor found.0 p params t.iso_timestamp) _ s6 db' q
        h6 in
    let got = get_payment-eq-ok payment_id db s1 target ht in
    let same2 : s2 ≡ s1 = (require_correctable-Follows Same Same-IsHistory target).at s1 s2 u hu in
    let same3 : s3 ≡ s2 =
      (effective_payment-Follows Same Same-IsHistory payment_id).at s2 s3 found hf in
    let current = current-eq-ok params.expected_revision found.1 target found.0 s3 s4 v hv in
    let same5 = gets-eq-ok (or_clock now) t s4 s5 hc in
    let appended =
      append_correction-eq-ok actor t.iso_timestamp found.0 (found.1 + 1) params s5 s6 p hp in
    let cover = (adjust-OnlyCoverage actor found.0 p params t.iso_timestamp).at s6 s7 w hw in
    let end = pure-eq-ok p q s7 db' h7 in
    let base2 : s2 ≡ db = same2 ∙ got.1 in
    let base3 : s3 ≡ db = same3 ∙ base2 in
    let base5 : s5 ≡ db = same5.1 ∙ current.2 ∙ base3 in
    let rows =
      Appended-between found.0 p q params s5 s6 db db' appended base5 end.0
        (subst (OnlyCoverage s6) end.1 cover) in
    record {
      e = found.0;
      walked =
          ap (effective_payment payment_id) (sym base2)
          ∙ hf
          ∙ ap₂ (λ n (d : Db). ok ((found.0, n), d)) current.0 base3;
      current = current.1 ∙ got.0;
      appended = rows;
      net_total =
          ap net rows.payments
          ∙ net_change db.payments found.0 rows.r q params.amount_cents rows.replaces.reversed
              rows.replaces.restated;
    }
