-- ===== src/Batches/Chain/Kept.antt =====
-- What the statements and a correction do to the chains of the ledger.
use bcars_portal.Base.{
  ℕ, String, ◌<◌, ◌≡◌, refl, sym, ap, subst, true, Option, none, some, List, [], ◌∷◌, ◌++◌, ◌==◌,
  arith, All, ==_sound, ==_refl,
}
use bcars_portal.Base.ListLaws.{find_by-true}
use bcars_portal.Base.FindLaws.{
  exists_by-find_by, exists_by-snoc, exists_by-last, find_by-max_of, All-map, All-snoc,
}
use bcars_portal.Outcome.{ok}
use bcars_portal.Store.Rows.{Payment, PaymentCorrection}
use bcars_portal.Store.Tx.{Db, next_id}
use bcars_portal.Store.LedgerQueries.{
  CreatePaymentParams, create_payment, new_payment, payment_references, new_correction,
  create_payment_correction, CreatePaymentCorrectionParams,
}
use bcars_portal.Store.LedgerQueries.Inserts.{create_payment-eq-ok, create_payment_correction-eq-ok}
use bcars_portal.Store.CoverageQueries.{CreateCoverageEventParams, create_coverage_event}
use bcars_portal.Store.CoverageQueries.Inserts.{create_coverage_event-eq-ok}
use bcars_portal.Store.Follows.{Follows, IsHistory, >>=-eq-ok, pure-eq-ok}
use bcars_portal.Store.Appends.{Inert}
use bcars_portal.Batches.Correct.{
  CorrectParams, append_correction, reversal_params, replacement_params,
}
use bcars_portal.Batches.Chain.{Recorded, Earlier, Backward, Forward, Chained}

abbrev pub KeepsChains : Db → Db → Type 0
KeepsChains a b = Chained a → Chained b

pub KeepsChains-IsHistory : IsHistory KeepsChains
KeepsChains-IsHistory = record { stays = λ db h. h; chains = λ a b c p q h. q (p h) }

same_ledger :
    (a b : Db)
    → b.payments ≡ a.payments
    → b.payment_corrections ≡ a.payment_corrections
    → KeepsChains a b
same_ledger a b p c h = record {
  backward = subst (λ ps. All (Backward ps) ps) (sym p) h.backward;
  forward = rw (p, c) h.forward;
}

pub Inert→KeepsChains : (a b : Db) → Inert a b → KeepsChains a b
Inert→KeepsChains a b h = same_ledger a b h.payments h.corrections

pub create_coverage_event-KeepsChains :
    (arg : CreateCoverageEventParams) → Follows KeepsChains (create_coverage_event arg)
create_coverage_event-KeepsChains arg = record {
  at = λ db db' a e.
      let state = (create_coverage_event-eq-ok arg db db' a e).state in
      same_ledger db db' (ap (λ (d : Db). d.payments) state)
        (ap (λ (d : Db). d.payment_corrections) state);
}

-- a key that is recorded is older than the next one
Recorded-lt-next_id :
    (id : ℕ) (ps : List Payment) → Recorded id ps → id < next_id (λ (p : Payment). p.id) ps
unfolding next_id
Recorded-lt-next_id id ps h =
    let is = λ (p : Payment). p.id == id in
    let (p, found) = exists_by-find_by is ps h in
    omega (
      arith,
      find_by-max_of (λ (q : Payment). q.id) is ps p found,
      ==_sound p.id id (find_by-true is ps p found),
    )

Recorded-snoc :
    (id : ℕ) (ps : List Payment) (p : Payment) → Recorded id ps → Recorded id (ps ++ p ∷ [])
Recorded-snoc id ps p h = exists_by-snoc (λ (q : Payment). q.id == id) ps p h

Earlier-snoc :
    (ps : List Payment) (p : Payment) (n : ℕ) (o : Option ℕ)
    → Earlier ps n o
    → Earlier (ps ++ p ∷ []) n o
Earlier-snoc ps p n none h = h
Earlier-snoc ps p n (some k) h = (h.0, Recorded-snoc k ps p h.1)

-- the reference of the new payment, which the insert has checked
target-Recorded :
    (arg : CreatePaymentParams) (db : Db) (id : ℕ)
    → arg.corrects_payment_id ≡ some id
    → payment_references arg db ≡ true
    → Recorded id db.payments
unfolding payment_references
target-Recorded arg db id e h = ground arith

new_Earlier :
    (arg : CreatePaymentParams) (db : Db) (p : Payment) (o : Option ℕ)
    → arg.corrects_payment_id ≡ o
    → payment_references arg db ≡ true
    → Earlier (db.payments ++ p ∷ []) (next_id (λ q. q.id) db.payments) o
new_Earlier arg db p none e h = tt
new_Earlier arg db p (some k) e h =
    let known = target-Recorded arg db k e h in
    (Recorded-lt-next_id k db.payments known, Recorded-snoc k db.payments p known)

pub create_payment-KeepsChains :
    (arg : CreatePaymentParams) → Follows KeepsChains (create_payment arg)
create_payment-KeepsChains arg = record {
  at = λ db db' a e h.
      let done = create_payment-eq-ok arg db db' a e in
      let p = new_payment db arg in
      let old = db.payments in
      subst Chained (sym done.state) (record {
        backward =
            All-snoc (Backward (old ++ p ∷ [])) old p
              (All-map (Backward old) (Backward (old ++ p ∷ []))
                (λ q k. Earlier-snoc old p q.id q.corrects_payment_id k) old h.backward)
              (new_Earlier arg db p arg.corrects_payment_id refl done.references);
        forward =
            All-map (Forward old) (Forward (old ++ p ∷ []))
              (λ c k. (k.0, Recorded-snoc c.replacement_payment_id old p k.1))
              db.payment_corrections h.forward;
      });
}

-- a correction keeps the chains where it names an older and a recorded payment
correction_step :
    (arg : CreatePaymentCorrectionParams) (db db' : Db) (c : PaymentCorrection)
    → create_payment_correction arg db ≡ ok (c, db')
    → arg.original_payment_id < arg.replacement_payment_id
    → Recorded arg.replacement_payment_id db.payments
    → KeepsChains db db'
correction_step arg db db' c e lt known h =
    subst Chained (sym (create_payment_correction-eq-ok arg db db' c e).state) (record {
      backward = h.backward;
      forward =
          All-snoc (Forward db.payments) db.payment_corrections (new_correction db arg) h.forward
            (lt, known);
    })

-- the replacement is newer than what it replaces, and recorded
replacement_step :
    (arg : CreatePaymentParams) (db db' : Db) (p : Payment) (id : ℕ)
    → arg.corrects_payment_id ≡ some id
    → create_payment arg db ≡ ok (p, db')
    → (id < p.id) × Recorded p.id db'.payments
replacement_step arg db db' p id e h =
    let done = create_payment-eq-ok arg db db' p h in
    let known = target-Recorded arg db id e done.references in
    let key : p.id ≡ next_id (λ q. q.id) db.payments = ap (λ (q : Payment). q.id) done.row in
    let recorded =
      exists_by-last (λ (q : Payment). q.id == p.id) db.payments (new_payment db arg)
        (subst (λ k. (k == p.id) ≡ true) key (==_refl p.id)) in
    (
      subst (λ n. id < n) (sym key) (Recorded-lt-next_id id db.payments known),
      subst (Recorded p.id) (sym (ap (λ (d : Db). d.payments) done.state)) recorded,
    )

pub append_correction-KeepsChains :
    (actor : ℕ) (at : String) (p : Payment) (revision : ℕ) (params : CorrectParams)
    → Follows KeepsChains (append_correction actor at p revision params)
unfolding append_correction
append_correction-KeepsChains actor at p revision params = record {
  at = λ db db' out e h.
      let (r, s1, hr, h1) =
        >>=-eq-ok (create_payment (reversal_params actor at p revision)) _ db db' out e in
      let (q, s2, hq, h2) =
        >>=-eq-ok (create_payment (replacement_params actor at p revision params)) _ s1 db' out
          h1 in
      let (c, s3, hc, h3) = >>=-eq-ok (create_payment_correction _) _ s2 db' out h2 in
      let newer =
        replacement_step (replacement_params actor at p revision params) s1 s2 q p.id refl hq in
      let kept1 =
        (create_payment-KeepsChains (reversal_params actor at p revision)).at db s1 r hr h in
      let kept2 =
        (create_payment-KeepsChains (replacement_params actor at p revision params)).at s1 s2 q hq
          kept1 in
      subst Chained ((pure-eq-ok q out s3 db' h3).1)
        (correction_step _ s2 s3 c hc newer.0 newer.1 kept2);
}
