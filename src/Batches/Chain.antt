-- ===== src/Batches/Chain.antt =====
-- The correction chains of a ledger (internal/domain/batches/correct.go): `effectivePayment` follows
-- links between payments, back to an original and forward to the payment that stands.
pub mod Kept
use bcars_portal.Base.{
  ℕ, zero, suc, ◌+◌, ◌<◌, ◌≤◌, ◌≡◌, refl, sym, ◌∙◌, subst, true, Option, none, some, List, [], ◌∷◌,
  ◌==◌, arith, All, find_by, exists_by, max_of, Option-cases, inl, inr, ==_sound,
}
use bcars_portal.Base.ListLaws.{find_by-true}
use bcars_portal.Base.FindLaws.{find_by-All, exists_by-find_by, find_by-max_of}
use bcars_portal.Outcome.{ok}
use bcars_portal.Store.Rows.{Payment, PaymentCorrection}
use bcars_portal.Store.Tx.{Db, Tx, next_id, pure, gets, ◌>>=◌}
use bcars_portal.Store.Runs.{>>=-ok, one-ok}
use bcars_portal.Store.LedgerQueries.{
  find_payment, get_payment, find_correction, get_payment_correction_by_original,
}
use bcars_portal.Batches.Correct.{
  step_back, walk_back, step_forward, walk_forward, rounds, effective_payment,
}

-- a payment of this key is in the ledger
abbrev pub Recorded : ℕ → List Payment → Type 0
Recorded id ps = exists_by (λ p. p.id == id) ps ≡ true

-- a payment names one that was recorded before it
abbrev pub Earlier : List Payment → ℕ → Option ℕ → Type 0
Earlier ps n none = Unit
Earlier ps n (some k) = (k < n) × Recorded k ps

abbrev pub Backward : List Payment → Payment → Type 0
Backward ps p = Earlier ps p.id p.corrects_payment_id

-- a correction replaces a payment by one that was recorded after it
abbrev pub Forward : List Payment → PaymentCorrection → Type 0
Forward ps c =
    (c.original_payment_id < c.replacement_payment_id) × Recorded c.replacement_payment_id ps

-- Links lead to payments of the ledger: back to older ones, forward to newer ones.
pub record Chained (db : Db) : Type 0 where
  pub backward : All (Backward db.payments) db.payments
  pub forward : All (Forward db.payments) db.payment_corrections

pub Recorded-find :
    (id : ℕ) (db : Db) → Recorded id db.payments → (p : Payment) × (find_payment id db ≡ some p)
Recorded-find id db h = exists_by-find_by (λ p. p.id == id) db.payments h

find-id : (id : ℕ) (db : Db) (p : Payment) → find_payment id db ≡ some p → p.id ≡ id
find-id id db p h = ==_sound p.id id (find_by-true (λ q. q.id == id) db.payments p h)

find-lt-rounds : (id : ℕ) (db : Db) (p : Payment) → find_payment id db ≡ some p → p.id < rounds db
unfolding next_id
find-lt-rounds id db p h =
    omega (arith, find_by-max_of (λ (q : Payment). q.id) (λ q. q.id == id) db.payments p h)

-- a payment that the ledger holds
abbrev pub Held : Db → Payment → Type 0
Held db p = find_payment p.id db ≡ some p

find-Held : (id : ℕ) (db : Db) (p : Payment) → find_payment id db ≡ some p → Held db p
find-Held id db p h = subst (λ k. find_payment k db ≡ some p) (sym (find-id id db p h)) h

step_back-ok :
    (db : Db) (next : Payment → Tx Payment) (p q root : Payment) (o : Option ℕ) (k : ℕ)
    → o ≡ some k
    → find_payment k db ≡ some q
    → next q db ≡ ok (root, db)
    → step_back next p o db ≡ ok (root, db)
unfolding step_back get_payment
step_back-ok db next p q root o k corrects found walked =
    rw corrects (>>=-ok (get_payment k) next db db q (one-ok (find_payment k) db q found) ∙ walked)

step_back-none :
    (db : Db) (next : Payment → Tx Payment) (p : Payment) (o : Option ℕ)
    → o ≡ none
    → step_back next p o db ≡ ok (p, db)
unfolding step_back ◌>>=◌
step_back-none db next p o original = rw original refl

step_forward-ok :
    (db : Db) (next : Payment → Tx (Payment × ℕ)) (p q : Payment) (revision : ℕ)
    (o : Option PaymentCorrection) (c : PaymentCorrection) (r : Payment × ℕ)
    → o ≡ some c
    → find_payment c.replacement_payment_id db ≡ some q
    → next q db ≡ ok (r, db)
    → step_forward next p revision o db ≡ ok (r, db)
unfolding step_forward get_payment
step_forward-ok db next p q revision o c r corrected found walked = rw corrected (
    >>=-ok (get_payment c.replacement_payment_id) next db db q
      (one-ok (find_payment c.replacement_payment_id) db q found)
    ∙ walked)

step_forward-none :
    (db : Db) (next : Payment → Tx (Payment × ℕ)) (p : Payment) (revision : ℕ)
    (o : Option PaymentCorrection)
    → o ≡ none
    → step_forward next p revision o db ≡ ok ((p, revision), db)
unfolding step_forward ◌>>=◌
step_forward-none db next p revision o last = rw last refl

module _ (db : Db) (h : Chained db) where
  -- the walk back, on more rounds than the key of the payment it starts from
  walk_back-ok :
      (fuel : ℕ) (p : Payment)
      → p.id < fuel
      → Held db p
      → (root : Payment) × (walk_back fuel p db ≡ ok (root, db)) × Held db root
  unfolding walk_back
  walk_back-ok zero p lt held = absurd (omega arith)
  walk_back-ok (suc fuel) p lt held = elim (Option-cases p.corrects_payment_id) [
    | inl original ↦ (p, step_back-none db (walk_back fuel) p _ original, held)
    | inr (k, corrects) ↦
        let back =
          find_by-All (λ (q : Payment). q.id == p.id) (Backward db.payments) db.payments p
            h.backward held in
        let earlier = subst (Earlier db.payments p.id) corrects back in
        let (q, found) = Recorded-find k db earlier.1 in
        let (root, walked, ends) =
          walk_back-ok fuel q (omega (arith, find-id k db q found, earlier.0))
            (find-Held k db q found) in
        (root, step_back-ok db (walk_back fuel) p q root _ k corrects found walked, ends)
  ]

  -- the walk forward, where the rounds reach beyond the last key
  walk_forward-ok :
      (fuel : ℕ) (p : Payment) (revision : ℕ)
      → rounds db ≤ p.id + fuel
      → Held db p
      → (q : Payment) × (n : ℕ) × (walk_forward fuel p revision db ≡ ok ((q, n), db))
        × Held db q
        × (find_correction q.id db ≡ none)
  unfolding walk_forward get_payment_correction_by_original ◌>>=◌
  walk_forward-ok zero p revision lt held = absurd (omega (arith, find-lt-rounds p.id db p held))
  walk_forward-ok (suc fuel) p revision lt held = elim (Option-cases (find_correction p.id db)) [
    | inl last ↦ (
      p,
      revision,
      step_forward-none db (λ q. walk_forward fuel q (revision + 1)) p revision _ last,
      held,
      last,
    )
    | inr (c, corrected) ↦
        let names = λ (d : PaymentCorrection). d.original_payment_id == p.id in
        let forward =
          find_by-All names (Forward db.payments) db.payment_corrections c h.forward corrected in
        let original =
          ==_sound c.original_payment_id p.id
            (find_by-true names db.payment_corrections c corrected) in
        let (q, found) = Recorded-find c.replacement_payment_id db forward.1 in
        let (r, n, walked, kept, rest) =
          walk_forward-ok fuel q (revision + 1)
            (omega (arith, find-id c.replacement_payment_id db q found, forward.0, original))
            (find-Held c.replacement_payment_id db q found) in
        (
          r,
          n,
          step_forward-ok db (λ q. walk_forward fuel q (revision + 1)) p q revision _ c (r, n)
              corrected found walked,
          kept,
          rest,
        )
  ]

-- the two walks, one after the other
walks :
    (db : Db) (id : ℕ) (p root : Payment) (r : Payment × ℕ)
    → find_payment id db ≡ some p
    → walk_back (rounds db) p db ≡ ok (root, db)
    → walk_forward (rounds db) root 0 db ≡ ok (r, db)
    → effective_payment id db ≡ ok (r, db)
unfolding effective_payment get_payment gets
walks db id p root r found back forward =
    >>=-ok (get_payment id) _ db db p (one-ok (find_payment id) db p found)
    ∙ >>=-ok (gets rounds) _ db db (rounds db) refl
    ∙ >>=-ok (walk_back (rounds db) p) _ db db root back
    ∙ forward

-- In a ledger whose links lead back to older payments and forward to newer ones, the walk from any
-- payment of the ledger ends: it returns a payment of the ledger that no correction has superseded,
-- and neither fails nor changes a table.
pub effective_payment-ok :
    (db : Db) (payment_id : ℕ) (p : Payment)
    → Chained db
    → find_payment payment_id db ≡ some p
    → (q : Payment) × (n : ℕ) × (effective_payment payment_id db ≡ ok ((q, n), db))
      × Held db q
      × (find_correction q.id db ≡ none)
effective_payment-ok db payment_id p h found =
    let (root, back, held) =
      walk_back-ok db h (rounds db) p (find-lt-rounds payment_id db p found)
        (find-Held payment_id db p found) in
    let (q, n, forward, kept, rest) = walk_forward-ok db h (rounds db) root 0 (omega arith) held in
    (q, n, walks db payment_id p root (q, n) found back forward, kept, rest)
