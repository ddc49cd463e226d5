-- ===== src/Requests/History.antt =====
-- What every history of requests keeps: the rows of the ledger, and the links between payments.
use bcars_portal.Base.{refl, ◌≡◌, none, some, ℕ, String, Option, List, [], ◌∷◌, arith}
use bcars_portal.Base.Int.{ℤ}
use bcars_portal.Authz.{Principal}
use bcars_portal.Outcome.{Error, ok}
use bcars_portal.Store.Rows.{Payment, DuesRate}
use bcars_portal.Store.Tx.{Db, Tx, Instant, ◌>>=◌}
use bcars_portal.Store.BatchQueries.{get_membership}
use bcars_portal.Store.CoverageQueries.{
  CreateCoverageEventParams, create_coverage_event, get_effective_coverage_event,
}
use bcars_portal.Store.DuesQueries.{
  DuesRateParams, get_dues_rate, insert_dues_rate, update_dues_rate,
}
use bcars_portal.Store.Follows.{Follows, Leads, IsHistory, follows_rules, Leads-in_tx, Leads-after}
use bcars_portal.Store.Appends.{Inert, Appends, Appends-IsHistory, Inert→Appends}
use bcars_portal.Store.Appends.Statements.{
  append_rules, inert_rules, create_payment-Appends, create_coverage_event-Appends,
}
use bcars_portal.Store.LedgerQueries.{
  CreatePaymentParams, create_payment, find_payment, find_correction,
}
use bcars_portal.Idem.{Env}
use bcars_portal.Batches.Inert.{
  open_batch-Inert, update_batch-Inert, abandon_batch-Inert, add_entry-Inert, update_entry-Inert,
  delete_entry-Inert,
}
use bcars_portal.Batches.Grows.{post-Follows, post_single_payment-Follows, correct_payment-Follows}
use bcars_portal.Batches.Correct.{CorrectParams, effective_payment, append_correction}
use bcars_portal.Batches.Chain.{Chained, Held, effective_payment-ok}
use bcars_portal.Batches.Chain.Kept.{
  KeepsChains, KeepsChains-IsHistory, Inert→KeepsChains, create_payment-KeepsChains,
  create_coverage_event-KeepsChains, append_correction-KeepsChains,
}
use bcars_portal.Dues.{unique_as, adjust_coverage, missing_or_stale, set_rate}
use bcars_portal.Requests.{
  Request, open_request, update_request, abandon_request, add_entry_request, update_entry_request,
  delete_entry_request, post_request, single_payment_request, correct_request,
  adjust_coverage_request, set_rate_request, handle, Call, run,
}

unique_as-Follows :
    {A : Type 0} (R : Db → Db → Type 0) (e : Error) (m : Tx A)
    → Follows R m
    → Follows R (unique_as e m)
unfolding unique_as
unique_as-Follows R e m km = record { at = λ db db' a h. km.at db db' a (ground arith) }

insert_dues_rate-Inert : (arg : DuesRateParams) → Follows Inert (insert_dues_rate arg)
unfolding insert_dues_rate
insert_dues_rate-Inert arg = record { at = λ db db' a e. ground arith }

update_dues_rate-Inert : (arg : DuesRateParams) (v : ℕ) → Follows Inert (update_dues_rate arg v)
unfolding update_dues_rate
update_dues_rate-Inert arg v = record { at = λ db db' a e. ground arith }

missing_or_stale-Inert :
    (year : ℕ) (m : Tx DuesRate) → Follows Inert m → Follows Inert (missing_or_stale year m)
unfolding get_dues_rate ◌>>=◌
missing_or_stale-Inert year m km = record { at = λ db db' a e. km.at db db' a (ground arith) }

pub set_rate-Inert :
    (p : Option Principal) (year : ℕ) (amount : ℤ) (note : String) (v : ℕ) (now : Option Instant)
    → Leads Inert (set_rate p year amount note v now)
unfolding set_rate
set_rate-Inert p year amount note v now =
    search
      (
        inert_rules, Leads-in_tx, Leads-after, unique_as-Follows, missing_or_stale-Inert,
        insert_dues_rate-Inert, update_dues_rate-Inert,
      )
      depth 12

module _ (R : Db → Db → Type 0) (hist : IsHistory R) (quiet : (a b : Db) → Inert a b → R a b)
    (pays : (arg : CreatePaymentParams) → Follows R (create_payment arg))
    (covers : (arg : CreateCoverageEventParams) → Follows R (create_coverage_event arg))
    (corrects : (actor : ℕ) (at : String) (p : Payment) (revision : ℕ) (params : CorrectParams)
      → Follows R (append_correction actor at p revision params)) where
  adjust_coverage-Follows :
      (p : Option Principal) (membership_id : ℕ) (paid_through reason : String)
      (now : Option Instant)
      → Leads R (adjust_coverage p membership_id paid_through reason now)
  unfolding adjust_coverage get_membership get_effective_coverage_event
  adjust_coverage-Follows p membership_id paid_through reason now =
      search (follows_rules, hist, covers, Leads-in_tx, Leads-after, unique_as-Follows) depth 12

  handle-Follows :
      (env : Env) (p : Option Principal) (now : Option Instant) (r : Request) (db : Db)
      → R db (handle env p now r db)
  unfolding handle
  handle-Follows env p now (open_request params) db =
      quiet _ _ ((open_batch-Inert env p params now).at db)
  handle-Follows env p now (update_request id params) db =
      quiet _ _ ((update_batch-Inert p id params).at db)
  handle-Follows env p now (abandon_request id reason version) db =
      quiet _ _ ((abandon_batch-Inert p id reason version now).at db)
  handle-Follows env p now (add_entry_request id e key) db =
      quiet _ _ ((add_entry-Inert env p id e key).at db)
  handle-Follows env p now (update_entry_request id entry e version) db =
      quiet _ _ ((update_entry-Inert p id entry e version).at db)
  handle-Follows env p now (delete_entry_request id entry version) db =
      quiet _ _ ((delete_entry-Inert p id entry version).at db)
  handle-Follows env p now (post_request id params) db =
      (post-Follows R hist quiet pays covers corrects env p id params now).at db
  handle-Follows env p now (single_payment_request params) db =
      (post_single_payment-Follows R hist quiet pays covers corrects env p params now).at db
  handle-Follows env p now (correct_request id params) db =
      (correct_payment-Follows R hist quiet pays covers corrects env p id params now).at db
  handle-Follows env p now (adjust_coverage_request id paid_through reason) db =
      (adjust_coverage-Follows p id paid_through reason now).at db
  handle-Follows env p now (set_rate_request year amount note version) db =
      quiet _ _ ((set_rate-Inert p year amount note version now).at db)

  -- moving the clock touches no row
  ticks : (db : Db) (clock : Instant) → R db (record db { clock = clock })
  ticks db clock = quiet _ _ (record { payments = refl; corrections = refl; coverage = refl })

  run-Follows : (env : Env) (calls : List (Instant × Call)) (db : Db) → R db (run env calls db)
  unfolding run
  run-Follows env [] db = hist.stays db
  run-Follows env ((clock, (p, now, r)) ∷ calls) db =
      let moved = record db { clock = clock } in
      let after_one = handle env p now r moved in
      hist.chains db moved _ (ticks db clock) (
        hist.chains moved after_one _ (handle-Follows env p now r moved)
          (run-Follows env calls after_one))

append_correction-Appends :
    (actor : ℕ) (at : String) (p : Payment) (revision : ℕ) (params : CorrectParams)
    → Follows Appends (append_correction actor at p revision params)
unfolding append_correction
append_correction-Appends actor at p revision params = search append_rules depth 12

-- Over any sequence of requests, by any callers and at any times, failing or not, no posted
-- payment, correction or coverage decision is changed, moved or dropped: the new rows follow the
-- old ones.
pub run-Appends :
    (env : Env) (calls : List (Instant × Call)) (db : Db) → Appends db (run env calls db)
run-Appends =
    run-Follows Appends Appends-IsHistory Inert→Appends create_payment-Appends
      create_coverage_event-Appends append_correction-Appends

run-Chained :
    (env : Env) (calls : List (Instant × Call)) (db : Db) → Chained db → Chained (run env calls db)
run-Chained =
    run-Follows KeepsChains KeepsChains-IsHistory Inert→KeepsChains create_payment-KeepsChains
      create_coverage_event-KeepsChains append_correction-KeepsChains

-- Over any sequence of requests, by any callers and at any times, failing or not, the links between
-- payments stay sound and the walk along them ends: where the links of the tables lead back to older
-- payments and forward to newer ones, so do those of the tables after it, and there the walk from any
-- payment of the ledger returns, with no error, a payment that no correction has superseded.
pub run-effective_payment :
    (env : Env) (calls : List (Instant × Call)) (db : Db) (id : ℕ) (p : Payment)
    → Chained db
    → find_payment id (run env calls db) ≡ some p
    → Chained (run env calls db)
      × ((q : Payment) × (n : ℕ) × (effective_payment id (run env calls db)
            ≡ ok ((q, n), run env calls db))
          × Held (run env calls db) q
          × (find_correction q.id (run env calls db) ≡ none))
run-effective_payment env calls db id p h found =
    let kept = run-Chained env calls db h in
    (kept, effective_payment-ok (run env calls db) id p kept found)
