-- ===== src/Batches/Reads.antt =====
-- What only reads keeps every reflexive and transitive relation between the tables.
use bcars_portal.Base.{ℕ, zero, suc, ◌+◌, Bool, true, false, Option, none, some, List, [], ◌∷◌}
use bcars_portal.Store.Rows.{PaymentBatch, PaymentBatchEntry, Payment, PaymentCorrection}
use bcars_portal.Store.Tx.{Db, Tx}
use bcars_portal.Store.BatchQueries.{get_membership, get_payment_batch}
use bcars_portal.Store.EntryQueries.{list_payment_batch_entries, get_payment_batch_totals}
use bcars_portal.Store.LedgerQueries.{
  get_payment, get_payment_correction_by_original, find_correction, get_batch_ledger_totals,
  list_payments_by_batch,
}
use bcars_portal.Store.CoverageQueries.{
  get_effective_coverage_event, get_coverage_event_by_payment, list_coverage_events_by_membership,
}
use bcars_portal.Store.Follows.{
  Follows, IsHistory, follows_rules, Follows-bind, Follows-gets, Follows-pure,
}
use bcars_portal.Batches.Types.{entries_if, assemble, load, require_open}
use bcars_portal.Batches.Post.{
  Written, written_id, coverage_id_from, effective_coverage_id, check_entries, require_state,
  require_entries, post_checks, hook, load_rows, load_posted,
}
use bcars_portal.Batches.Correct.{
  step_back, walk_back, step_forward, walk_forward, Links, collect_step, effective_payment, collect,
  batch_part, load_corrected, require_current, require_correctable,
}
use bcars_portal.Outcome.{Error}

module _ (R : Db → Db → Type 0) (hist : IsHistory R) where
  pub entries_if-Follows : (b : Bool) (id : ℕ) → Follows R (entries_if b id)
  unfolding list_payment_batch_entries
  entries_if-Follows true id = search (follows_rules, hist)
  entries_if-Follows false id = search (follows_rules, hist)

  pub assemble-Follows : (row : PaymentBatch) (b : Bool) → Follows R (assemble row b)
  unfolding assemble get_payment_batch_totals
  assemble-Follows row b = search (follows_rules, entries_if-Follows, hist)

  pub load-Follows : (id : ℕ) (b : Bool) → Follows R (load id b)
  unfolding load get_payment_batch
  load-Follows id b = search (follows_rules, assemble-Follows, hist)

  pub require_open-Follows : (id : ℕ) → Follows R (require_open id)
  unfolding require_open get_payment_batch
  require_open-Follows id = search (follows_rules, hist)

  pub load_rows-Follows : (ps : List Payment) → Follows R (load_rows ps)
  unfolding load_rows list_coverage_events_by_membership
  load_rows-Follows [] = search (follows_rules, hist)
  load_rows-Follows (p ∷ ps) =
      Follows-bind R hist _ _ (search (follows_rules, hist))
        (λ events. Follows-bind R hist _ _ (load_rows-Follows ps) (λ rows. Follows-pure R hist _))

  pub load_posted-Follows : (id : ℕ) → Follows R (load_posted id)
  unfolding load_posted get_payment_batch list_payments_by_batch
  load_posted-Follows id = search (follows_rules, assemble-Follows, load_rows-Follows, hist)

  step_back-Follows :
      (next : Payment → Tx Payment) (root : Payment) (o : Option ℕ)
      → ((p : Payment) → Follows R (next p))
      → Follows R (step_back next root o)
  unfolding step_back get_payment
  step_back-Follows next root none h = search (follows_rules, hist)
  step_back-Follows next root (some id) h = search (follows_rules, hist, h)

  pub walk_back-Follows : (fuel : ℕ) (p : Payment) → Follows R (walk_back fuel p)
  unfolding walk_back
  walk_back-Follows zero p = search (follows_rules, hist)
  walk_back-Follows (suc fuel) p =
      step_back-Follows (walk_back fuel) p p.corrects_payment_id (walk_back-Follows fuel)

  step_forward-Follows :
      (next : Payment → Tx (Payment × ℕ)) (p : Payment) (revision : ℕ)
      (o : Option PaymentCorrection)
      → ((q : Payment) → Follows R (next q))
      → Follows R (step_forward next p revision o)
  unfolding step_forward get_payment
  step_forward-Follows next p revision none h = search (follows_rules, hist)
  step_forward-Follows next p revision (some c) h = search (follows_rules, hist, h)

  pub walk_forward-Follows : (fuel : ℕ) (p : Payment) (r : ℕ) → Follows R (walk_forward fuel p r)
  unfolding walk_forward get_payment_correction_by_original
  walk_forward-Follows zero p r = search (follows_rules, hist)
  walk_forward-Follows (suc fuel) p r =
      Follows-bind R hist (get_payment_correction_by_original p.id)
        (step_forward (λ q. walk_forward fuel q (r + 1)) p r)
        (Follows-gets R hist (find_correction p.id))
        (λ o.
          step_forward-Follows (λ q. walk_forward fuel q (r + 1)) p r o
            (λ q. walk_forward-Follows fuel q (r + 1)))

  pub effective_payment-Follows : (id : ℕ) → Follows R (effective_payment id)
  unfolding effective_payment get_payment
  effective_payment-Follows id =
      search (follows_rules, hist, walk_back-Follows, walk_forward-Follows)

  collect_step-Follows :
      (next : Payment → Tx Links) (o : Option PaymentCorrection)
      → ((q : Payment) → Follows R (next q))
      → Follows R (collect_step next o)
  unfolding collect_step get_payment
  collect_step-Follows next none h = search (follows_rules, hist)
  collect_step-Follows next (some c) h = search (follows_rules, hist, h) depth 9

  pub collect-Follows : (fuel : ℕ) (p : Payment) → Follows R (collect fuel p)
  unfolding collect get_payment_correction_by_original
  collect-Follows zero p = search (follows_rules, hist)
  collect-Follows (suc fuel) p =
      Follows-bind R hist (get_payment_correction_by_original p.id) (collect_step (collect fuel))
        (Follows-gets R hist (find_correction p.id))
        (λ o. collect_step-Follows (collect fuel) o (collect-Follows fuel))

  pub batch_part-Follows : (o : Option ℕ) → Follows R (batch_part o)
  unfolding batch_part get_payment_batch get_batch_ledger_totals
  batch_part-Follows none = search (follows_rules, hist)
  batch_part-Follows (some id) = search (follows_rules, hist, assemble-Follows) depth 9

  pub load_corrected-Follows : (id : ℕ) → Follows R (load_corrected id)
  unfolding load_corrected get_coverage_event_by_payment get_effective_coverage_event
  load_corrected-Follows id =
      search
        (
          follows_rules, hist, effective_payment-Follows, walk_back-Follows, collect-Follows,
          batch_part-Follows,
        )
        depth 20

  pub effective_coverage_id-Follows :
      (m : ℕ) (written : Written) → Follows R (effective_coverage_id m written)
  unfolding effective_coverage_id
  effective_coverage_id-Follows m written = coverage_id_from-Follows (written_id m written)
    where
      coverage_id_from-Follows : (o : Option ℕ) → Follows R (coverage_id_from m o)
      coverage_id_from-Follows (some id) = Follows-pure R hist (some id)
      coverage_id_from-Follows none =
          unfold get_effective_coverage_event in search (follows_rules, hist)

  pub check_entries-Follows : (es : List PaymentBatchEntry) → Follows R (check_entries es)
  unfolding check_entries get_membership
  check_entries-Follows [] = search (follows_rules, hist)
  check_entries-Follows (e ∷ es) =
      Follows-bind R hist _ _ (search (follows_rules, hist)) (λ u.
        Follows-bind R hist _ _ (search (follows_rules, hist)) (λ m. check_entries-Follows es))

  pub require_state-Follows : (b : PaymentBatch) → Follows R (require_state b)
  unfolding require_state
  require_state-Follows b = search (follows_rules, hist)

  pub require_entries-Follows : (es : List PaymentBatchEntry) → Follows R (require_entries es)
  unfolding require_entries
  require_entries-Follows [] = search (follows_rules, hist)
  require_entries-Follows (e ∷ es) = search (follows_rules, hist)

  pub hook-Follows : (o : Option Error) → Follows R (hook o)
  hook-Follows none = search (follows_rules, hist)
  hook-Follows (some e) = search (follows_rules, hist)

  pub post_checks-Follows : (id : ℕ) → Follows R (post_checks id)
  unfolding post_checks get_payment_batch list_payment_batch_entries
  post_checks-Follows id =
      search
        (follows_rules, hist, require_state-Follows, require_entries-Follows, check_entries-Follows)
        depth 12

  pub require_current-Follows :
      (expected revision : ℕ) (target effective : Payment)
      → Follows R (require_current expected revision target effective)
  unfolding require_current
  require_current-Follows expected revision target effective = search (follows_rules, hist)

  pub require_correctable-Follows : (p : Payment) → Follows R (require_correctable p)
  unfolding require_correctable
  require_correctable-Follows p = search (follows_rules, hist)

-- the rules for `search`
pub ruleset read_rules = (
  assemble-Follows, load-Follows, require_open-Follows, load_posted-Follows,
  effective_payment-Follows, load_corrected-Follows, effective_coverage_id-Follows,
  check_entries-Follows, require_state-Follows, require_entries-Follows, hook-Follows,
  post_checks-Follows, require_current-Follows, require_correctable-Follows,
)
