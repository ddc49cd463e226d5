-- ===== src/Batches/Grows.antt =====
-- A relation that the ledger's inserts and a correction keep is kept by posting and by correcting.
use bcars_portal.Base.{ℕ, String, Option, List, [], ◌∷◌}
use bcars_portal.Authz.{Principal}
use bcars_portal.Store.Rows.{Payment, PaymentBatchEntry}
use bcars_portal.Store.Tx.{Db, Tx, Instant}
use bcars_portal.Store.BatchQueries.{get_membership, get_payment_batch}
use bcars_portal.Store.EntryQueries.{list_payment_batch_entries}
use bcars_portal.Store.LedgerQueries.{CreatePaymentParams, create_payment, get_payment}
use bcars_portal.Store.CoverageQueries.{
  CreateCoverageEventParams, create_coverage_event, get_effective_coverage_event,
  get_coverage_event_by_payment,
}
use bcars_portal.Store.Follows.{
  Follows, Leads, IsHistory, follows_rules, Follows-bind, Follows-pure, Leads-in_tx, Leads-after,
}
use bcars_portal.Store.Appends.{Inert}
use bcars_portal.Store.Appends.Statements.{
  mark_payment_batch_posted-Inert, create_payment_batch-Inert, create_payment_batch_entry-Inert,
}
use bcars_portal.Idem.{Env, Claim}
use bcars_portal.Batches.Reads.{read_rules}
use bcars_portal.Batches.Inert.{begin-Inert, complete-Inert}
use bcars_portal.Batches.Post.{
  Written, post_entry, post_entries, post_tx, PostParams, post_claimed, post_body, post,
  SingleParams, single_claimed, post_single_payment,
}
use bcars_portal.Batches.Correct.{
  CorrectParams, append_correction, adjust_coverage_for_correction, correct_tx, correct_claimed,
  correct_payment,
}

ruleset grow_rules = (
  follows_rules, read_rules, begin-Inert, complete-Inert, mark_payment_batch_posted-Inert,
  create_payment_batch-Inert, create_payment_batch_entry-Inert,
)

module _ (R : Db → Db → Type 0) (hist : IsHistory R) (quiet : (a b : Db) → Inert a b → R a b)
    (pays : (arg : CreatePaymentParams) → Follows R (create_payment arg))
    (covers : (arg : CreateCoverageEventParams) → Follows R (create_coverage_event arg))
    (corrects : (actor : ℕ) (at : String) (p : Payment) (revision : ℕ) (params : CorrectParams)
      → Follows R (append_correction actor at p revision params)) where
  quietly : {A : Type 0} (m : Tx A) → Follows Inert m → Follows R m
  quietly m h = record { at = λ db db' a e. quiet db db' (h.at db db' a e) }

  post_entry-Follows :
      (actor batch_id : ℕ) (entered_at : String) (e : PaymentBatchEntry) (written : Written)
      → Follows R (post_entry actor batch_id entered_at e written)
  unfolding post_entry
  post_entry-Follows actor batch_id entered_at e written =
      search (grow_rules, hist, quietly, pays, covers) depth 9

  post_entries-Follows :
      (actor batch_id : ℕ) (entered_at : String) (es : List PaymentBatchEntry) (written : Written)
      → Follows R (post_entries actor batch_id entered_at es written)
  unfolding post_entries
  post_entries-Follows actor batch_id entered_at [] written = search (follows_rules, hist)
  post_entries-Follows actor batch_id entered_at (e ∷ es) written =
      Follows-bind R hist _ _ (post_entry-Follows actor batch_id entered_at e written) (λ wrote.
        Follows-bind R hist _ _
          (post_entries-Follows actor batch_id entered_at es
            ((e.membership_id, wrote.1.id) ∷ written))
          (λ rows. Follows-pure R hist _))

  post_tx-Follows :
      (env : Env) (actor batch_id version : ℕ) (now : Option Instant)
      → Follows R (post_tx env actor batch_id version now)
  unfolding post_tx get_payment_batch list_payment_batch_entries
  post_tx-Follows env actor batch_id version now =
      search (grow_rules, hist, quietly, post_entries-Follows) depth 20

  post_claimed-Follows :
      (env : Env) (actor batch_id : ℕ) (params : PostParams) (now : Option Instant) (claim : Claim)
      → Follows R (post_claimed env actor batch_id params now claim)
  unfolding post_claimed
  post_claimed-Follows env actor batch_id params now claim =
      search (grow_rules, hist, quietly, post_tx-Follows) depth 9

  pub post-Follows :
      (env : Env) (p : Option Principal) (batch_id : ℕ) (params : PostParams) (now : Option Instant)
      → Leads R (post env p batch_id params now)
  unfolding post post_body
  post-Follows env p batch_id params now =
      search (grow_rules, hist, quietly, Leads-in_tx, Leads-after, post_claimed-Follows) depth 9

  single_claimed-Follows :
      (env : Env) (actor : ℕ) (params : SingleParams) (t : Instant) (claim : Claim)
      → Follows R (single_claimed env actor params t claim)
  unfolding single_claimed get_membership
  single_claimed-Follows env actor params t claim =
      search (grow_rules, hist, quietly, post_tx-Follows) depth 20

  pub post_single_payment-Follows :
      (env : Env) (p : Option Principal) (params : SingleParams) (now : Option Instant)
      → Leads R (post_single_payment env p params now)
  unfolding post_single_payment
  post_single_payment-Follows env p params now =
      search (grow_rules, hist, quietly, Leads-in_tx, Leads-after, single_claimed-Follows) depth 12

  adjust-Follows :
      (actor : ℕ) (p q : Payment) (params : CorrectParams) (at : String)
      → Follows R (adjust_coverage_for_correction actor p q params at)
  unfolding adjust_coverage_for_correction get_coverage_event_by_payment
      get_effective_coverage_event
  adjust-Follows actor p q params at = search (grow_rules, hist, quietly, covers) depth 12

  correct_tx-Follows :
      (actor payment_id : ℕ) (params : CorrectParams) (now : Option Instant)
      → Follows R (correct_tx actor payment_id params now)
  unfolding correct_tx get_payment
  correct_tx-Follows actor payment_id params now =
      search (grow_rules, hist, quietly, corrects, adjust-Follows) depth 20

  correct_claimed-Follows :
      (actor payment_id : ℕ) (params : CorrectParams) (now : Option Instant) (claim : Claim)
      → Follows R (correct_claimed actor payment_id params now claim)
  unfolding correct_claimed
  correct_claimed-Follows actor payment_id params now claim =
      search (grow_rules, hist, quietly, correct_tx-Follows) depth 12

  pub correct_payment-Follows :
      (env : Env) (p : Option Principal) (payment_id : ℕ) (params : CorrectParams)
      (now : Option Instant)
      → Leads R (correct_payment env p payment_id params now)
  unfolding correct_payment
  correct_payment-Follows env p payment_id params now =
      search (grow_rules, hist, quietly, Leads-in_tx, Leads-after, correct_claimed-Follows) depth 12
