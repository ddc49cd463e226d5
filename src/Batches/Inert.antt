-- ===== src/Batches/Inert.antt =====
-- Nothing that a draft goes through touches the ledger.
use bcars_portal.Base.{ℕ, String, Option, none, some}
use bcars_portal.Authz.{Principal}
use bcars_portal.Store.Rows.{PaymentBatchEntry, IdempotencyRecord}
use bcars_portal.Store.Tx.{Instant}
use bcars_portal.Store.BatchQueries.{get_membership, get_payment_batch}
use bcars_portal.Store.EntryQueries.{get_payment_batch_entry, next_payment_batch_entry_sequence}
use bcars_portal.Store.KeyQueries.{get_idempotency_record}
use bcars_portal.Batches.Reads.{assemble-Follows, load-Follows, require_open-Follows}
use bcars_portal.Store.Follows.{Follows, Leads, Leads-in_tx, Leads-after}
use bcars_portal.Store.Appends.{Inert}
use bcars_portal.Store.Appends.Statements.{inert_rules}
use bcars_portal.Idem.{Env, Claim, claim_from, begin, complete}
use bcars_portal.Batches.Input.{EntryInput}
use bcars_portal.Batches.Draft.{
  OpenParams, UpdateParams, open_claimed, open_batch, update_batch, abandon_batch,
}
use bcars_portal.Batches.Entries.{
  add_claimed, add_entry, require_in_batch, update_entry, delete_entry,
}

claim_from-Inert :
    (actor : ℕ) (operation key hash : String) (o : Option IdempotencyRecord)
    → Follows Inert (claim_from actor operation key hash o)
unfolding claim_from
claim_from-Inert actor operation key hash none = search inert_rules
claim_from-Inert actor operation key hash (some r) = search inert_rules

pub begin-Inert :
    (actor : ℕ) (operation key hash : String) → Follows Inert (begin actor operation key hash)
unfolding begin get_idempotency_record
begin-Inert actor operation key hash = search (inert_rules, claim_from-Inert)

pub complete-Inert :
    (claim : Claim) (kind : String) (id : ℕ) → Follows Inert (complete claim kind id)
unfolding complete
complete-Inert claim kind id = search inert_rules

open_claimed-Inert :
    (params : OpenParams) (actor : ℕ) (now : Option Instant) (claim : Claim)
    → Follows Inert (open_claimed params actor now claim)
unfolding open_claimed get_payment_batch
open_claimed-Inert params actor now claim =
    search (inert_rules, complete-Inert, assemble-Follows) depth 12

pub open_batch-Inert :
    (env : Env) (p : Option Principal) (params : OpenParams) (now : Option Instant)
    → Leads Inert (open_batch env p params now)
unfolding open_batch
open_batch-Inert env p params now =
    search (inert_rules, Leads-in_tx, Leads-after, begin-Inert, open_claimed-Inert) depth 12

pub update_batch-Inert :
    (p : Option Principal) (id : ℕ) (params : UpdateParams) → Leads Inert (update_batch p id params)
unfolding update_batch
update_batch-Inert p id params =
    search (inert_rules, Leads-in_tx, Leads-after, require_open-Follows, assemble-Follows) depth 12

pub abandon_batch-Inert :
    (p : Option Principal) (id : ℕ) (reason : String) (version : ℕ) (now : Option Instant)
    → Leads Inert (abandon_batch p id reason version now)
unfolding abandon_batch
abandon_batch-Inert p id reason version now =
    search (inert_rules, Leads-in_tx, Leads-after, require_open-Follows, assemble-Follows) depth 12

add_claimed-Inert :
    (batch_id : ℕ) (e : EntryInput) (claim : Claim) → Follows Inert (add_claimed batch_id e claim)
unfolding add_claimed get_payment_batch_entry next_payment_batch_entry_sequence
add_claimed-Inert batch_id e claim = search (inert_rules, complete-Inert, load-Follows) depth 16

pub add_entry-Inert :
    (env : Env) (p : Option Principal) (batch_id : ℕ) (e : EntryInput) (key : String)
    → Leads Inert (add_entry env p batch_id e key)
unfolding add_entry get_membership
add_entry-Inert env p batch_id e key =
    search
      (inert_rules, Leads-in_tx, Leads-after, require_open-Follows, begin-Inert, add_claimed-Inert)
      depth 12

pub require_in_batch-Inert :
    (batch_id : ℕ) (e : PaymentBatchEntry) → Follows Inert (require_in_batch batch_id e)
unfolding require_in_batch
require_in_batch-Inert batch_id e = search inert_rules

pub update_entry-Inert :
    (p : Option Principal) (batch_id entry_id : ℕ) (e : EntryInput) (version : ℕ)
    → Leads Inert (update_entry p batch_id entry_id e version)
unfolding update_entry get_membership get_payment_batch_entry
update_entry-Inert p batch_id entry_id e version =
    search
      (
        inert_rules, Leads-in_tx, Leads-after, require_open-Follows, require_in_batch-Inert,
        load-Follows,
      )
      depth 20

pub delete_entry-Inert :
    (p : Option Principal) (batch_id entry_id version : ℕ)
    → Leads Inert (delete_entry p batch_id entry_id version)
unfolding delete_entry get_payment_batch_entry
delete_entry-Inert p batch_id entry_id version =
    search
      (
        inert_rules, Leads-in_tx, Leads-after, require_open-Follows, require_in_batch-Inert,
        load-Follows,
      )
      depth 20
