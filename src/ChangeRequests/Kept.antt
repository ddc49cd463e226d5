-- ===== src/ChangeRequests/Kept.antt =====
-- A relation that the statements on items and everything beside them keep is kept by every operation.
use bcars_portal.Base.{
  ℕ, suc, String, Option, List, [], ◌∷◌, Bool, true, false, not, ◌&&◌, ◌≡◌, ◌∙◌, if◌then◌else◌,
  refl, subst,
}
use bcars_portal.Authz.{Principal}
use bcars_portal.Idem.{Env, Claim}
use bcars_portal.Outcome.{Result, Error, ok, err, guard, rejection_reason_required}
use bcars_portal.GoText.{is_blank}
use bcars_portal.Store.DirectoryRows.{ChangeRequest, ItemStatus}
use bcars_portal.Store.Tx.{Db, Tx, Action, Instant, after, in_tx}
use bcars_portal.Store.Follows.{
  Follows, Leads, IsHistory, follows_rules, Leads-in_tx, Leads-after, Follows-coarser, Follows-bind,
}
use bcars_portal.Store.DirectoryQueries.{get_person}
use bcars_portal.Store.ChangeQueries.{get_change_request}
use bcars_portal.Store.ItemQueries.{
  CreateChangeRequestItemParams, create_change_request_item, get_change_request_item,
  list_change_request_items,
}
use bcars_portal.ChangeRequests.Types.{Item, load_request}
use bcars_portal.ChangeRequests.Validation.{ItemInput, CreateParams}
use bcars_portal.ChangeRequests.Intake.{
  require_person, create_items, create_claimed, create_request,
}
use bcars_portal.ChangeRequests.Status.{
  TriageParams, triage_tx, triage, ResolveParams, resolve_tx, resolve, withdraw_tx, withdraw,
}
use bcars_portal.ChangeRequests.Review.{
  DecideParams, ignore_missing, is_no_rows, advance_request, assemble_decision, decided_before,
  decide_found, decide_tx, decide_checked, decide_item, decide_pending, parse_decision,
  is_item_rejected,
}
use bcars_portal.ChangeRequests.Aside.{
  Aside, Aside-IsHistory, aside_rules, begin-Aside, complete-Aside,
}
use bcars_portal.ChangeRequests.Operations.{
  Operation, create_operation, triage_operation, resolve_operation, withdraw_operation,
  decide_operation, perform, perform_all,
}

pub load_request-Aside : (id : ℕ) → Follows Aside (load_request id)
unfolding load_request get_change_request list_change_request_items
load_request-Aside id = search aside_rules

pub require_person-Aside : (id : ℕ) → Follows Aside (require_person id)
unfolding require_person get_person
require_person-Aside id = search aside_rules

pub assemble_decision-Aside :
    (id : ℕ) (item : Item) (applied replay : Bool)
    → Follows Aside (assemble_decision id item applied replay)
unfolding assemble_decision
assemble_decision-Aside id item applied replay = search (aside_rules, load_request-Aside)

ignored_state :
    (x : Bool) (e : Error) (db db' : Db) (u : Unit {0})
    → ◌≡◌ {A = Result (Unit {0} × Db)} (if x then ok (tt, db) else err e) (ok (u, db'))
    → db ≡ db'
ignored_state true e db db' u h = cc h
ignored_state false e db db' u h = cc h

ignore_missing-Aside : {A : Type 0} (m : Tx A) → Follows Aside m → Follows Aside (ignore_missing m)
unfolding ignore_missing
ignore_missing-Aside {A} m km = record { at = λ db db' u e. go db db' u (m db) refl e }
  where
    go :
        (db db' : Db) (u : Unit {0}) (r : Result (A × Db))
        → m db ≡ r
        → ◌≡◌ {A = Result (Unit {0} × Db)}
            (elim r [
              | ok (a, s) ↦ ok (tt, s)
              | err e ↦ if is_no_rows e then ok (tt, db) else err e
            ])
            (ok (u, db'))
        → Aside db db'
    go db db' u (ok (a, s)) h e = km.at db db' a (h ∙ cc e)
    go db db' u (err x) h e =
        subst (Aside db) (ignored_state (is_no_rows x) x db db' u e) (Aside-IsHistory.stays db)

pub advance_request-Aside :
    (request : ChangeRequest) (pending : ℕ) (now : Instant)
    → Follows Aside (advance_request request pending now)
unfolding advance_request
advance_request-Aside request pending now = search (aside_rules, ignore_missing-Aside)

triage-Aside :
    (p : Option Principal) (id : ℕ) (params : TriageParams) (now : Instant)
    → Leads Aside (triage p id params now)
unfolding triage triage_tx get_change_request
triage-Aside p id params now =
    search (aside_rules, Leads-in_tx, require_person-Aside, load_request-Aside) depth 12

resolve-Aside :
    (p : Option Principal) (id : ℕ) (params : ResolveParams) (now : Instant)
    → Leads Aside (resolve p id params now)
unfolding resolve resolve_tx
resolve-Aside p id params now = search (aside_rules, Leads-in_tx, load_request-Aside) depth 12

withdraw-Aside : (p : Option Principal) (id : ℕ) (now : Instant) → Leads Aside (withdraw p id now)
unfolding withdraw withdraw_tx
withdraw-Aside p id now =
    search (aside_rules, Leads-in_tx, Leads-after, load_request-Aside) depth 12

clock-Aside : (db : Db) (now : Instant) → Aside db (record db { clock = now })
clock-Aside db now = record { items = refl; payments = refl; corrections = refl; coverage = refl }

module _ (R : Db → Db → Type 0) (hist : IsHistory R) (aside : (a b : Db) → Aside a b → R a b)
    (creates : (arg : CreateChangeRequestItemParams) → Follows R (create_change_request_item arg))
    (decides : (env : Env) (p : Option Principal) (decision : ItemStatus) (request : ChangeRequest)
        (item : Item) (params : DecideParams) (now : Instant)
      → Follows R (decide_pending env p decision request item params now)) where
  besides : {A : Type 0} (m : Tx A) → Follows Aside m → Follows R m
  besides m h = Follows-coarser Aside R m aside h

  create_items-Follows :
      (request_id ordinal : ℕ) (es : List ItemInput)
      → Follows R (create_items request_id ordinal es)
  unfolding create_items
  create_items-Follows request_id ordinal [] = search (follows_rules, hist)
  create_items-Follows request_id ordinal (e ∷ es) =
      Follows-bind R hist (create_change_request_item _)
        (λ i. create_items request_id (suc ordinal) es) (creates _)
        (λ i. create_items-Follows request_id (suc ordinal) es)

  create_claimed-Follows :
      (actor : ℕ) (params : CreateParams) (now : Instant) (claim : Claim)
      → Follows R (create_claimed actor params now claim)
  unfolding create_claimed
  create_claimed-Follows actor params now claim =
      search
        (
          follows_rules, hist, besides, aside_rules, create_items-Follows, complete-Aside,
          require_person-Aside, load_request-Aside,
        )
        depth 12

  create_request-Leads :
      (env : Env) (p : Option Principal) (params : CreateParams) (key : String) (now : Instant)
      → Leads R (create_request env p params key now)
  unfolding create_request
  create_request-Leads env p params key now =
      search
        (
          follows_rules, hist, besides, Leads-in_tx, Leads-after, begin-Aside,
          create_claimed-Follows,
        )
        depth 12

  decided_before-Follows :
      (request_id : ℕ) (decision : ItemStatus) (item : Item)
      → Follows R (decided_before request_id decision item)
  unfolding decided_before
  decided_before-Follows request_id decision item =
      search (follows_rules, hist, besides, assemble_decision-Aside)

  decide_found-Follows :
      (env : Env) (p : Option Principal) (decision : ItemStatus) (request : ChangeRequest)
      (item : Item) (params : DecideParams) (now : Instant)
      → Follows R (decide_found env p decision request item params now)
  unfolding decide_found
  decide_found-Follows env p decision request item params now =
      search (follows_rules, decides, decided_before-Follows)

  decide_tx-Follows :
      (env : Env) (p : Option Principal) (decision : ItemStatus) (request_id item_id : ℕ)
      (params : DecideParams) (now : Instant)
      → Follows R (decide_tx env p decision request_id item_id params now)
  unfolding decide_tx get_change_request get_change_request_item
  decide_tx-Follows env p decision request_id item_id params now =
      search (follows_rules, hist, decide_found-Follows) depth 12

  decide_checked-Leads :
      (env : Env) (p : Option Principal) (request_id item_id : ℕ) (params : DecideParams)
      (now : Instant) (r : Result ItemStatus)
      → Leads R (decide_checked env p request_id item_id params now r)
  unfolding decide_checked
  decide_checked-Leads env p request_id item_id params now (err e) = record { at = hist.stays }
  decide_checked-Leads env p request_id item_id params now (ok decision) =
      let inner : Leads R (
          after
            (guard (not (is_item_rejected decision && is_blank params.reason))
              rejection_reason_required)
            (in_tx (decide_tx env p decision request_id item_id params now))) =
        search (hist, Leads-in_tx, Leads-after, decide_tx-Follows) in
      record { at = inner.at }

  beside : {A : Type 0} (m : Action A) → Leads Aside m → Leads R m
  beside m h = record { at = λ db. aside db (m db).1 (h.at db) }

  perform-Leads :
      (env : Env) (p : Option Principal) (now : Instant) (op : Operation) (db : Db)
      → R db (perform env p now op db)
  unfolding perform decide_item
  perform-Leads env p now (create_operation params key) db =
      (create_request-Leads env p params key now).at db
  perform-Leads env p now (triage_operation id params) db =
      (beside (triage p id params now) (triage-Aside p id params now)).at db
  perform-Leads env p now (resolve_operation id params) db =
      (beside (resolve p id params now) (resolve-Aside p id params now)).at db
  perform-Leads env p now (withdraw_operation id) db =
      (beside (withdraw p id now) (withdraw-Aside p id now)).at db
  perform-Leads env p now (decide_operation id item params) db =
      (decide_checked-Leads env p id item params now (parse_decision params.decision)).at db

  -- what every operation keeps, a sequence of them keeps
  pub perform_all-Leads :
      (env : Env) (ops : List (Option Principal × Instant × Operation)) (db : Db)
      → R db (perform_all env ops db)
  unfolding perform_all
  perform_all-Leads env [] db = hist.stays db
  perform_all-Leads env ((p, now, op) ∷ rest) db =
      let ticked : Db = record db { clock = now } in
      let after_op : Db = perform env p now op ticked in
      hist.chains db ticked (perform_all env rest after_op) (aside db ticked (clock-Aside db now)) (
        hist.chains ticked after_op (perform_all env rest after_op)
          (perform-Leads env p now op ticked) (perform_all-Leads env rest after_op))
