-- ===== src/ChangeRequests/Approval.antt =====
-- What an approval needed.
use bcars_portal.Base.{
  ℕ, String, Option, some, true, false, ◌==◌, ◌≡◌, refl, sym, arith, subst, find_by, ◌⊎◌, inl, inr,
  str_eq, Bool-cases,
}
use bcars_portal.GoText.{is_blank}
use bcars_portal.Outcome.{ok, guard, not_found, item_not_in_request}
use bcars_portal.Authz.{Principal, user_id_of}
use bcars_portal.Idem.{Env}
use bcars_portal.Store.DirectoryRows.{ChangeRequest, ChangeRequestItem, ItemStatus, item_approved}
use bcars_portal.Store.Tx.{Db, Instant, or_missing, lift, ◌>>=◌, in_tx, after, one}
use bcars_portal.Store.Inversions.{
  lift-eq-ok, one-eq-ok, guard-eq-ok, or_missing-eq-ok, settle-eq-ok,
}
use bcars_portal.Store.Follows.{>>=-eq-ok}
use bcars_portal.Store.ChangeQueries.{find_request, get_change_request, is_item_pending}
use bcars_portal.Store.ItemQueries.{get_change_request_item}
use bcars_portal.ChangeRequests.Policy.{
  effective_sensitivity, sensitivity_ordinary, sensitivity_sensitive, can_apply, lookup_or,
  minimum_sensitivity,
}
use bcars_portal.ChangeRequests.Types.{Item, item_from}
use bcars_portal.ChangeRequests.Review.{
  DecideParams, Decision, is_requester, check_approval, check_policy, decide_pending, decide_found,
  decided_before, decide_tx, decide_checked, decide_item, parse_decision, assemble_decision,
}

-- what an approval of an item asks of the reviewer
pub record Allowed (actor : ℕ) (request : ChangeRequest) (item : Item) (params : DecideParams)
    : Type 0 where
  pub applies : can_apply item.operation ≡ true
  pub reviewed :
      (effective_sensitivity item.operation item.sensitivity ≡ sensitivity_ordinary)
      ⊎ ((is_requester request.requester_user_id actor ≡ false)
          × (is_blank params.verification_note ≡ false))

effective_sensitivity-cases :
    (operation declared : String)
    → (effective_sensitivity operation declared ≡ sensitivity_ordinary)
      ⊎ (effective_sensitivity operation declared ≡ sensitivity_sensitive)
unfolding effective_sensitivity
effective_sensitivity-cases operation declared =
    elim (Bool-cases (str_eq declared sensitivity_sensitive)) [
      | inl e ↦ rw e (inr refl)
      | inr e ↦
          elim (Bool-cases
            (str_eq (lookup_or "" operation minimum_sensitivity) sensitivity_sensitive)) [
              | inl f ↦ rw (e, f) (inr refl)
              | inr f ↦ rw (e, f) (inl refl)
            ]
    ]

-- an accepted approval of a sensitive item
approved_sensitive :
    (actor : ℕ) (request : ChangeRequest) (item : Item) (params : DecideParams)
    → effective_sensitivity item.operation item.sensitivity ≡ sensitivity_sensitive
    → check_approval actor request item params ≡ ok tt
    → (is_requester request.requester_user_id actor ≡ false)
      × (is_blank params.verification_note ≡ false)
unfolding check_approval
approved_sensitive actor request item params s e =
    let named : str_eq (effective_sensitivity item.operation item.sensitivity) sensitivity_sensitive
        ≡ true =
      rw s refl in
    (ground (arith, named), ground (arith, named))

check_approval-Allowed :
    (actor : ℕ) (request : ChangeRequest) (item : Item) (params : DecideParams)
    → check_approval actor request item params ≡ ok tt
    → Allowed actor request item params
unfolding check_approval
check_approval-Allowed actor request item params e = record {
  applies = ground arith;
  reviewed = elim (effective_sensitivity-cases item.operation item.sensitivity) [
    | inl o ↦ inl o
    | inr s ↦ inr (approved_sensitive actor request item params s e)
  ];
}

decide_pending-Allowed :
    (env : Env) (p : Option Principal) (request : ChangeRequest) (item : Item)
    (params : DecideParams) (now : Instant) (db db' : Db) (out : Decision)
    → decide_pending env p item_approved request item params now db ≡ ok (out, db')
    → Allowed (user_id_of p) request item params
unfolding decide_pending check_policy
decide_pending-Allowed env p request item params now db db' out e =
    let (u, s, checked, rest) =
      >>=-eq-ok (lift (check_policy item_approved (user_id_of p) request item params)) _ db db' out
        e in
    let (accepted, same) =
      lift-eq-ok (check_policy item_approved (user_id_of p) request item params) u db s checked in
    check_approval-Allowed (user_id_of p) request item params accepted

-- a replay changes nothing and says so
decided_before-replay :
    (request_id : ℕ) (decision : ItemStatus) (item : Item) (db db' : Db) (out : Decision)
    → decided_before request_id decision item db ≡ ok (out, db')
    → out.replay ≡ true
unfolding decided_before assemble_decision ◌>>=◌
decided_before-replay request_id decision item db db' out e = ground arith

decide_found-Allowed :
    (env : Env) (p : Option Principal) (request : ChangeRequest) (item : Item)
    (params : DecideParams) (now : Instant) (db db' : Db) (out : Decision)
    → out.replay ≡ false
    → decide_found env p item_approved request item params now db ≡ ok (out, db')
    → (is_item_pending item.status ≡ true) × Allowed (user_id_of p) request item params
unfolding decide_found
decide_found-Allowed env p request item params now db db' out first e =
    elim (Bool-cases (is_item_pending item.status)) [
      | inl pending ↦ (
        pending,
        decide_pending-Allowed env p request item params now db db' out (rw pending at e),
      )
      | inr decided ↦
          cc (
            first,
            decided_before-replay request.id item_approved item db db' out (rw decided at e),
          )
    ]

-- the item that an approval was about, as it stood
pub record Approves (actor request_id item_id : ℕ) (params : DecideParams) (db : Db) : Type 0 where
  pub request : ChangeRequest
  pub row : ChangeRequestItem
  pub request_found : find_request request_id db ≡ some request
  pub item_found : find_by (λ i. i.id == item_id) db.change_request_items ≡ some row
  pub belongs : (row.request_id == request_id) ≡ true
  pub pending : is_item_pending row.status ≡ true
  pub allowed : Allowed actor request (item_from row) params

decide_tx-Approves :
    (env : Env) (p : Option Principal) (request_id item_id : ℕ) (params : DecideParams)
    (now : Instant) (db db' : Db) (out : Decision)
    → out.replay ≡ false
    → decide_tx env p item_approved request_id item_id params now db ≡ ok (out, db')
    → Approves (user_id_of p) request_id item_id params db
unfolding decide_tx get_change_request get_change_request_item item_from
decide_tx-Approves env p request_id item_id params now db db' out first e =
    let (request, s1, e1, k1) =
      >>=-eq-ok (or_missing not_found (one (find_request request_id))) _ db db' out e in
    let (found, is1) =
      one-eq-ok (find_request request_id) request db s1
        (or_missing-eq-ok not_found (one (find_request request_id)) db s1 request e1) in
    let items : Db → Option ChangeRequestItem =
      λ d. find_by (λ i. i.id == item_id) d.change_request_items in
    let (row, s2, e2, k2) = >>=-eq-ok (or_missing not_found (one items)) _ s1 db' out k1 in
    let (row_found, is2) =
      one-eq-ok items row s1 s2 (or_missing-eq-ok not_found (one items) s1 s2 row e2) in
    let (u, s3, e3, k3) =
      >>=-eq-ok (lift (guard (row.request_id == request_id) item_not_in_request)) _ s2 db' out k2 in
    let (belongs, is3) =
      guard-eq-ok (row.request_id == request_id) item_not_in_request u s2 s3 e3 in
    let (pending, allowed) =
      decide_found-Allowed env p request (item_from row) params now s3 db' out first k3 in
    record {
      request = request;
      row = row;
      request_found = found;
      item_found = subst (λ d. items d ≡ some row) (sym is1) row_found;
      belongs = belongs;
      pending = pending;
      allowed = allowed;
    }

-- An item is approved only where the review allows it: where DecideItem answers an approval, and
-- not as a replay, the request and the item existed and belonged together, the item was pending,
-- its operation has an adapter that applies it, and it was of ordinary sensitivity, or the reviewer
-- was not the requester and gave a verification note that is not blank.
pub decide_item-Approves :
    (env : Env) (p : Option Principal) (request_id item_id : ℕ) (params : DecideParams)
    (now : Instant) (db db' : Db) (out : Decision)
    → parse_decision params.decision ≡ ok item_approved
    → decide_item env p request_id item_id params now db ≡ (ok out, db')
    → out.replay ≡ false
    → Approves (user_id_of p) request_id item_id params db
unfolding decide_item decide_checked after in_tx
decide_item-Approves env p request_id item_id params now db db' out parsed e first =
    decide_tx-Approves env p request_id item_id params now db db' out first (
      settle-eq-ok (decide_tx env p item_approved request_id item_id params now db) db db' out
        (rw parsed at e))
