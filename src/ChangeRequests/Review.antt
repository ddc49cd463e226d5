-- ===== src/ChangeRequests/Review.antt =====
-- internal/domain/changerequests/review.go: `DecideItem`. The decision and what it applies stand in
-- one transaction.
use bcars_portal.Base.{
  ℕ, String, Bool, true, false, not, ◌&&◌, Option, none, some, ◌==◌, str_eq, if◌then◌else◌,
}
use bcars_portal.GoText.{is_blank}
use bcars_portal.GoText.Text.{trim_space}
use bcars_portal.Outcome.{
  Result, ok, err, guard, not_found, item_not_in_request, item_decided, no_adapter, self_review,
  verification_note_required, rejection_reason_required, unknown_decision, no_rows, Error,
}
use bcars_portal.Authz.{Principal, user_id_of}
use bcars_portal.Idem.{Env, null_id}
use bcars_portal.Store.DirectoryRows.{
  ChangeRequest, ChangeRequestItem, ItemStatus, item_pending, item_approved, item_rejected,
  item_needs_verification, status_in_review, status_resolved,
}
use bcars_portal.Store.Tx.{
  Tx, Action, Instant, pure, fail, lift, after, in_tx, ◌>>=◌, ◌>>◌, or_missing, null_string,
}
use bcars_portal.Store.ChangeQueries.{
  get_change_request, set_change_request_status, is_item_pending, is_item_approved, is_resolved,
  is_submitted,
}
use bcars_portal.Store.ItemQueries.{
  get_change_request_item, decide_change_request_item, mark_change_request_item_applied,
  count_pending_change_request_items,
}
use bcars_portal.ChangeRequests.Policy.{effective_sensitivity, sensitivity_sensitive, can_apply}
use bcars_portal.ChangeRequests.Types.{Item, Request, item_from, load_request}
use bcars_portal.ChangeRequests.Apply.{apply_item, amended_proposal}

pub record DecideParams : Type 0 where
  pub decision : String
  pub reason : String
  pub verification_note : String
  pub amended_value : String

pub record Decision : Type 0 where
  pub request : Request
  pub item : Item
  pub applied : Bool
  pub replay : Bool

-- the switch on `params.Decision`
unfoldable pub parse_decision : String → Result ItemStatus
parse_decision s =
    if str_eq s "approved"
    then ok item_approved
    else if str_eq s "rejected"
    then ok item_rejected
    else if str_eq s "needs_verification"
    then ok item_needs_verification
    else err unknown_decision

abbrev pub is_item_rejected : ItemStatus → Bool
is_item_rejected item_rejected = true
is_item_rejected _ = false

abbrev pub same_status : ItemStatus → ItemStatus → Bool
same_status item_pending item_pending = true
same_status item_approved item_approved = true
same_status item_rejected item_rejected = true
same_status item_needs_verification item_needs_verification = true
same_status _ _ = false

-- `assembleDecision`
unfoldable pub assemble_decision : ℕ → Item → Bool → Bool → Tx Decision
assemble_decision request_id item applied replay = do
  r ← load_request request_id
  pure (record { request = r; item = item; applied = applied; replay = replay })

abbrev pub is_requester : Option ℕ → ℕ → Bool
is_requester none actor = false
is_requester (some id) actor = id == actor

-- the policy on an approval
unfoldable pub check_approval : ℕ → ChangeRequest → Item → DecideParams → Result (Unit {0})
check_approval actor request item params =
    if str_eq (effective_sensitivity item.operation item.sensitivity) sensitivity_sensitive
      && is_requester request.requester_user_id actor
    then err self_review
    else if str_eq (effective_sensitivity item.operation item.sensitivity) sensitivity_sensitive
        && is_blank params.verification_note
    then err verification_note_required
    else if can_apply item.operation
    then ok tt
    else err no_adapter

unfoldable pub check_policy :
    ItemStatus → ℕ → ChangeRequest → Item → DecideParams → Result (Unit {0})
check_policy item_approved actor request item params = check_approval actor request item params
check_policy _ actor request item params = ok tt

-- the item as it is applied: the reviewer's amendment takes the place of the proposal
unfoldable pub amended : Env → Item → String → Item
amended env item value =
    if str_eq (trim_space value) ""
    then item
    else record item { proposed_value = amended_proposal env item (trim_space value) }

-- steps 4 and 5 of an approval
unfoldable pub apply_and_mark :
    Env
    → Option Principal
    → Item
    → DecideParams
    → Instant
    → ChangeRequestItem
    → Tx ChangeRequestItem
apply_and_mark env p item params now decided = do
  result ← apply_item env p (amended env item params.amended_value)
  mark_change_request_item_applied (record {
    applied_at = some now.iso_timestamp;
    applied_value = some result.value;
    applied_resource_kind = some result.kind;
    applied_resource_id = some result.id;
    applied_resource_version = null_id result.version;
    id = item.id;
    version = decided.version;
  })

unfoldable pub apply_decision :
    Env
    → Option Principal
    → ItemStatus
    → Item
    → DecideParams
    → Instant
    → ChangeRequestItem
    → Tx ChangeRequestItem
apply_decision env p item_approved item params now decided =
    apply_and_mark env p item params now decided
apply_decision env p _ item params now decided = pure decided

-- `errors.Is(err, sql.ErrNoRows)`
abbrev pub is_no_rows : Error → Bool
is_no_rows no_rows = true
is_no_rows _ = false

-- an update of which it does not matter whether it found its row
unfoldable pub ignore_missing : {A : Type 0} → Tx A → Tx (Unit {0})
ignore_missing m db = elim (m db) [
  | ok (a, db') ↦ ok (tt, db')
  | err e ↦ if is_no_rows e then ok (tt, db) else err e
]

-- the request follows its items
unfoldable pub advance_request : ChangeRequest → ℕ → Instant → Tx (Unit {0})
advance_request request pending now =
    if pending == 0 && not (is_resolved request.status)
    then ignore_missing (
        set_change_request_status status_resolved (some now.iso_timestamp) none request.id
          request.version)
    else if is_submitted request.status
    then ignore_missing
        (set_change_request_status status_in_review none none request.id request.version)
    else pure tt

-- an item that is already decided: a replay or a refusal
unfoldable pub decided_before : ℕ → ItemStatus → Item → Tx Decision
decided_before request_id decision item =
    if same_status item.status decision
    then assemble_decision request_id item false true
    else fail item_decided

-- the decision on an item that is pending
unfoldable pub decide_pending :
    Env
    → Option Principal
    → ItemStatus
    → ChangeRequest
    → Item
    → DecideParams
    → Instant
    → Tx Decision
decide_pending env p decision request item params now = do
  lift (check_policy decision (user_id_of p) request item params)
  decided ← or_missing item_decided (
      decide_change_request_item (record {
        status = decision;
        reviewed_by = null_id (user_id_of p);
        reviewed_at = some now.iso_timestamp;
        decision_reason = null_string params.reason;
        verification_note = null_string params.verification_note;
        id = item.id;
        version = item.version;
      }))
  final ← apply_decision env p decision item params now decided
  pending ← count_pending_change_request_items request.id
  advance_request request pending now
  assemble_decision request.id (item_from final) (is_item_approved decision) false

unfoldable pub decide_found :
    Env
    → Option Principal
    → ItemStatus
    → ChangeRequest
    → Item
    → DecideParams
    → Instant
    → Tx Decision
decide_found env p decision request item params now =
    if is_item_pending item.status
    then decide_pending env p decision request item params now
    else decided_before request.id decision item

-- the transaction of `DecideItem`
unfoldable pub decide_tx :
    Env → Option Principal → ItemStatus → ℕ → ℕ → DecideParams → Instant → Tx Decision
decide_tx env p decision request_id item_id params now = do
  request ← or_missing not_found (get_change_request request_id)
  row ← or_missing not_found (get_change_request_item item_id)
  lift (guard (row.request_id == request_id) item_not_in_request)
  decide_found env p decision request (item_from row) params now

-- a decision that is one of the three, with a reason where it is a rejection
unfoldable pub decide_checked :
    Env → Option Principal → ℕ → ℕ → DecideParams → Instant → Result ItemStatus → Action Decision
decide_checked env p request_id item_id params now (err e) db = (err e, db)
decide_checked env p request_id item_id params now (ok decision) db =
    after
      (guard (not (is_item_rejected decision && is_blank params.reason)) rejection_reason_required)
      (in_tx (decide_tx env p decision request_id item_id params now)) db

-- `DecideItem`
unfoldable pub decide_item :
    Env → Option Principal → ℕ → ℕ → DecideParams → Instant → Action Decision
decide_item env p request_id item_id params now =
    decide_checked env p request_id item_id params now (parse_decision params.decision)
