-- ===== src/Store/ItemQueries.antt =====
-- internal/db/sqlc/change_requests.sql.go: the items of change requests, with the constraints of
-- internal/db/migrations/0009_member_requests_access.sql.
pub mod Changes
use bcars_portal.Base.{
  ℕ, ◌+◌, String, Bool, true, false, not, ◌&&◌, ◌||◌, Option, none, some, List, [], ◌∷◌, ◌++◌, ◌==◌,
  str_eq, leb, find_by, exists_by, select, order_by, length, if◌then◌else◌,
}
use bcars_portal.Outcome.{ok, err, unique_failed, foreign_key_failed, check_failed}
use bcars_portal.Store.DirectoryRows.{ChangeRequestItem, ItemStatus, item_pending}
use bcars_portal.Store.Tx.{Db, Tx, gets, one, next_id, update_row}
use bcars_portal.Store.ChangeQueries.{is_item_pending, is_item_approved, null}

abbrev same : Bool → Bool → Bool
same true b = b
same false b = not b

-- the operations that the schema allows, `SupportedOperations`
abbrev pub is_operation : String → Bool
is_operation s =
    str_eq s "person.display_name.set"
    || str_eq s "person.call_sign.set"
    || str_eq s "contact_method.add"
    || str_eq s "contact_method.update"
    || str_eq s "contact_method.archive"
    || str_eq s "contact_method.set_primary"
    || str_eq s "contact_method.visibility.set"
    || str_eq s "sharing_pref.acs_ares.set"
    || str_eq s "relationship.add"
    || str_eq s "relationship.correct"
    || str_eq s "other"

-- the target kinds that the schema allows, `supportedTargetKinds`
abbrev pub is_target_kind : String → Bool
is_target_kind s =
    str_eq s "person"
    || str_eq s "contact_method"
    || str_eq s "membership"
    || str_eq s "relationship"

abbrev null_or_kind : Option String → Bool
null_or_kind none = true
null_or_kind (some s) = is_target_kind s

-- the CHECK constraints of member_change_request_items
unfoldable pub item_checks : ChangeRequestItem → Bool
item_checks i =
    is_operation i.operation
    && null_or_kind i.target_kind
    && (str_eq i.sensitivity "ordinary" || str_eq i.sensitivity "sensitive")
    && (not (str_eq i.operation "other") || not (is_item_approved i.status))
    && (is_item_pending i.status || (not (null i.reviewed_by) && not (null i.reviewed_at)))
    && (not (is_item_pending i.status) || (null i.reviewed_by && null i.reviewed_at))
    && (not (is_item_approved i.status)
        || not (str_eq i.sensitivity "sensitive")
        || not (null i.verification_note))
    && (null i.applied_at || is_item_approved i.status)
    && same (null i.applied_at) (null i.applied_resource_kind)
    && same (null i.applied_at) (null i.applied_resource_id)
    && same (null i.target_kind) (null i.target_id)
    && (null i.target_version || not (null i.target_id))

abbrev set_items : List ChangeRequestItem → Db → Db
set_items rows db = record db { change_request_items = rows }

pub record CreateChangeRequestItemParams : Type 0 where
  pub request_id : ℕ
  pub ordinal : ℕ
  pub operation : String
  pub proposed_value : Option String
  pub target_kind : Option String
  pub target_id : Option ℕ
  pub target_version : Option ℕ
  pub sensitivity : String

abbrev pub new_item : Db → CreateChangeRequestItemParams → ChangeRequestItem
new_item db arg = record {
  id = next_id (λ i. i.id) db.change_request_items;
  request_id = arg.request_id;
  ordinal = arg.ordinal;
  operation = arg.operation;
  proposed_value = arg.proposed_value;
  target_kind = arg.target_kind;
  target_id = arg.target_id;
  target_version = arg.target_version;
  sensitivity = arg.sensitivity;
  status = item_pending;
  reviewed_by = none;
  reviewed_at = none;
  decision_reason = none;
  verification_note = none;
  applied_at = none;
  applied_resource_kind = none;
  applied_resource_id = none;
  applied_resource_version = none;
  created_at = db.clock.iso_timestamp;
  updated_at = db.clock.iso_timestamp;
  version = 1;
  applied_value = none;
}

-- CreateChangeRequestItem, with ux_change_request_item_ordinal
unfoldable pub create_change_request_item : CreateChangeRequestItemParams → Tx ChangeRequestItem
create_change_request_item arg db =
    if not (item_checks (new_item db arg))
    then err check_failed
    else if exists_by (λ i. i.request_id == arg.request_id && i.ordinal == arg.ordinal)
        db.change_request_items
    then err unique_failed
    else if not (exists_by (λ r. r.id == arg.request_id) db.change_requests)
    then err foreign_key_failed
    else ok (new_item db arg, set_items (db.change_request_items ++ new_item db arg ∷ []) db)

-- GetChangeRequestItem
unfoldable pub get_change_request_item : ℕ → Tx ChangeRequestItem
get_change_request_item id = one (λ db. find_by (λ i. i.id == id) db.change_request_items)

abbrev pub items_of : ℕ → Db → List ChangeRequestItem
items_of request_id db = select (λ i. i.request_id == request_id) db.change_request_items

-- ListChangeRequestItems
unfoldable pub list_change_request_items : ℕ → Tx (List ChangeRequestItem)
list_change_request_items request_id =
    gets (λ db. order_by (λ a b. leb a.ordinal b.ordinal) (items_of request_id db))

-- CountPendingChangeRequestItems
unfoldable pub count_pending_change_request_items : ℕ → Tx ℕ
count_pending_change_request_items request_id =
    gets (λ db. length (select (λ i. is_item_pending i.status) (items_of request_id db)))

pub record DecideChangeRequestItemParams : Type 0 where
  pub status : ItemStatus
  pub reviewed_by : Option ℕ
  pub reviewed_at : Option String
  pub decision_reason : Option String
  pub verification_note : Option String
  pub id : ℕ
  pub version : ℕ

abbrev pub item_open_at : ℕ → ℕ → ChangeRequestItem → Bool
item_open_at id version i = i.id == id && i.version == version && is_item_pending i.status

abbrev pub decided_item : Db → DecideChangeRequestItemParams → ChangeRequestItem → ChangeRequestItem
decided_item db arg i = record i {
  status = arg.status;
  reviewed_by = arg.reviewed_by;
  reviewed_at = arg.reviewed_at;
  decision_reason = arg.decision_reason;
  verification_note = arg.verification_note;
  updated_at = db.clock.iso_timestamp;
  version = i.version + 1;
}

-- DecideChangeRequestItem
unfoldable pub decide_change_request_item : DecideChangeRequestItemParams → Tx ChangeRequestItem
unfolding update_row
decide_change_request_item arg db =
    update_row (λ d. d.change_request_items) set_items item_checks (decided_item db arg)
      (item_open_at arg.id arg.version) db

pub record MarkChangeRequestItemAppliedParams : Type 0 where
  pub applied_at : Option String
  pub applied_value : Option String
  pub applied_resource_kind : Option String
  pub applied_resource_id : Option ℕ
  pub applied_resource_version : Option ℕ
  pub id : ℕ
  pub version : ℕ

abbrev pub marked_item :
    Db → MarkChangeRequestItemAppliedParams → ChangeRequestItem → ChangeRequestItem
marked_item db arg i = record i {
  applied_at = arg.applied_at;
  applied_value = arg.applied_value;
  applied_resource_kind = arg.applied_resource_kind;
  applied_resource_id = arg.applied_resource_id;
  applied_resource_version = arg.applied_resource_version;
  updated_at = db.clock.iso_timestamp;
  version = i.version + 1;
}

abbrev pub item_to_mark : MarkChangeRequestItemAppliedParams → ChangeRequestItem → Bool
item_to_mark arg i =
    i.id == arg.id && i.version == arg.version && is_item_approved i.status && null i.applied_at

-- MarkChangeRequestItemApplied
unfoldable pub mark_change_request_item_applied :
    MarkChangeRequestItemAppliedParams → Tx ChangeRequestItem
unfolding update_row
mark_change_request_item_applied arg db =
    update_row (λ d. d.change_request_items) set_items item_checks (marked_item db arg)
      (item_to_mark arg) db
