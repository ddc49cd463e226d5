-- ===== src/ChangeRequests/Types.antt =====
-- The shapes of internal/domain/changerequests (service.go) and their mapping from rows (mapping.go).
use bcars_portal.Base.{
  ℕ, suc, String, Bool, Option, none, some, not, List, [], ◌∷◌, ◌==◌, map, find_by, if◌then◌else◌,
}
use bcars_portal.Store.DirectoryRows.{
  Person, ChangeRequest, ChangeRequestItem, RequestStatus, ItemStatus,
}
use bcars_portal.Store.Tx.{Db, Tx, pure, gets, ◌>>=◌, text_of, id_of}
use bcars_portal.Store.ChangeQueries.{get_change_request, is_item_pending, null}
use bcars_portal.Store.ItemQueries.{list_change_request_items}

pub record Item : Type 0 where
  pub id : ℕ
  pub request_id : ℕ
  pub ordinal : ℕ
  pub operation : String
  pub proposed_value : String
  pub target_kind : String
  pub target_id : ℕ
  pub target_version : ℕ
  pub sensitivity : String
  pub status : ItemStatus
  pub reviewed_by : ℕ
  pub reviewed_at : String
  pub decision_reason : String
  pub verification_note : String
  pub applied_at : String
  pub applied_resource_kind : String
  pub applied_resource_id : ℕ
  pub applied_resource_version : ℕ
  pub applied_value : String
  pub version : ℕ
  pub applied_value_recorded : Bool

-- `itemsFrom`, for one row
unfoldable pub item_from : ChangeRequestItem → Item
item_from row = record {
  id = row.id;
  request_id = row.request_id;
  ordinal = row.ordinal;
  operation = row.operation;
  proposed_value = text_of row.proposed_value;
  target_kind = text_of row.target_kind;
  target_id = id_of row.target_id;
  target_version = id_of row.target_version;
  sensitivity = row.sensitivity;
  status = row.status;
  reviewed_by = id_of row.reviewed_by;
  reviewed_at = text_of row.reviewed_at;
  decision_reason = text_of row.decision_reason;
  verification_note = text_of row.verification_note;
  applied_at = text_of row.applied_at;
  applied_resource_kind = text_of row.applied_resource_kind;
  applied_resource_id = id_of row.applied_resource_id;
  applied_resource_version = id_of row.applied_resource_version;
  applied_value = text_of row.applied_value;
  version = row.version;
  applied_value_recorded = not (null row.applied_value);
}

pub record Request : Type 0 where
  pub id : ℕ
  pub source : String
  pub status : RequestStatus
  pub requester_user_id : ℕ
  pub target_person_id : ℕ
  pub supplied_name : String
  pub supplied_call_sign : String
  pub supplied_contact : String
  pub stated_relationship : String
  pub summary : String
  pub received_by : ℕ
  pub submitted_at : String
  pub triaged_by : ℕ
  pub triaged_at : String
  pub resolved_at : String
  pub resolved_by : ℕ
  pub resolution_note : String
  pub withdrawn_at : String
  pub created_at : String
  pub updated_at : String
  pub version : ℕ
  pub target_display_name : String
  pub items : List Item
  pub pending_items : ℕ

-- `countPending`
unfoldable pub count_pending : List Item → ℕ
count_pending [] = 0
count_pending (i ∷ items) =
    let rest = count_pending items in if is_item_pending i.status then suc rest else rest

-- `requestFrom`, with what `load` adds
abbrev pub request_from : ChangeRequest → String → List Item → Request
request_from row name items = record {
  id = row.id;
  source = row.source;
  status = row.status;
  requester_user_id = id_of row.requester_user_id;
  target_person_id = id_of row.target_person_id;
  supplied_name = text_of row.supplied_name;
  supplied_call_sign = text_of row.supplied_call_sign;
  supplied_contact = text_of row.supplied_contact;
  stated_relationship = text_of row.stated_relationship;
  summary = row.summary;
  received_by = id_of row.received_by;
  submitted_at = row.submitted_at;
  triaged_by = id_of row.triaged_by;
  triaged_at = text_of row.triaged_at;
  resolved_at = text_of row.resolved_at;
  resolved_by = id_of row.resolved_by;
  resolution_note = text_of row.resolution_note;
  withdrawn_at = text_of row.withdrawn_at;
  created_at = row.created_at;
  updated_at = row.updated_at;
  version = row.version;
  target_display_name = name;
  items = items;
  pending_items = count_pending items;
}

abbrev name_of : Option Person → String
name_of none = ""
name_of (some p) = p.display_name

-- the display name of the target, where there is one
abbrev pub target_name : ℕ → Db → String
target_name id db = if id == 0 then "" else name_of (find_by (λ p. p.id == id) db.persons)

-- `load`
unfoldable pub load_request : ℕ → Tx Request
load_request id = do
  row ← get_change_request id
  name ← gets (target_name (id_of row.target_person_id))
  items ← list_change_request_items id
  pure (request_from row name (map item_from items))
