-- ===== src/ChangeRequests/Example.antt =====
-- A member's request to change a name, with one item that is pending.
use bcars_portal.Base.{none, some, [], ◌∷◌, Option}
use bcars_portal.Authz.{Principal}
use bcars_portal.Store.DirectoryRows.{
  Person, ChangeRequest, ChangeRequestItem, status_submitted, item_pending,
}
use bcars_portal.Store.Tx.{Db}
use bcars_portal.Batches.Example.{start}
use bcars_portal.ChangeRequests.Review.{DecideParams}

abbrev pub secretary : Option Principal
secretary = some (record { user_id = 7; capabilities = "member.update" ∷ [] })

abbrev pub ann : Person
ann = record {
  id = 5;
  display_name = "Ann";
  sort_name = "ann";
  call_sign = none;
  deceased_at = none;
  deactivated_at = none;
  created_at = "";
  updated_at = "";
  version = 2;
  license_class = some "general";
  volunteer_examiner = 1;
}

abbrev pub name_request : ChangeRequest
name_request = record {
  id = 1;
  source = "member";
  status = status_submitted;
  requester_user_id = some 9;
  target_person_id = some 5;
  supplied_name = none;
  supplied_call_sign = none;
  supplied_contact = none;
  stated_relationship = none;
  summary = "My name is Anna";
  received_by = some 9;
  submitted_at = "2026-03-01T10:00:00.000Z";
  triaged_by = none;
  triaged_at = none;
  resolved_at = none;
  withdrawn_at = none;
  source_ip_hash = none;
  created_at = "";
  updated_at = "";
  version = 1;
  resolved_by = none;
  resolution_note = none;
}

abbrev pub name_item : ChangeRequestItem
name_item = record {
  id = 1;
  request_id = 1;
  ordinal = 0;
  operation = "person.display_name.set";
  proposed_value = some "Anna";
  target_kind = some "person";
  target_id = some 5;
  target_version = some 2;
  sensitivity = "ordinary";
  status = item_pending;
  reviewed_by = none;
  reviewed_at = none;
  decision_reason = none;
  verification_note = none;
  applied_at = none;
  applied_resource_kind = none;
  applied_resource_id = none;
  applied_resource_version = none;
  created_at = "";
  updated_at = "";
  version = 1;
  applied_value = none;
}

abbrev pub desk : Db
desk = record start {
  persons = ann ∷ [];
  change_requests = name_request ∷ [];
  change_request_items = name_item ∷ [];
}

abbrev pub approval : DecideParams
approval = record { decision = "approved"; reason = ""; verification_note = ""; amended_value = "" }
