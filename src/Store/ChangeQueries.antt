-- ===== src/Store/ChangeQueries.antt =====
-- internal/db/sqlc/change_requests.sql.go: change requests and their items, with the constraints of
-- internal/db/migrations/0009_member_requests_access.sql and 0013_drop_public_request_source.sql.
use bcars_portal.Base.{
  ℕ, ◌+◌, String, Bool, true, false, not, ◌&&◌, ◌||◌, Option, none, some, List, [], ◌∷◌, ◌++◌, ◌==◌,
  str_eq, find_by, exists_by, if◌then◌else◌,
}
use bcars_portal.GoText.{is_sql_blank}
use bcars_portal.Outcome.{ok, err, foreign_key_failed, check_failed}
use bcars_portal.Store.DirectoryRows.{
  ChangeRequest, RequestStatus, ItemStatus, status_submitted, status_resolved, status_withdrawn,
  item_pending, item_approved,
}
use bcars_portal.Store.Tx.{Db, Tx, one, next_id, update_row}

abbrev pub is_item_pending : ItemStatus → Bool
is_item_pending item_pending = true
is_item_pending _ = false

abbrev pub is_item_approved : ItemStatus → Bool
is_item_approved item_approved = true
is_item_approved _ = false

abbrev pub is_resolved : RequestStatus → Bool
is_resolved status_resolved = true
is_resolved _ = false

abbrev pub is_withdrawn : RequestStatus → Bool
is_withdrawn status_withdrawn = true
is_withdrawn _ = false

abbrev pub is_submitted : RequestStatus → Bool
is_submitted status_submitted = true
is_submitted _ = false

abbrev pub is_terminal : RequestStatus → Bool
is_terminal s = is_resolved s || is_withdrawn s

-- `IS NULL`
abbrev pub null {ℓ} : {A : Type ℓ} → Option A → Bool
null none = true
null (some a) = false

-- `intakeSources`, the sources that the schema allows
abbrev pub is_source : String → Bool
is_source s =
    str_eq s "officer_phone"
    || str_eq s "officer_email"
    || str_eq s "officer_mail"
    || str_eq s "officer_meeting"
    || str_eq s "member"

abbrev same : Bool → Bool → Bool
same true b = b
same false b = not b

-- the CHECK constraints of member_change_requests
unfoldable pub request_checks : ChangeRequest → Bool
request_checks r =
    is_source r.source
    && not (is_sql_blank r.summary)
    && (not (str_eq r.source "member") || not (null r.requester_user_id))
    && (not (is_resolved r.status) || not (null r.resolved_at))
    && (not (is_withdrawn r.status) || not (null r.withdrawn_at))
    && same (null r.triaged_by) (null r.triaged_at)

abbrev known_person : Option ℕ → Db → Bool
known_person none db = true
known_person (some id) db = exists_by (λ p. p.id == id) db.persons

abbrev pub set_requests : List ChangeRequest → Db → Db
set_requests rows db = record db { change_requests = rows }

pub record CreateChangeRequestParams : Type 0 where
  pub source : String
  pub status : RequestStatus
  pub requester_user_id : Option ℕ
  pub target_person_id : Option ℕ
  pub supplied_name : Option String
  pub supplied_call_sign : Option String
  pub supplied_contact : Option String
  pub stated_relationship : Option String
  pub summary : String
  pub received_by : Option ℕ
  pub submitted_at : String
  pub source_ip_hash : Option String

abbrev pub new_request : Db → CreateChangeRequestParams → ChangeRequest
new_request db arg = record {
  id = next_id (λ r. r.id) db.change_requests;
  source = arg.source;
  status = arg.status;
  requester_user_id = arg.requester_user_id;
  target_person_id = arg.target_person_id;
  supplied_name = arg.supplied_name;
  supplied_call_sign = arg.supplied_call_sign;
  supplied_contact = arg.supplied_contact;
  stated_relationship = arg.stated_relationship;
  summary = arg.summary;
  received_by = arg.received_by;
  submitted_at = arg.submitted_at;
  triaged_by = none;
  triaged_at = none;
  resolved_at = none;
  withdrawn_at = none;
  source_ip_hash = arg.source_ip_hash;
  created_at = db.clock.iso_timestamp;
  updated_at = db.clock.iso_timestamp;
  version = 1;
  resolved_by = none;
  resolution_note = none;
}

-- CreateChangeRequest
unfoldable pub create_change_request : CreateChangeRequestParams → Tx ChangeRequest
create_change_request arg db =
    if not (request_checks (new_request db arg))
    then err check_failed
    else if not (known_person arg.target_person_id db)
    then err foreign_key_failed
    else ok (new_request db arg, set_requests (db.change_requests ++ new_request db arg ∷ []) db)

abbrev pub find_request : ℕ → Db → Option ChangeRequest
find_request id db = find_by (λ r. r.id == id) db.change_requests

-- GetChangeRequest
unfoldable pub get_change_request : ℕ → Tx ChangeRequest
get_change_request id = one (find_request id)

abbrev pub request_at : ℕ → ℕ → ChangeRequest → Bool
request_at id version r = r.id == id && r.version == version

-- SetChangeRequestTarget
unfoldable pub set_change_request_target :
    Option ℕ → Option ℕ → Option String → ℕ → ℕ → Tx ChangeRequest
unfolding update_row
set_change_request_target target triaged_by triaged_at id version db =
    if not (known_person target db) && exists_by (request_at id version) db.change_requests
    then err foreign_key_failed
    else update_row (λ d. d.change_requests) set_requests request_checks
        (λ r. record r {
          target_person_id = target;
          triaged_by = triaged_by;
          triaged_at = triaged_at;
          updated_at = db.clock.iso_timestamp;
          version = r.version + 1;
        })
        (request_at id version) db

-- SetChangeRequestStatus
unfoldable pub set_change_request_status :
    RequestStatus → Option String → Option String → ℕ → ℕ → Tx ChangeRequest
unfolding update_row
set_change_request_status status resolved_at withdrawn_at id version db =
    update_row (λ d. d.change_requests) set_requests request_checks
      (λ r. record r {
        status = status;
        resolved_at = resolved_at;
        withdrawn_at = withdrawn_at;
        updated_at = db.clock.iso_timestamp;
        version = r.version + 1;
      })
      (request_at id version) db

-- ResolveChangeRequest
unfoldable pub resolve_change_request :
    Option String → Option ℕ → Option String → ℕ → ℕ → Tx ChangeRequest
unfolding update_row
resolve_change_request resolved_at resolved_by note id version db =
    update_row (λ d. d.change_requests) set_requests request_checks
      (λ r. record r {
        status = status_resolved;
        resolved_at = resolved_at;
        resolved_by = resolved_by;
        resolution_note = note;
        updated_at = db.clock.iso_timestamp;
        version = r.version + 1;
      })
      (λ r. request_at id version r && not (is_terminal r.status)) db
