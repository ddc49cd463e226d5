-- ===== src/Store/DirectoryRows.antt =====
-- The rows of internal/db/sqlc/models.go that the directory, the change requests and the rate limiter
-- read and write. A `sql.Null…` value is an option; identifiers, versions and the integers 0 and 1
-- that stand for a Boolean are naturals.
use bcars_portal.Base.{ℕ, String, Option}

-- the values that the schema allows in member_change_requests.status
pub data RequestStatus : Type 0 where
  status_draft status_submitted status_in_review status_resolved status_withdrawn : RequestStatus

-- the values that the schema allows in member_change_request_items.status
pub data ItemStatus : Type 0 where
  item_pending item_approved item_rejected item_needs_verification : ItemStatus

pub record Person : Type 0 where
  pub id : ℕ
  pub display_name : String
  pub sort_name : String
  pub call_sign : Option String
  pub deceased_at : Option String
  pub deactivated_at : Option String
  pub created_at : String
  pub updated_at : String
  pub version : ℕ
  pub license_class : Option String
  pub volunteer_examiner : ℕ

pub record ContactMethod : Type 0 where
  pub id : ℕ
  pub person_id : ℕ
  pub kind : String
  pub label : Option String
  pub value_raw : String
  pub value_norm : String
  pub is_primary : ℕ
  pub archived_at : Option String
  pub postal_line1 : Option String
  pub postal_line2 : Option String
  pub postal_city : Option String
  pub postal_state : Option String
  pub postal_postal_code : Option String
  pub postal_country : Option String
  pub created_at : String
  pub updated_at : String
  pub version : ℕ

pub record VisibilityEvent : Type 0 where
  pub id : ℕ
  pub contact_method_id : ℕ
  pub audience : String
  pub source : String
  pub effective_at : String
  pub actor_user_id : Option ℕ
  pub note : Option String
  pub created_at : String

pub record SharingEvent : Type 0 where
  pub id : ℕ
  pub person_id : ℕ
  pub participates : ℕ
  pub source : String
  pub effective_at : String
  pub actor_user_id : Option ℕ
  pub reason : Option String
  pub created_at : String

pub record ChangeRequest : Type 0 where
  pub id : ℕ
  pub source : String
  pub status : RequestStatus
  pub requester_user_id : Option ℕ
  pub target_person_id : Option ℕ
  pub supplied_name : Option String
  pub supplied_call_sign : Option String
  pub supplied_contact : Option String
  pub stated_relationship : Option String
  pub summary : String
  pub received_by : Option ℕ
  pub submitted_at : String
  pub triaged_by : Option ℕ
  pub triaged_at : Option String
  pub resolved_at : Option String
  pub withdrawn_at : Option String
  pub source_ip_hash : Option String
  pub created_at : String
  pub updated_at : String
  pub version : ℕ
  pub resolved_by : Option ℕ
  pub resolution_note : Option String

pub record ChangeRequestItem : Type 0 where
  pub id : ℕ
  pub request_id : ℕ
  pub ordinal : ℕ
  pub operation : String
  pub proposed_value : Option String
  pub target_kind : Option String
  pub target_id : Option ℕ
  pub target_version : Option ℕ
  pub sensitivity : String
  pub status : ItemStatus
  pub reviewed_by : Option ℕ
  pub reviewed_at : Option String
  pub decision_reason : Option String
  pub verification_note : Option String
  pub applied_at : Option String
  pub applied_resource_kind : Option String
  pub applied_resource_id : Option ℕ
  pub applied_resource_version : Option ℕ
  pub created_at : String
  pub updated_at : String
  pub version : ℕ
  pub applied_value : Option String

pub record RequestAttempt : Type 0 where
  pub id : ℕ
  pub operation : String
  pub source_hash : Option String
  pub target_hash : Option String
  pub outcome : String
  pub attempted_at : String
  pub created_at : String

pub record MembershipApproval : Type 0 where
  pub id : ℕ
  pub membership_id : ℕ
  pub decision : String
  pub approved_type : Option String
  pub decided_by : ℕ
  pub decided_at : String
  pub reason : Option String
  pub created_at : String

pub record FccVerification : Type 0 where
  pub id : ℕ
  pub membership_id : ℕ
  pub call_sign : String
  pub license_class : Option String
  pub verification_source : String
  pub verified_by : ℕ
  pub verified_at : String
  pub expires_at : Option String
  pub revoked_at : Option String
  pub notes : Option String
  pub created_at : String

pub record HonoraryGrant : Type 0 where
  pub id : ℕ
  pub membership_id : ℕ
  pub starts_on : String
  pub ends_on : Option String
  pub is_lifetime : ℕ
  pub reason : String
  pub approved_by : ℕ
  pub approved_at : String
  pub revoked_at : Option String
  pub revoked_by : Option ℕ
  pub revoke_reason : Option String
  pub created_at : String
  pub updated_at : String
  pub version : ℕ

pub record Note : Type 0 where
  pub id : ℕ
  pub subject_kind : String
  pub subject_id : ℕ
  pub category : String
  pub visibility : String
  pub body : String
  pub author_id : ℕ
  pub source : String
  pub created_at : String
  pub updated_at : String
  pub version : ℕ

pub record NoteRevision : Type 0 where
  pub id : ℕ
  pub note_id : ℕ
  pub body : String
  pub edited_by : ℕ
  pub edited_at : String
  pub reason : Option String
