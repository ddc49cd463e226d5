-- ===== src/ChangeRequests/Intake.antt =====
-- internal/domain/changerequests/service.go: `Create`.
use bcars_portal.Base.{ℕ, suc, String, Option, List, [], ◌∷◌, ◌==◌, str_eq, if◌then◌else◌}
use bcars_portal.Base.Int.{pos}
use bcars_portal.GoText.{format_int}
use bcars_portal.GoText.Text.{trim_space}
use bcars_portal.Outcome.{unknown_person}
use bcars_portal.Authz.{Principal, user_id_of}
use bcars_portal.Idem.{Env, Claim, hash, begin, complete, null_id}
use bcars_portal.Store.DirectoryRows.{status_submitted}
use bcars_portal.Store.Tx.{
  Tx, Action, Instant, pure, after, in_tx, ◌>>=◌, ◌>>◌, null_string, or_missing,
}
use bcars_portal.Store.DirectoryQueries.{get_person}
use bcars_portal.Store.ChangeQueries.{create_change_request}
use bcars_portal.Store.ItemQueries.{create_change_request_item}
use bcars_portal.ChangeRequests.Policy.{sensitivity_ordinary}
use bcars_portal.ChangeRequests.Validation.{ItemInput, CreateParams, validate_create}
use bcars_portal.ChangeRequests.Types.{Request, load_request}

-- OpRequestCreate
abbrev pub op_request_create : String
op_request_create = "change-request-create"

-- `sensitivityOrDefault`
abbrev pub sensitivity_or_default : String → String
sensitivity_or_default s = if str_eq s "" then sensitivity_ordinary else s

abbrev item_parts : List ItemInput → List String
item_parts [] = []
item_parts (e ∷ es) =
    e.operation
    ∷ e.proposed_value
    ∷ e.target_kind
    ∷ format_int (pos e.target_id)
    ∷ format_int (pos e.target_version)
    ∷ sensitivity_or_default e.sensitivity
    ∷ item_parts es

-- `createFingerprint`
unfoldable pub create_fingerprint : Env → ℕ → CreateParams → String
create_fingerprint env actor params = hash env (
    format_int (pos actor)
    ∷ params.source
    ∷ format_int (pos params.target_person_id)
    ∷ params.supplied_name
    ∷ params.supplied_call_sign
    ∷ params.supplied_contact
    ∷ params.stated_relationship
    ∷ trim_space params.summary
    ∷ format_int (pos params.requester_user_id)
    ∷ item_parts params.items)

-- `if params.TargetPersonID != 0 { q.GetPerson(…) }`
unfoldable pub require_person : ℕ → Tx (Unit {0})
require_person id =
    if id == 0 then pure tt else (do or_missing unknown_person (get_person id); pure tt)

-- the loop over the items of the request
unfoldable pub create_items : ℕ → ℕ → List ItemInput → Tx (Unit {0})
create_items request_id ordinal [] = pure tt
create_items request_id ordinal (e ∷ es) = do
  create_change_request_item (record {
    request_id = request_id;
    ordinal = ordinal;
    operation = e.operation;
    proposed_value = null_string e.proposed_value;
    target_kind = null_string e.target_kind;
    target_id = null_id e.target_id;
    target_version = null_id e.target_version;
    sensitivity = sensitivity_or_default e.sensitivity;
  })
  create_items request_id (suc ordinal) es

-- the body of `Create` after the claim
unfoldable pub create_claimed : ℕ → CreateParams → Instant → Claim → Tx Request
create_claimed actor params now claim = if claim.replay then load_request claim.resource_id else (do
  require_person params.target_person_id
  row ← create_change_request (record {
    source = params.source;
    status = status_submitted;
    requester_user_id = null_id params.requester_user_id;
    target_person_id = null_id params.target_person_id;
    supplied_name = null_string params.supplied_name;
    supplied_call_sign = null_string params.supplied_call_sign;
    supplied_contact = null_string params.supplied_contact;
    stated_relationship = null_string params.stated_relationship;
    summary = trim_space params.summary;
    received_by = null_id actor;
    submitted_at = now.iso_timestamp;
    source_ip_hash = null_string params.source_ip_hash;
  })
  create_items row.id 0 params.items
  complete claim "change_request" row.id
  load_request row.id)

-- `Create`
unfoldable pub create_request :
    Env → Option Principal → CreateParams → String → Instant → Action Request
create_request env p params key now = after (validate_create params) (
    in_tx (do
      claim ←
          begin (user_id_of p) op_request_create key (create_fingerprint env (user_id_of p) params)
      create_claimed (user_id_of p) params now claim))
