-- ===== src/ChangeRequests/Apply.antt =====
-- internal/domain/changerequests/review.go: the adapters through which an approved item is applied.
-- Each calls one operation of the member service on the transaction of the decision.
use Prim.Native.String.{◌++◌ as ◌<>◌}
use bcars_portal.Base.{
  ℕ, ◌+◌, String, Bool, true, false, not, ◌&&◌, ◌||◌, Option, none, some, ◌==◌, str_eq,
  if◌then◌else◌,
}
use bcars_portal.GoText.{is_blank}
use bcars_portal.GoText.Text.{trim_space, cut_colon, keep_digits}
use bcars_portal.Outcome.{Result, ok, err, guard, stale, target_required, bad_value, no_adapter}
use bcars_portal.Authz.{Principal}
use bcars_portal.Idem.{Env}
use bcars_portal.Members.{
  PersonChange, change_person, add_contact, change_contact, archive_contact, make_primary,
  set_directory_visibility, set_acs_ares_sharing, valid_audience, pref_source_member_request,
}
use bcars_portal.Store.DirectoryRows.{Person}
use bcars_portal.Store.Tx.{Tx, pure, fail, lift, ◌>>=◌, ◌>>◌, or_missing, text_of}
use bcars_portal.Store.DirectoryQueries.{get_person, get_contact_method}
use bcars_portal.Store.ChangeQueries.{get_change_request}
use bcars_portal.ChangeRequests.Policy.{
  AdapterKind, adapter_none, adapter_person_update, adapter_contact_create, adapter_contact_update,
  adapter_contact_archive, adapter_contact_set_primary, adapter_contact_visibility,
  adapter_sharing_preference, adapter_of, requires_target_id,
}
use bcars_portal.ChangeRequests.Types.{Item}

-- `applyResult`
pub record ApplyResult : Type 0 where
  pub kind : String
  pub id : ℕ
  pub version : ℕ
  pub value : String

abbrev pub known_kind : String → Bool
known_kind kind = str_eq kind "email" || str_eq kind "phone" || str_eq kind "postal"

abbrev check_contact : String × String → Result (String × String)
check_contact (kind, value) =
    if not (known_kind kind)
    then err bad_value
    else if str_eq value ""
    then err bad_value
    else ok (kind, value)

abbrev trim_parts : Env → Option (String × String) → Result (String × String)
trim_parts env none = err bad_value
trim_parts env (some (kind, value)) =
    check_contact (env.to_lower (trim_space kind), trim_space value)

-- `parseContactValue`
unfoldable pub parse_contact_value : Env → String → Result (String × String)
parse_contact_value env raw = trim_parts env (cut_colon (trim_space raw))

abbrev pub is_contact_adapter : AdapterKind → Bool
is_contact_adapter adapter_contact_create = true
is_contact_adapter adapter_contact_update = true
is_contact_adapter _ = false

abbrev with_kind : Result (String × String) → String → String
with_kind (ok (kind, value)) amended = kind <> ":" <> amended
with_kind (err e) amended = amended

abbrev keep_or_prefix : Result (String × String) → Result (String × String) → String → String
keep_or_prefix (ok (kind, value)) proposed amended =
    if str_eq kind "" then with_kind proposed amended else amended
keep_or_prefix (err e) proposed amended = with_kind proposed amended

-- `amendedProposal`
unfoldable pub amended_proposal : Env → Item → String → String
amended_proposal env item amended =
    if is_contact_adapter (adapter_of item.operation)
    then keep_or_prefix (parse_contact_value env amended)
        (parse_contact_value env item.proposed_value) amended
    else amended

-- `normalizeContact`
unfoldable pub normalize_contact : Env → String → String → String
normalize_contact env kind value =
    let v = env.to_lower (trim_space value) in if str_eq kind "phone" then keep_digits v else v

-- `parseBool`
unfoldable pub parse_bool : Env → String → Result Bool
parse_bool env raw =
    let v = env.to_lower (trim_space raw) in
    if str_eq v "true" || str_eq v "yes" || str_eq v "1"
    then ok true
    else if str_eq v "false" || str_eq v "no" || str_eq v "0"
    then ok false
    else err bad_value

-- `checkTargetVersion`
unfoldable pub check_target_version : Item → ℕ → Result (Unit {0})
check_target_version item current =
    guard (item.target_version == 0 || item.target_version == current) stale

-- the fields that `applyPersonUpdate` carries over; LicenseClass and VolunteerExaminer keep their
-- zero values
abbrev pub carried : Person → PersonChange
carried person = record {
  id = person.id;
  display_name = person.display_name;
  sort_name = person.sort_name;
  call_sign = text_of person.call_sign;
  license_class = "";
  volunteer_examiner = false;
  version = person.version;
}

-- the fields to write, and the value to record
unfoldable pub person_change : Env → String → String → Person → Result (PersonChange × String)
person_change env operation value person =
    if str_eq operation "person.display_name.set"
    then ok
        (record (carried person) { display_name = value; sort_name = env.to_lower value }, value)
    else if str_eq operation "person.call_sign.set"
    then ok (record (carried person) { call_sign = env.to_upper value }, env.to_upper value)
    else err no_adapter

-- `applyPersonUpdate`
unfoldable pub apply_person_update : Env → Option Principal → Item → Tx ApplyResult
apply_person_update env p item = do
  lift (guard (not (item.target_id == 0)) target_required)
  person ← or_missing target_required (get_person item.target_id)
  lift (check_target_version item person.version)
  lift (guard (not (is_blank item.proposed_value)) bad_value)
  change ← lift (person_change env item.operation (trim_space item.proposed_value) person)
  updated ← change_person env p change.0
  pure (record { kind = "person"; id = updated.id; version = updated.version; value = change.1 })

abbrev pub target_of : Option ℕ → Tx ℕ
target_of none = fail target_required
target_of (some id) = pure id

-- the person that an added contact belongs to
unfoldable pub contact_owner : Item → Tx ℕ
contact_owner item =
    if item.target_id == 0
    then (do req ← get_change_request item.request_id; target_of req.target_person_id)
    else pure item.target_id

-- `applyContactCreate`
unfoldable pub apply_contact_create : Env → Option Principal → Item → Tx ApplyResult
apply_contact_create env p item = do
  parsed ← lift (parse_contact_value env item.proposed_value)
  person_id ← contact_owner item
  cm ← add_contact p (record {
    person_id = person_id;
    kind = parsed.0;
    label = "";
    value_raw = parsed.1;
    value_norm = normalize_contact env parsed.0 parsed.1;
    is_primary = false;
    postal_line1 = "";
    postal_line2 = "";
    postal_city = "";
    postal_state = "";
    postal_postal_code = "";
    postal_country = "";
  })
  pure (record { kind = "contact_method"; id = cm.id; version = cm.version; value = parsed.1 })

-- `applyContactUpdate`
unfoldable pub apply_contact_update : Env → Option Principal → Item → Tx ApplyResult
apply_contact_update env p item = do
  existing ← or_missing target_required (get_contact_method item.target_id)
  lift (check_target_version item existing.version)
  parsed ← lift (parse_contact_value env item.proposed_value)
  lift (guard (str_eq parsed.0 existing.kind) bad_value)
  updated ← change_contact p (record {
    id = item.target_id;
    version = existing.version;
    label = text_of existing.label;
    value_raw = parsed.1;
    value_norm = normalize_contact env parsed.0 parsed.1;
    postal_line1 = text_of existing.postal_line1;
    postal_line2 = text_of existing.postal_line2;
    postal_city = text_of existing.postal_city;
    postal_state = text_of existing.postal_state;
    postal_postal_code = text_of existing.postal_postal_code;
    postal_country = text_of existing.postal_country;
  })
  pure (record {
    kind = "contact_method";
    id = updated.id;
    version = updated.version;
    value = parsed.1;
  })

-- the case AdapterContactArchive
unfoldable pub apply_contact_archive : Option Principal → Item → Tx ApplyResult
apply_contact_archive p item = do
  cm ← or_missing target_required (get_contact_method item.target_id)
  lift (check_target_version item cm.version)
  archive_contact p item.target_id cm.version
  pure (record {
    kind = "contact_method";
    id = item.target_id;
    version = cm.version + 1;
    value = "";
  })

-- the case AdapterContactSetPrimary
unfoldable pub apply_set_primary : Option Principal → Item → Tx ApplyResult
apply_set_primary p item = do
  cm ← or_missing target_required (get_contact_method item.target_id)
  lift (check_target_version item cm.version)
  make_primary p item.target_id
  pure (record { kind = "contact_method"; id = item.target_id; version = 0; value = "" })

-- the case AdapterContactVisibility
unfoldable pub apply_visibility : Option Principal → Item → Tx ApplyResult
apply_visibility p item = do
  let audience = trim_space item.proposed_value
  lift (guard (valid_audience audience) bad_value)
  ev ← set_directory_visibility p item.target_id audience pref_source_member_request
  pure (record {
    kind = "contact_method_visibility_event";
    id = ev.id;
    version = 0;
    value = audience;
  })

abbrev bool_text : Bool → String
bool_text true = "true"
bool_text false = "false"

-- the case AdapterSharingPreference
unfoldable pub apply_sharing : Env → Option Principal → Item → Tx ApplyResult
apply_sharing env p item = do
  participates ← lift (parse_bool env item.proposed_value)
  ev ←
      set_acs_ares_sharing p item.target_id participates "Applied from reviewed member request."
        pref_source_member_request
  pure (record {
    kind = "acs_ares_sharing_event";
    id = ev.id;
    version = 0;
    value = bool_text participates;
  })

unfoldable pub apply_adapter : Env → Option Principal → Item → AdapterKind → Tx ApplyResult
apply_adapter env p item adapter_person_update = apply_person_update env p item
apply_adapter env p item adapter_contact_create = apply_contact_create env p item
apply_adapter env p item adapter_contact_update = apply_contact_update env p item
apply_adapter env p item adapter_contact_archive = apply_contact_archive p item
apply_adapter env p item adapter_contact_set_primary = apply_set_primary p item
apply_adapter env p item adapter_contact_visibility = apply_visibility p item
apply_adapter env p item adapter_sharing_preference = apply_sharing env p item
apply_adapter env p item adapter_none = fail no_adapter

-- `applyItem`, with a member service
unfoldable pub apply_item : Env → Option Principal → Item → Tx ApplyResult
apply_item env p item = do
  lift (guard (not (requires_target_id item.operation && item.target_id == 0)) target_required)
  apply_adapter env p item (adapter_of item.operation)
