-- ===== src/Members.antt =====
-- internal/domain/members/service.go: the operations through which a reviewed request is applied.
-- Each is one call of the capability policy and statements on the caller's transaction (`WithTx`).
-- `audit.StampResource` labels the request's log entry and writes no table here.
pub mod Standing
pub mod Honorary
pub mod Notes
pub mod NoteHistory
pub mod Approval
mod Tests
use bcars_portal.Base.{ℕ, String, Bool, true, false, ◌||◌, Option, some, str_eq, if◌then◌else◌}
use bcars_portal.GoText.Text.{trim_space}
use bcars_portal.Outcome.{guard, invalid_audience}
use bcars_portal.Authz.{Principal, authorize, user_id_of}
use bcars_portal.Idem.{Env}
use bcars_portal.Store.DirectoryRows.{Person, ContactMethod, VisibilityEvent, SharingEvent}
use bcars_portal.Store.Tx.{Tx, pure, lift, ◌>>=◌, ◌>>◌, or_stale, null_string}
use bcars_portal.Store.DirectoryQueries.{
  update_person, get_contact_method, create_contact_method, update_contact_method,
  archive_contact_method, clear_primary_for_person, set_primary, create_visibility_event,
  create_sharing_event,
}

-- PrefSourceOfficer and PrefSourceMemberRequest
abbrev pub pref_source_officer : String
pref_source_officer = "officer"

abbrev pub pref_source_member_request : String
pref_source_member_request = "member_request"

-- AudienceFullMembers, AudienceHidden and AudienceOfficersOnly
abbrev pub audience_full_members : String
audience_full_members = "full_members"

abbrev pub audience_hidden : String
audience_hidden = "hidden"

abbrev pub audience_officers_only : String
audience_officers_only = "officers_only"

-- `ValidAudience`
unfoldable pub valid_audience : String → Bool
valid_audience a =
    str_eq a audience_full_members || str_eq a audience_hidden || str_eq a audience_officers_only

-- `boolToInt`
abbrev pub bool_to_int : Bool → ℕ
bool_to_int true = 1
bool_to_int false = 0

-- `UpdatePersonParams`
pub record PersonChange : Type 0 where
  pub id : ℕ
  pub display_name : String
  pub sort_name : String
  pub call_sign : String
  pub license_class : String
  pub volunteer_examiner : Bool
  pub version : ℕ

-- `UpdatePerson`
unfoldable pub change_person : Env → Option Principal → PersonChange → Tx Person
change_person env p params = do
  lift (authorize p "member.update")
  or_stale (
      update_person (record {
        display_name = params.display_name;
        sort_name = params.sort_name;
        call_sign = null_string params.call_sign;
        license_class = null_string (env.to_lower (trim_space params.license_class));
        volunteer_examiner = bool_to_int params.volunteer_examiner;
        id = params.id;
        version = params.version;
      }))

-- `CreateContactMethodParams`
pub record ContactAddition : Type 0 where
  pub person_id : ℕ
  pub kind : String
  pub label : String
  pub value_raw : String
  pub value_norm : String
  pub is_primary : Bool
  pub postal_line1 : String
  pub postal_line2 : String
  pub postal_city : String
  pub postal_state : String
  pub postal_postal_code : String
  pub postal_country : String

-- `CreateContactMethod`
unfoldable pub add_contact : Option Principal → ContactAddition → Tx ContactMethod
add_contact p params = do
  lift (authorize p "contact_method.write")
  if params.is_primary then clear_primary_for_person params.person_id else pure tt
  create_contact_method (record {
    person_id = params.person_id;
    kind = params.kind;
    label = null_string params.label;
    value_raw = params.value_raw;
    value_norm = params.value_norm;
    is_primary = bool_to_int params.is_primary;
    postal_line1 = null_string params.postal_line1;
    postal_line2 = null_string params.postal_line2;
    postal_city = null_string params.postal_city;
    postal_state = null_string params.postal_state;
    postal_postal_code = null_string params.postal_postal_code;
    postal_country = null_string params.postal_country;
  })

-- `ArchiveContactMethod`
unfoldable pub archive_contact : Option Principal → ℕ → ℕ → Tx (Unit {0})
archive_contact p id version = do
  lift (authorize p "contact_method.write")
  get_contact_method id
  or_stale (archive_contact_method id version)
  pure tt

-- `MakePrimary`
unfoldable pub make_primary : Option Principal → ℕ → Tx (Unit {0})
make_primary p id = do
  lift (authorize p "contact_method.write")
  cm ← get_contact_method id
  clear_primary_for_person cm.person_id
  set_primary id

-- `UpdateContactMethodParams`
pub record ContactChange : Type 0 where
  pub id : ℕ
  pub version : ℕ
  pub label : String
  pub value_raw : String
  pub value_norm : String
  pub postal_line1 : String
  pub postal_line2 : String
  pub postal_city : String
  pub postal_state : String
  pub postal_postal_code : String
  pub postal_country : String

-- `UpdateContactMethod`
unfoldable pub change_contact : Option Principal → ContactChange → Tx ContactMethod
change_contact p params = do
  lift (authorize p "contact_method.write")
  get_contact_method params.id
  or_stale (
      update_contact_method (record {
        label = null_string params.label;
        value_raw = params.value_raw;
        value_norm = params.value_norm;
        postal_line1 = null_string params.postal_line1;
        postal_line2 = null_string params.postal_line2;
        postal_city = null_string params.postal_city;
        postal_state = null_string params.postal_state;
        postal_postal_code = null_string params.postal_postal_code;
        postal_country = null_string params.postal_country;
        id = params.id;
        version = params.version;
      }))

-- `prefSourceOrDefault`
abbrev pref_source_or_default : String → String
pref_source_or_default source = if str_eq source "" then pref_source_officer else source

-- `SetDirectoryVisibility`
unfoldable pub set_directory_visibility :
    Option Principal → ℕ → String → String → Tx VisibilityEvent
set_directory_visibility p contact audience source = do
  lift (authorize p "sharing_pref.write.officer")
  lift (guard (valid_audience audience) invalid_audience)
  create_visibility_event contact audience (pref_source_or_default source) (some (user_id_of p))

-- `SetAcsAresSharing`
unfoldable pub set_acs_ares_sharing :
    Option Principal → ℕ → Bool → String → String → Tx SharingEvent
set_acs_ares_sharing p person participates reason source = do
  lift (authorize p "sharing_pref.write.officer")
  create_sharing_event person (bool_to_int participates) (pref_source_or_default source)
      (some (user_id_of p)) (null_string reason)
