-- ===== src/Store/DirectoryQueries.antt =====
-- internal/db/sqlc/persons.sql.go, contact_methods.sql.go and preferences.sql.go: persons, their
-- contact methods, and the events that record their preferences.
use bcars_portal.Base.{
  ℕ, ◌+◌, String, Bool, true, false, not, ◌&&◌, ◌||◌, Option, none, some, List, [], ◌∷◌, ◌++◌, ◌==◌,
  str_eq, find_by, exists_by, update_where, if◌then◌else◌,
}
use bcars_portal.Outcome.{ok, err, unique_failed, foreign_key_failed, check_failed}
use bcars_portal.Store.DirectoryRows.{Person, ContactMethod, VisibilityEvent, SharingEvent}
use bcars_portal.Store.Tx.{Db, Tx, one, next_id, update_row}

-- GetPerson
unfoldable pub get_person : ℕ → Tx Person
get_person id = one (λ db. find_by (λ p. p.id == id) db.persons)

pub record UpdatePersonParams : Type 0 where
  pub display_name : String
  pub sort_name : String
  pub call_sign : Option String
  pub license_class : Option String
  pub volunteer_examiner : ℕ
  pub id : ℕ
  pub version : ℕ

abbrev pub updated_person : Db → UpdatePersonParams → Person → Person
updated_person db arg p = record p {
  display_name = arg.display_name;
  sort_name = arg.sort_name;
  call_sign = arg.call_sign;
  license_class = arg.license_class;
  volunteer_examiner = arg.volunteer_examiner;
  version = p.version + 1;
  updated_at = db.clock.iso_timestamp;
}

-- ux_persons_callsign: another person has the call sign; null equals nothing
abbrev pub holds : Option String → Person → Bool
holds none p = false
holds (some s) p = elim p.call_sign [ none ↦ false | some t ↦ str_eq s t ]

-- the CHECK on persons.volunteer_examiner
abbrev pub zero_or_one : ℕ → Bool
zero_or_one n = n == 0 || n == 1

-- UpdatePerson
unfoldable pub update_person : UpdatePersonParams → Tx Person
unfolding update_row
update_person arg db =
    if exists_by (λ p. not (p.id == arg.id) && holds arg.call_sign p) db.persons
      && exists_by (λ p. p.id == arg.id && p.version == arg.version) db.persons
    then err unique_failed
    else update_row (λ d. d.persons) (λ rows d. record d { persons = rows })
        (λ p. zero_or_one p.volunteer_examiner) (updated_person db arg)
        (λ p. p.id == arg.id && p.version == arg.version) db

pub record CreatePersonParams : Type 0 where
  pub display_name : String
  pub sort_name : String
  pub call_sign : Option String
  pub license_class : Option String
  pub volunteer_examiner : ℕ

abbrev pub new_person : Db → CreatePersonParams → Person
new_person db arg = record {
  id = next_id (λ p. p.id) db.persons;
  display_name = arg.display_name;
  sort_name = arg.sort_name;
  call_sign = arg.call_sign;
  deceased_at = none;
  deactivated_at = none;
  created_at = db.clock.iso_timestamp;
  updated_at = db.clock.iso_timestamp;
  version = 1;
  license_class = arg.license_class;
  volunteer_examiner = arg.volunteer_examiner;
}

-- CreatePerson
unfoldable pub create_person : CreatePersonParams → Tx Person
create_person arg db =
    if not (zero_or_one arg.volunteer_examiner)
    then err check_failed
    else if exists_by (holds arg.call_sign) db.persons
    then err unique_failed
    else ok (new_person db arg, record db { persons = db.persons ++ new_person db arg ∷ [] })

abbrev pub person_at : ℕ → ℕ → Person → Bool
person_at id version p = p.id == id && p.version == version

abbrev pub set_persons : List Person → Db → Db
set_persons rows db = record db { persons = rows }

-- DeactivatePerson
unfoldable pub deactivate_person : ℕ → ℕ → Tx Person
unfolding update_row
deactivate_person id version db =
    update_row (λ d. d.persons) set_persons (λ p. true)
      (λ p. record p {
        deactivated_at = some db.clock.iso_timestamp;
        version = p.version + 1;
        updated_at = db.clock.iso_timestamp;
      })
      (person_at id version) db

-- ReactivatePerson
unfoldable pub reactivate_person : ℕ → ℕ → Tx Person
unfolding update_row
reactivate_person id version db =
    update_row (λ d. d.persons) set_persons (λ p. true)
      (λ p. record p {
        deactivated_at = none;
        version = p.version + 1;
        updated_at = db.clock.iso_timestamp;
      })
      (person_at id version) db

-- GetContactMethod
unfoldable pub get_contact_method : ℕ → Tx ContactMethod
get_contact_method id = one (λ db. find_by (λ c. c.id == id) db.contact_methods)

pub record CreateContactMethodParams : Type 0 where
  pub person_id : ℕ
  pub kind : String
  pub label : Option String
  pub value_raw : String
  pub value_norm : String
  pub is_primary : ℕ
  pub postal_line1 : Option String
  pub postal_line2 : Option String
  pub postal_city : Option String
  pub postal_state : Option String
  pub postal_postal_code : Option String
  pub postal_country : Option String

abbrev pub new_contact : Db → CreateContactMethodParams → ContactMethod
new_contact db arg = record {
  id = next_id (λ c. c.id) db.contact_methods;
  person_id = arg.person_id;
  kind = arg.kind;
  label = arg.label;
  value_raw = arg.value_raw;
  value_norm = arg.value_norm;
  is_primary = arg.is_primary;
  archived_at = none;
  postal_line1 = arg.postal_line1;
  postal_line2 = arg.postal_line2;
  postal_city = arg.postal_city;
  postal_state = arg.postal_state;
  postal_postal_code = arg.postal_postal_code;
  postal_country = arg.postal_country;
  created_at = db.clock.iso_timestamp;
  updated_at = db.clock.iso_timestamp;
  version = 1;
}

-- CreateContactMethod
unfoldable pub create_contact_method : CreateContactMethodParams → Tx ContactMethod
create_contact_method arg db =
    if exists_by (λ p. p.id == arg.person_id) db.persons
    then ok (
      new_contact db arg,
      record db { contact_methods = db.contact_methods ++ new_contact db arg ∷ [] },
    )
    else err foreign_key_failed

pub record UpdateContactMethodParams : Type 0 where
  pub label : Option String
  pub value_raw : String
  pub value_norm : String
  pub postal_line1 : Option String
  pub postal_line2 : Option String
  pub postal_city : Option String
  pub postal_state : Option String
  pub postal_postal_code : Option String
  pub postal_country : Option String
  pub id : ℕ
  pub version : ℕ

abbrev set_contacts : List ContactMethod → Db → Db
set_contacts rows db = record db { contact_methods = rows }

-- UpdateContactMethod
unfoldable pub update_contact_method : UpdateContactMethodParams → Tx ContactMethod
unfolding update_row
update_contact_method arg db =
    update_row (λ d. d.contact_methods) set_contacts (λ c. true)
      (λ c. record c {
        label = arg.label;
        value_raw = arg.value_raw;
        value_norm = arg.value_norm;
        postal_line1 = arg.postal_line1;
        postal_line2 = arg.postal_line2;
        postal_city = arg.postal_city;
        postal_state = arg.postal_state;
        postal_postal_code = arg.postal_postal_code;
        postal_country = arg.postal_country;
        version = c.version + 1;
        updated_at = db.clock.iso_timestamp;
      })
      (λ c. c.id == arg.id && c.version == arg.version) db

-- ArchiveContactMethod
unfoldable pub archive_contact_method : ℕ → ℕ → Tx ContactMethod
unfolding update_row
archive_contact_method id version db =
    update_row (λ d. d.contact_methods) set_contacts (λ c. true)
      (λ c. record c {
        archived_at = some db.clock.iso_timestamp;
        version = c.version + 1;
        updated_at = db.clock.iso_timestamp;
      })
      (λ c. c.id == id && c.version == version) db

abbrev is_absent : Option String → Bool
is_absent none = true
is_absent (some s) = false

-- ClearPrimaryForPerson
unfoldable pub clear_primary_for_person : ℕ → Tx (Unit {0})
clear_primary_for_person person_id db = ok (
  tt,
  set_contacts
      (update_where (λ c. c.person_id == person_id && c.is_primary == 1 && is_absent c.archived_at)
        (λ c. record c {
          is_primary = 0;
          version = c.version + 1;
          updated_at = db.clock.iso_timestamp;
        })
        db.contact_methods)
      db,
)

-- SetPrimary
unfoldable pub set_primary : ℕ → Tx (Unit {0})
set_primary id db = ok (
  tt,
  set_contacts
      (update_where (λ c. c.id == id)
        (λ c. record c {
          is_primary = 1;
          version = c.version + 1;
          updated_at = db.clock.iso_timestamp;
        })
        db.contact_methods)
      db,
)

abbrev pub new_visibility : Db → ℕ → String → String → Option ℕ → VisibilityEvent
new_visibility db contact audience source actor = record {
  id = next_id (λ e. e.id) db.visibility_events;
  contact_method_id = contact;
  audience = audience;
  source = source;
  effective_at = db.clock.iso_timestamp;
  actor_user_id = actor;
  note = none;
  created_at = db.clock.iso_timestamp;
}

-- CreateVisibilityEvent, effective now and without a note
unfoldable pub create_visibility_event : ℕ → String → String → Option ℕ → Tx VisibilityEvent
create_visibility_event contact audience source actor db =
    if exists_by (λ c. c.id == contact) db.contact_methods
    then ok (
      new_visibility db contact audience source actor,
      record db {
        visibility_events =
            db.visibility_events ++ new_visibility db contact audience source actor ∷ [];
      },
    )
    else err foreign_key_failed

abbrev pub new_sharing : Db → ℕ → ℕ → String → Option ℕ → Option String → SharingEvent
new_sharing db person participates source actor reason = record {
  id = next_id (λ e. e.id) db.sharing_events;
  person_id = person;
  participates = participates;
  source = source;
  effective_at = db.clock.iso_timestamp;
  actor_user_id = actor;
  reason = reason;
  created_at = db.clock.iso_timestamp;
}

-- CreateAcsAresSharingEvent, effective now
unfoldable pub create_sharing_event : ℕ → ℕ → String → Option ℕ → Option String → Tx SharingEvent
create_sharing_event person participates source actor reason db =
    if exists_by (λ p. p.id == person) db.persons
    then ok (
      new_sharing db person participates source actor reason,
      record db {
        sharing_events =
            db.sharing_events ++ new_sharing db person participates source actor reason ∷ [];
      },
    )
    else err foreign_key_failed
