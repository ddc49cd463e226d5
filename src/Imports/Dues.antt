-- ===== src/Imports/Dues.antt =====
-- internal/domain/importd/dues.go: what an imported row writes to the ledger, inside the transaction of
-- the commit. A decision payload is read from JSON before.
use bcars_portal.Base.{
  ℕ, String, Bool, true, false, not, ◌&&◌, ◌||◌, Option, none, some, List, [], ◌∷◌, ◌==◌, str_eq,
  select, order_by, leb, exists_by, head?, if◌then◌else◌,
}
use bcars_portal.GoText.{text_ltb}
use bcars_portal.GoText.Dates.{is_iso_date}
use bcars_portal.Idem.{null_id}
use bcars_portal.Store.Rows.{Membership, CoverageEvent, ReasonKind, reason_import}
use bcars_portal.Store.DirectoryRows.{HonoraryGrant}
use bcars_portal.Store.Tx.{Db, Tx, Instant, pure, gets, ◌>>=◌, ◌>>◌, null_string}
use bcars_portal.Store.GrantQueries.{create_honorary_grant, CreateHonoraryGrantParams}
use bcars_portal.Store.CoverageQueries.{
  CreateCoverageEventParams, create_coverage_event, get_effective_coverage_event,
}
use bcars_portal.Store.MembershipQueries.{
  create_membership, approve_membership, create_membership_approval,
}

-- `NormalizedRecord`
pub record NormalizedRecord : Type 0 where
  pub external_id : String
  pub display_name : String
  pub sort_name : String
  pub call_sign : String
  pub current_until : String
  pub current_until_flag : String
  pub note : String
  pub membership_type : String
  pub base_type : String
  pub license_class : String
  pub phone : String
  pub phone_valid : Bool
  pub email : String
  pub street_address : String
  pub city : String
  pub postal_code : String
  pub state_province : String
  pub volunteer_examiner : Bool
  pub requires_manual : Bool
  pub manual_reason : String

-- `DecisionPayload`
pub record DecisionPayload : Type 0 where
  pub base_type : String
  pub honorary : String
  pub coverage : String
  pub paid_through : String

-- HonoraryLifetime, HonoraryNone and CoverageNone
abbrev pub honorary_lifetime : String
honorary_lifetime = "lifetime"

abbrev pub honorary_none : String
honorary_none = "none"

abbrev pub coverage_none : String
coverage_none = "none"

-- `baseTypeFor`
unfoldable pub base_type_for : NormalizedRecord → DecisionPayload → String
base_type_for norm payload =
    if str_eq payload.base_type "" then norm.base_type else payload.base_type

-- `isLifetimeHonorary`
unfoldable pub is_lifetime_honorary : NormalizedRecord → DecisionPayload → Bool
is_lifetime_honorary norm payload =
    if str_eq payload.honorary honorary_lifetime
    then true
    else if str_eq payload.honorary honorary_none
    then false
    else str_eq norm.membership_type "Honorary" && str_eq norm.current_until_flag "lifetime_known"

-- `coverageDateFor`
unfoldable pub coverage_date_for : NormalizedRecord → DecisionPayload → Bool → String
coverage_date_for norm payload lifetime =
    if str_eq payload.coverage coverage_none
    then ""
    else if not (str_eq payload.paid_through "")
    then payload.paid_through
    else if lifetime
    then ""
    else if not (str_eq norm.current_until_flag "")
    then ""
    else norm.current_until

abbrev pub is_open_grant : HonoraryGrant → Bool
is_open_grant g = g.is_lifetime == 1 && (elim g.revoked_at [ none ↦ true | some t ↦ false ])

-- ListHonoraryGrantsByMembership
unfoldable pub list_honorary_grants : ℕ → Db → List HonoraryGrant
list_honorary_grants membership_id db =
    order_by (λ a b. not (text_ltb a.starts_on b.starts_on))
      (select (λ g. g.membership_id == membership_id) db.honorary_grants)

abbrev pub lifetime_grant : ℕ → ℕ → Instant → CreateHonoraryGrantParams
lifetime_grant membership_id actor now = record {
  membership_id = membership_id;
  starts_on = now.iso_date;
  ends_on = none;
  is_lifetime = 1;
  reason = "Lifetime honorary member, imported from Groups.io.";
  approved_by = actor;
  approved_at = now.iso_timestamp;
}

-- `ensureLifetimeGrant`; the date is the first ten characters of the time
unfoldable pub ensure_lifetime_grant : ℕ → ℕ → Instant → Tx (Unit {0})
ensure_lifetime_grant membership_id actor now = do
  existing ← gets (list_honorary_grants membership_id)
  if exists_by is_open_grant existing
      then pure tt
      else (create_honorary_grant (lifetime_grant membership_id actor now) >> pure tt)

abbrev is_import : ReasonKind → Bool
is_import reason_import = true
is_import _ = false

abbrev pub imported_for : ℕ → String → CoverageEvent → Bool
imported_for membership_id paid_through c =
    c.membership_id == membership_id
    && str_eq c.paid_through paid_through
    && is_import c.reason_kind

-- FindImportCoverageEvent
unfoldable pub find_import_coverage_event : ℕ → String → Db → Option CoverageEvent
find_import_coverage_event membership_id paid_through db = head? (
    order_by (λ a b. leb b.id a.id)
      (select (imported_for membership_id paid_through) db.coverage_events))

abbrev pub id_if : Option CoverageEvent → Option ℕ
id_if none = none
id_if (some c) = some c.id

abbrev pub import_event :
    ℕ → String → ℕ → ℕ → Instant → Option CoverageEvent → CreateCoverageEventParams
import_event membership_id paid_through run_id actor now current = record {
  membership_id = membership_id;
  paid_through = paid_through;
  reason_kind = reason_import;
  reason = null_string "Imported Current Until value from Groups.io.";
  payment_id = none;
  import_run_id = null_id run_id;
  supersedes_event_id = id_if current;
  source_note = none;
  decided_by = null_id actor;
  decided_at = now.iso_timestamp;
}

-- the case that the value was not imported before
unfoldable pub append_import : ℕ → String → ℕ → ℕ → Instant → Tx (Unit {0})
append_import membership_id paid_through run_id actor now = do
  current ← get_effective_coverage_event membership_id
  create_coverage_event (import_event membership_id paid_through run_id actor now current)
  pure tt

unfoldable pub unless_found : Option CoverageEvent → Tx (Unit {0}) → Tx (Unit {0})
unless_found none m = m
unless_found (some c) m = pure tt

-- `ensureImportCoverage`
unfoldable pub ensure_import_coverage : ℕ → String → ℕ → ℕ → Instant → Tx (Unit {0})
ensure_import_coverage membership_id paid_through run_id actor now = do
  found ← gets (find_import_coverage_event membership_id paid_through)
  unless_found found (append_import membership_id paid_through run_id actor now)

-- a date that is empty or unreadable is not recorded
unfoldable pub record_date : ℕ → String → ℕ → ℕ → Instant → Tx (Unit {0})
record_date membership_id date run_id actor now =
    if str_eq date "" || not (is_iso_date date)
    then pure tt
    else ensure_import_coverage membership_id date run_id actor now

-- a lifetime row is granted
unfoldable pub record_lifetime : Bool → ℕ → ℕ → Instant → Tx (Unit {0})
record_lifetime lifetime membership_id actor now =
    if lifetime then ensure_lifetime_grant membership_id actor now else pure tt

-- `applyDuesDecisions`
unfoldable pub apply_dues_decisions :
    ℕ → NormalizedRecord → DecisionPayload → ℕ → ℕ → Instant → Tx (Unit {0})
apply_dues_decisions membership_id norm payload run_id actor now =
    let lifetime = is_lifetime_honorary norm payload in
    record_lifetime lifetime membership_id actor now
    >> record_date membership_id (coverage_date_for norm payload lifetime) run_id actor now

abbrev is_closed : String → Bool
is_closed lifecycle =
    if str_eq lifecycle "rejected"
    then true
    else if str_eq lifecycle "resigned"
    then true
    else str_eq lifecycle "deceased"

-- the loop over the memberships of a person: the first that is not closed
abbrev open_membership : List Membership → Option Membership
open_membership [] = none
open_membership (m ∷ ms) =
    let rest = open_membership ms in if is_closed m.lifecycle then rest else some m

-- ListMembershipsByPerson
unfoldable pub list_memberships : ℕ → Db → List Membership
list_memberships person_id db =
    order_by (λ a b. not (text_ltb a.created_at b.created_at))
      (select (λ m. m.person_id == person_id) db.memberships)

unfoldable pub attach_membership : ℕ → String → ℕ → Instant → Option Membership → Tx ℕ
attach_membership person_id base_type actor now (some m) = pure m.id
attach_membership person_id base_type actor now none = if str_eq base_type "" then pure 0 else (do
  m ← create_membership person_id base_type
  approve_membership base_type (null_string now.iso_date) m.id m.version
  create_membership_approval (record {
    membership_id = m.id;
    decision = "approved";
    approved_type = null_string base_type;
    decided_by = actor;
    decided_at = now.iso_timestamp;
    reason = null_string "import from Groups.io";
  })
  pure m.id)

-- `membershipForPerson`: the membership to attach to, or 0 for none
unfoldable pub membership_for_person : ℕ → String → ℕ → Instant → Tx ℕ
membership_for_person person_id base_type actor now = do
  memberships ← gets (list_memberships person_id)
  attach_membership person_id base_type actor now (open_membership memberships)
