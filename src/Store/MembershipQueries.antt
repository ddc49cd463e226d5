-- ===== src/Store/MembershipQueries.antt =====
-- internal/db/sqlc/memberships.sql.go: memberships, the decisions on them and FCC verifications.
use bcars_portal.Base.{
  ℕ, ◌+◌, String, Bool, true, ◌&&◌, Option, none, some, List, [], ◌∷◌, ◌++◌, ◌==◌, exists_by,
  update_where, if◌then◌else◌,
}
use bcars_portal.Outcome.{ok, err, foreign_key_failed}
use bcars_portal.Store.Tx.{Db, Tx, next_id, update_row}
use bcars_portal.Store.Rows.{Membership}
use bcars_portal.Store.DirectoryRows.{MembershipApproval, FccVerification}

abbrev membership_exists : ℕ → Db → Bool
membership_exists id db = exists_by (λ m. m.id == id) db.memberships

abbrev pub new_membership : Db → ℕ → String → Membership
new_membership db person_id base_type = record {
  id = next_id (λ m. m.id) db.memberships;
  person_id = person_id;
  base_type = base_type;
  lifecycle = "pending";
  joined_on = none;
  ended_on = none;
  created_at = db.clock.iso_timestamp;
  updated_at = db.clock.iso_timestamp;
  version = 1;
}

-- CreateMembership
unfoldable pub create_membership : ℕ → String → Tx Membership
create_membership person_id base_type db =
    if exists_by (λ p. p.id == person_id) db.persons
    then ok (
      new_membership db person_id base_type,
      record db { memberships = db.memberships ++ new_membership db person_id base_type ∷ [] },
    )
    else err foreign_key_failed

abbrev pub membership_at : ℕ → ℕ → Membership → Bool
membership_at id version m = m.id == id && m.version == version

abbrev pub set_memberships : List Membership → Db → Db
set_memberships rows db = record db { memberships = rows }

abbrev pub approved_membership : Db → String → Option String → Membership → Membership
approved_membership db base_type joined_on m = record m {
  lifecycle = "approved";
  base_type = base_type;
  joined_on = joined_on;
  version = m.version + 1;
  updated_at = db.clock.iso_timestamp;
}

-- ApproveMembership
unfoldable pub approve_membership : String → Option String → ℕ → ℕ → Tx Membership
unfolding update_row
approve_membership base_type joined_on id version db =
    update_row (λ d. d.memberships) set_memberships (λ m. true)
      (approved_membership db base_type joined_on) (membership_at id version) db

abbrev pub rejected_membership : Db → Membership → Membership
rejected_membership db m = record m {
  lifecycle = "rejected";
  version = m.version + 1;
  updated_at = db.clock.iso_timestamp;
}

-- RejectMembership
unfoldable pub reject_membership : ℕ → ℕ → Tx Membership
unfolding update_row
reject_membership id version db =
    update_row (λ d. d.memberships) set_memberships (λ m. true) (rejected_membership db)
      (membership_at id version) db

-- TransitionLifecycle
unfoldable pub transition_lifecycle : String → Option String → ℕ → ℕ → Tx Membership
unfolding update_row
transition_lifecycle lifecycle ended_on id version db =
    update_row (λ d. d.memberships) set_memberships (λ m. true)
      (λ m. record m {
        lifecycle = lifecycle;
        ended_on = ended_on;
        version = m.version + 1;
        updated_at = db.clock.iso_timestamp;
      })
      (membership_at id version) db

pub record CreateMembershipApprovalParams : Type 0 where
  pub membership_id : ℕ
  pub decision : String
  pub approved_type : Option String
  pub decided_by : ℕ
  pub decided_at : String
  pub reason : Option String

abbrev pub new_approval : Db → CreateMembershipApprovalParams → MembershipApproval
new_approval db arg = record {
  id = next_id (λ a. a.id) db.membership_approvals;
  membership_id = arg.membership_id;
  decision = arg.decision;
  approved_type = arg.approved_type;
  decided_by = arg.decided_by;
  decided_at = arg.decided_at;
  reason = arg.reason;
  created_at = db.clock.iso_timestamp;
}

-- CreateMembershipApproval
unfoldable pub create_membership_approval : CreateMembershipApprovalParams → Tx MembershipApproval
create_membership_approval arg db =
    if membership_exists arg.membership_id db
    then ok (
      new_approval db arg,
      record db { membership_approvals = db.membership_approvals ++ new_approval db arg ∷ [] },
    )
    else err foreign_key_failed

pub record CreateFccVerificationParams : Type 0 where
  pub membership_id : ℕ
  pub call_sign : String
  pub license_class : Option String
  pub verification_source : String
  pub verified_by : ℕ
  pub verified_at : String

abbrev pub new_verification : Db → CreateFccVerificationParams → FccVerification
new_verification db arg = record {
  id = next_id (λ v. v.id) db.fcc_verifications;
  membership_id = arg.membership_id;
  call_sign = arg.call_sign;
  license_class = arg.license_class;
  verification_source = arg.verification_source;
  verified_by = arg.verified_by;
  verified_at = arg.verified_at;
  expires_at = none;
  revoked_at = none;
  notes = none;
  created_at = db.clock.iso_timestamp;
}

-- CreateFCCVerification
unfoldable pub create_fcc_verification : CreateFccVerificationParams → Tx FccVerification
create_fcc_verification arg db =
    if membership_exists arg.membership_id db
    then ok (
      new_verification db arg,
      record db { fcc_verifications = db.fcc_verifications ++ new_verification db arg ∷ [] },
    )
    else err foreign_key_failed

-- RevokeFCCVerification
unfoldable pub revoke_fcc_verification : Option String → ℕ → Tx (Unit {0})
revoke_fcc_verification remark id db = ok (
  tt,
  record db {
    fcc_verifications =
        update_where (λ v. v.id == id)
          (λ v. record v { revoked_at = some db.clock.iso_timestamp; notes = remark })
          db.fcc_verifications;
  },
)
