-- ===== src/Members/Standing.antt =====
-- internal/domain/members/service.go: persons, and the standing of their memberships. No transaction
-- is opened: each statement commits by itself.
use bcars_portal.Base.{ℕ, String, Bool, ◌||◌, Option, none, str_eq, if◌then◌else◌}
use bcars_portal.GoText.Text.{trim_space}
use bcars_portal.Authz.{Principal, authorize, user_id_of}
use bcars_portal.Idem.{Env}
use bcars_portal.Store.Tx.{Action, lift, gets, or_stale, null_string}
use bcars_portal.Store.Autocommit.{run, finish, ◌>>=◌, ◌>>◌}
use bcars_portal.Store.Rows.{Membership}
use bcars_portal.Store.DirectoryRows.{Person, FccVerification}
use bcars_portal.Store.DirectoryQueries.{
  create_person, get_person, deactivate_person, reactivate_person,
}
use bcars_portal.Store.MembershipQueries.{
  create_membership, approve_membership, reject_membership, transition_lifecycle,
  create_membership_approval, create_fcc_verification, revoke_fcc_verification,
}
use bcars_portal.Members.{bool_to_int}

-- `CreatePersonParams`
pub record PersonAddition : Type 0 where
  pub display_name : String
  pub sort_name : String
  pub call_sign : String
  pub base_type : String
  pub license_class : String
  pub volunteer_examiner : Bool

-- `CreatePerson`
unfoldable pub add_person : Env → Option Principal → PersonAddition → Action Person
add_person env p params = do
  run (lift (authorize p "member.create"))
  person ← run (
      create_person (record {
        display_name = params.display_name;
        sort_name = params.sort_name;
        call_sign = null_string params.call_sign;
        license_class = null_string (env.to_lower (trim_space params.license_class));
        volunteer_examiner = bool_to_int params.volunteer_examiner;
      }))
  if str_eq params.base_type ""
      then finish tt
      else (run (create_membership person.id params.base_type) >> finish tt)
  finish person

-- `DeactivatePerson`
unfoldable pub deactivate : Option Principal → ℕ → ℕ → Action (Unit {0})
deactivate p id version = do
  run (lift (authorize p "member.deactivate"))
  run (get_person id)
  run (or_stale (deactivate_person id version))
  finish tt

-- `ReactivatePerson`
unfoldable pub reactivate : Option Principal → ℕ → ℕ → Action (Unit {0})
reactivate p id version = do
  run (lift (authorize p "member.deactivate"))
  run (get_person id)
  run (or_stale (reactivate_person id version))
  finish tt

-- `ApproveMembership`
unfoldable pub approve : Option Principal → ℕ → ℕ → String → String → Action Membership
approve p id version base_type reason = do
  run (lift (authorize p "membership.approve"))
  now ← run (gets (λ db. db.clock))
  m ← run (or_stale (approve_membership base_type (null_string now.iso_date) id version))
  run (
      create_membership_approval (record {
        membership_id = id;
        decision = "approved";
        approved_type = null_string base_type;
        decided_by = user_id_of p;
        decided_at = now.iso_timestamp;
        reason = null_string reason;
      }))
  finish m

-- `RejectMembership`
unfoldable pub reject : Option Principal → ℕ → ℕ → String → Action Membership
reject p id version reason = do
  run (lift (authorize p "membership.approve"))
  now ← run (gets (λ db. db.clock))
  m ← run (or_stale (reject_membership id version))
  run (
      create_membership_approval (record {
        membership_id = id;
        decision = "rejected";
        approved_type = none;
        decided_by = user_id_of p;
        decided_at = now.iso_timestamp;
        reason = null_string reason;
      }))
  finish m

abbrev is_ending : String → Bool
is_ending lifecycle =
    str_eq lifecycle "inactive" || str_eq lifecycle "resigned" || str_eq lifecycle "deceased"

-- `TransitionLifecycle`
unfoldable pub transition : Option Principal → ℕ → ℕ → String → Action Membership
transition p id version lifecycle = do
  run (lift (authorize p "membership.lifecycle"))
  now ← run (gets (λ db. db.clock))
  run (
      or_stale (
        transition_lifecycle lifecycle
          (if is_ending lifecycle then null_string now.iso_date else none) id version))

-- `VerifyFCC`
unfoldable pub verify_fcc : Option Principal → ℕ → String → String → String → Action FccVerification
verify_fcc p membership_id call_sign license_class source = do
  run (lift (authorize p "fcc.verify"))
  now ← run (gets (λ db. db.clock))
  run (
      create_fcc_verification (record {
        membership_id = membership_id;
        call_sign = call_sign;
        license_class = null_string license_class;
        verification_source = source;
        verified_by = user_id_of p;
        verified_at = now.iso_timestamp;
      }))

-- `RevokeFCCVerification`
unfoldable pub revoke_fcc : Option Principal → ℕ → String → Action (Unit {0})
revoke_fcc p id notes = do
  run (lift (authorize p "fcc.verify"))
  run (revoke_fcc_verification (null_string notes) id)
