-- ===== src/Members/Approval.antt =====
-- What the approval of a membership does.
use bcars_portal.Base.{
  ℕ, ◌+◌, String, ◌≡◌, refl, ◌∙◌, Option, some, List, [], ◌∷◌, ◌++◌, true, ◌==◌, arith, find_by,
  exists_by, update_where,
}
use bcars_portal.Outcome.{ok}
use bcars_portal.Authz.{Principal, authorize, user_id_of}
use bcars_portal.Store.Rows.{Membership}
use bcars_portal.Store.DirectoryRows.{MembershipApproval}
use bcars_portal.Store.Tx.{Db, Instant, next_id, lift, gets, or_stale, null_string}
use bcars_portal.Store.Autocommit.{run, finish, >>=-ok, run-ok, run-lift, run-clock}
use bcars_portal.Store.MembershipQueries.{
  approve_membership, membership_at, approved_membership, create_membership_approval, new_approval,
  CreateMembershipApprovalParams,
}
use bcars_portal.Members.Standing.{approve}

-- the rows of an id stay rows of that id
exists_by-update_where :
    (id version : ℕ) (f : Membership → Membership) (ms : List Membership) (m : Membership)
    → ((x : Membership) → (f x).id ≡ x.id)
    → find_by (membership_at id version) ms ≡ some m
    → exists_by (λ x. x.id == id) (update_where (membership_at id version) f ms) ≡ true
unfolding find_by exists_by update_where
exists_by-update_where id version f [] m keeps e = cc e
exists_by-update_where id version f (x ∷ ms) m keeps e =
    ground (arith, keeps x, exists_by-update_where id version f ms m keeps)

-- the row of the decision
abbrev approval_params :
    Option Principal → ℕ → String → String → Db → CreateMembershipApprovalParams
approval_params p id base_type reason db = record {
  membership_id = id;
  decision = "approved";
  approved_type = null_string base_type;
  decided_by = user_id_of p;
  decided_at = db.clock.iso_timestamp;
  reason = null_string reason;
}

-- the tables with the membership approved, and with the decision recorded
abbrev with_approved : ℕ → ℕ → String → Db → Db
with_approved id version base_type db = record db {
  memberships =
      update_where (membership_at id version)
        (approved_membership db base_type (null_string db.clock.iso_date)) db.memberships;
}

abbrev with_decision : Option Principal → ℕ → ℕ → String → String → Db → Db
with_decision p id version base_type reason db = record (with_approved id version base_type db) {
  membership_approvals =
      db.membership_approvals ++ new_approval db (approval_params p id base_type reason db) ∷ [];
}

module _ (p : Option Principal) (id version : ℕ) (base_type reason : String) (db : Db)
    (m : Membership) (found : find_by (membership_at id version) db.memberships ≡ some m) where
  update-ok :
      run (or_stale (approve_membership base_type (null_string db.clock.iso_date) id version)) db
      ≡ (
        ok (approved_membership db base_type (null_string db.clock.iso_date) m),
        with_approved id version base_type db,
      )
  unfolding approve_membership or_stale
  update-ok =
      run-ok (or_stale (approve_membership base_type (null_string db.clock.iso_date) id version)) db
        (with_approved id version base_type db)
        (approved_membership db base_type (null_string db.clock.iso_date) m) (ground (arith, found))

  record-ok :
      run
        (create_membership_approval (approval_params p id base_type reason db))
        (with_approved id version base_type db)
      ≡ (
        ok (new_approval db (approval_params p id base_type reason db)),
        with_decision p id version base_type reason db,
      )
  unfolding create_membership_approval
  record-ok =
      run-ok (create_membership_approval (approval_params p id base_type reason db))
        (with_approved id version base_type db) (with_decision p id version base_type reason db)
        (new_approval db (approval_params p id base_type reason db))
        (rw
          (exists_by-update_where id version
            (approved_membership db base_type (null_string db.clock.iso_date)) db.memberships m
            (λ x. refl) found)
          refl)

-- the row of a membership once it is approved
abbrev pub approved_row : String → Instant → Membership → Membership
approved_row base_type today m = record {
  id = m.id;
  person_id = m.person_id;
  base_type = base_type;
  lifecycle = "approved";
  joined_on = null_string today.iso_date;
  ended_on = m.ended_on;
  created_at = m.created_at;
  updated_at = today.iso_timestamp;
  version = m.version + 1;
}

-- the decision that is recorded with it
abbrev pub decision_row : Option Principal → ℕ → String → String → Db → MembershipApproval
decision_row p id base_type reason db = record {
  id = next_id (λ a. a.id) db.membership_approvals;
  membership_id = id;
  decision = "approved";
  approved_type = null_string base_type;
  decided_by = user_id_of p;
  decided_at = db.clock.iso_timestamp;
  reason = null_string reason;
  created_at = db.clock.iso_timestamp;
}

-- the tables with the membership approved and the decision at the end of the decisions
abbrev pub approved_tables : Option Principal → ℕ → ℕ → String → String → Db → Db
approved_tables p id version base_type reason db = record db {
  memberships =
      update_where (membership_at id version) (approved_row base_type db.clock) db.memberships;
  membership_approvals = db.membership_approvals ++ decision_row p id base_type reason db ∷ [];
}

-- A membership is approved whatever its lifecycle: where the caller may approve memberships and some
-- membership has the id at the version, ApproveMembership answers with that row made approved, of
-- the decided type, joined today, at the next version and with its end date as it was, changes no
-- other table but for one decision that it appends, which names the membership, the type, the caller,
-- the time and the reason.
pub approve-any :
    (p : Option Principal) (id version : ℕ) (base_type reason : String) (db : Db) (m : Membership)
    → authorize p "membership.approve" ≡ ok tt
    → find_by (membership_at id version) db.memberships ≡ some m
    → approve p id version base_type reason db
      ≡ (ok (approved_row base_type db.clock m), approved_tables p id version base_type reason db)
unfolding approve finish
approve-any p id version base_type reason db m allowed found =
    >>=-ok (run (lift (authorize p "membership.approve"))) _ db db tt
      (run-lift (authorize p "membership.approve") db allowed)
    ∙ >>=-ok (run (gets (λ d. d.clock))) _ db db db.clock (run-clock db)
    ∙ >>=-ok
        (run (or_stale (approve_membership base_type (null_string db.clock.iso_date) id version))) _
        db (with_approved id version base_type db)
        (approved_membership db base_type (null_string db.clock.iso_date) m)
        (update-ok p id version base_type reason db m found)
    ∙ >>=-ok (run (create_membership_approval (approval_params p id base_type reason db))) _
        (with_approved id version base_type db) (with_decision p id version base_type reason db)
        (new_approval db (approval_params p id base_type reason db))
        (record-ok p id version base_type reason db m found)
