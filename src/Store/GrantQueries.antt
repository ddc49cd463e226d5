-- ===== src/Store/GrantQueries.antt =====
-- internal/db/sqlc/memberships.sql.go: honorary grants.
use bcars_portal.Base.{
  ℕ, ◌+◌, String, Bool, true, false, not, ◌&&◌, ◌||◌, Option, none, some, List, [], ◌∷◌, ◌++◌, ◌==◌,
  find_by, exists_by, if◌then◌else◌,
}
use bcars_portal.Outcome.{ok, err, foreign_key_failed, check_failed}
use bcars_portal.Store.Tx.{Db, Tx, one, next_id, update_row}
use bcars_portal.Store.DirectoryRows.{HonoraryGrant}

-- the CHECK constraint of honorary_grants
abbrev pub grant_checks : HonoraryGrant → Bool
grant_checks g =
    (g.is_lifetime == 1 && (elim g.ends_on [ none ↦ true | some d ↦ false ])) || g.is_lifetime == 0

pub record CreateHonoraryGrantParams : Type 0 where
  pub membership_id : ℕ
  pub starts_on : String
  pub ends_on : Option String
  pub is_lifetime : ℕ
  pub reason : String
  pub approved_by : ℕ
  pub approved_at : String

abbrev pub new_grant : Db → CreateHonoraryGrantParams → HonoraryGrant
new_grant db arg = record {
  id = next_id (λ g. g.id) db.honorary_grants;
  membership_id = arg.membership_id;
  starts_on = arg.starts_on;
  ends_on = arg.ends_on;
  is_lifetime = arg.is_lifetime;
  reason = arg.reason;
  approved_by = arg.approved_by;
  approved_at = arg.approved_at;
  revoked_at = none;
  revoked_by = none;
  revoke_reason = none;
  created_at = db.clock.iso_timestamp;
  updated_at = db.clock.iso_timestamp;
  version = 1;
}

-- CreateHonoraryGrant
unfoldable pub create_honorary_grant : CreateHonoraryGrantParams → Tx HonoraryGrant
create_honorary_grant arg db =
    if not (grant_checks (new_grant db arg))
    then err check_failed
    else if exists_by (λ m. m.id == arg.membership_id) db.memberships
    then ok (
      new_grant db arg,
      record db { honorary_grants = db.honorary_grants ++ new_grant db arg ∷ [] },
    )
    else err foreign_key_failed

-- GetHonoraryGrant
unfoldable pub get_honorary_grant : ℕ → Tx HonoraryGrant
get_honorary_grant id = one (λ db. find_by (λ g. g.id == id) db.honorary_grants)

abbrev pub grant_at : ℕ → ℕ → HonoraryGrant → Bool
grant_at id version g = g.id == id && g.version == version

abbrev pub set_grants : List HonoraryGrant → Db → Db
set_grants rows db = record db { honorary_grants = rows }

-- UpdateHonoraryGrant
unfoldable pub update_honorary_grant : String → Option String → ℕ → ℕ → ℕ → Tx HonoraryGrant
unfolding update_row
update_honorary_grant reason ends_on is_lifetime id version db =
    update_row (λ d. d.honorary_grants) set_grants grant_checks
      (λ g. record g {
        reason = reason;
        ends_on = ends_on;
        is_lifetime = is_lifetime;
        version = g.version + 1;
        updated_at = db.clock.iso_timestamp;
      })
      (grant_at id version) db

-- ExpireHonoraryGrant
unfoldable pub expire_honorary_grant : ℕ → ℕ → Tx HonoraryGrant
unfolding update_row
expire_honorary_grant id version db =
    update_row (λ d. d.honorary_grants) set_grants grant_checks
      (λ g. record g {
        ends_on = some db.clock.iso_date;
        is_lifetime = 0;
        version = g.version + 1;
        updated_at = db.clock.iso_timestamp;
      })
      (grant_at id version) db

-- RevokeHonoraryGrant
unfoldable pub revoke_honorary_grant : Option ℕ → Option String → ℕ → ℕ → Tx HonoraryGrant
unfolding update_row
revoke_honorary_grant revoked_by revoke_reason id version db =
    update_row (λ d. d.honorary_grants) set_grants grant_checks
      (λ g. record g {
        revoked_at = some db.clock.iso_timestamp;
        revoked_by = revoked_by;
        revoke_reason = revoke_reason;
        version = g.version + 1;
        updated_at = db.clock.iso_timestamp;
      })
      (grant_at id version) db
