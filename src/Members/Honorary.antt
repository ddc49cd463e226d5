-- ===== src/Members/Honorary.antt =====
-- internal/domain/members/service.go: honorary grants. No transaction is opened: each statement
-- commits by itself.
use bcars_portal.Base.{ℕ, String, Bool, Option, some, str_eq, if◌then◌else◌}
use bcars_portal.Authz.{Principal, authorize, user_id_of}
use bcars_portal.Store.Tx.{Action, lift, gets, or_stale, null_string}
use bcars_portal.Store.Autocommit.{run, finish, ◌>>=◌, ◌>>◌}
use bcars_portal.Store.DirectoryRows.{HonoraryGrant}
use bcars_portal.Store.GrantQueries.{
  create_honorary_grant, get_honorary_grant, update_honorary_grant, expire_honorary_grant,
  revoke_honorary_grant,
}
use bcars_portal.Members.{bool_to_int}

-- `CreateHonoraryGrantParams`
pub record GrantAddition : Type 0 where
  pub membership_id : ℕ
  pub starts_on : String
  pub ends_on : String
  pub is_lifetime : Bool
  pub reason : String

-- `CreateHonoraryGrant`
unfoldable pub add_grant : Option Principal → GrantAddition → Action HonoraryGrant
add_grant p params = do
  run (lift (authorize p "honorary.grant"))
  now ← run (gets (λ db. db.clock))
  run (
      create_honorary_grant (record {
        membership_id = params.membership_id;
        starts_on = params.starts_on;
        ends_on = null_string params.ends_on;
        is_lifetime = bool_to_int params.is_lifetime;
        reason = params.reason;
        approved_by = user_id_of p;
        approved_at = now.iso_timestamp;
      }))

-- `UpdateHonoraryGrantParams`
pub record GrantChange : Type 0 where
  pub grant_id : ℕ
  pub version : ℕ
  pub reason : String
  pub ends_on : String

-- `UpdateHonoraryGrant`
unfoldable pub change_grant : Option Principal → GrantChange → Action HonoraryGrant
change_grant p params = do
  run (lift (authorize p "honorary.grant"))
  existing ← run (get_honorary_grant params.grant_id)
  run (
      or_stale (
        update_honorary_grant (if str_eq params.reason "" then existing.reason else params.reason)
          (if str_eq params.ends_on "" then existing.ends_on else null_string params.ends_on)
          (if str_eq params.ends_on "" then existing.is_lifetime else 0) params.grant_id
          params.version))

-- `ExpireHonoraryGrant`
unfoldable pub expire_grant : Option Principal → ℕ → ℕ → Action (Unit {0})
expire_grant p id version = do
  run (lift (authorize p "honorary.grant"))
  run (get_honorary_grant id)
  run (or_stale (expire_honorary_grant id version))
  finish tt

-- `RevokeHonoraryGrant`
unfoldable pub revoke_grant : Option Principal → ℕ → ℕ → String → Action (Unit {0})
revoke_grant p id version reason = do
  run (lift (authorize p "honorary.grant"))
  run (get_honorary_grant id)
  run (or_stale (revoke_honorary_grant (some (user_id_of p)) (null_string reason) id version))
  finish tt
