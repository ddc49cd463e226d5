-- ===== src/ChangeRequests/Status.antt =====
-- internal/domain/changerequests/service.go: reading, triage, resolution and withdrawal.
use bcars_portal.Base.{ℕ, String, not, ◌&&◌, Option, none, List, [], ◌∷◌, ◌==◌, if◌then◌else◌}
use bcars_portal.GoText.Text.{trim_space}
use bcars_portal.Outcome.{
  Result, ok, err, guard, not_found, already_resolved, not_yours, pending_items, decided_items,
}
use bcars_portal.Authz.{Principal, user_id_of}
use bcars_portal.Idem.{null_id}
use bcars_portal.Store.DirectoryRows.{status_withdrawn}
use bcars_portal.Store.Tx.{
  Tx, Action, Instant, pure, lift, after, in_tx, ◌>>=◌, ◌>>◌, or_missing, or_stale, null_string,
}
use bcars_portal.Store.ChangeQueries.{
  get_change_request, set_change_request_target, set_change_request_status, resolve_change_request,
  is_terminal, is_item_pending,
}
use bcars_portal.ChangeRequests.Policy.{can_apply}
use bcars_portal.ChangeRequests.Types.{Item, Request, load_request}
use bcars_portal.ChangeRequests.Intake.{require_person}

-- `Get`
unfoldable pub get_request : ℕ → Action Request
get_request id = in_tx (or_missing not_found (load_request id))

-- `TriageParams`
pub record TriageParams : Type 0 where
  pub target_person_id : ℕ
  pub expected_version : ℕ

-- the transaction of `Triage`
unfoldable pub triage_tx : ℕ → ℕ → TriageParams → Instant → Tx Request
triage_tx actor id params now = do
  current ← or_missing not_found (get_change_request id)
  lift (guard (not (is_terminal current.status)) already_resolved)
  require_person params.target_person_id
  or_stale (
      set_change_request_target (null_id params.target_person_id) (null_id actor)
        (null_string now.iso_timestamp) id params.expected_version)
  load_request id

-- `Triage`
unfoldable pub triage : Option Principal → ℕ → TriageParams → Instant → Action Request
triage p id params now = in_tx (triage_tx (user_id_of p) id params now)

-- `if p == nil || p.UserID == 0 { return ErrNotYours }`
unfoldable pub require_user : Option Principal → Result (Unit {0})
require_user p = guard (not (user_id_of p == 0)) not_yours

-- `GetForRequester`
unfoldable pub get_for_requester : Option Principal → ℕ → Action Request
get_for_requester p id = after (require_user p) (
    in_tx (do
      r ← or_missing not_found (load_request id)
      lift (guard (r.requester_user_id == user_id_of p) not_yours)
      pure r))

-- `ResolveParams`
pub record ResolveParams : Type 0 where
  pub note : String
  pub expected_version : ℕ

-- the loop of `Resolve` over the items: nothing is left that the loop sees as appliable
unfoldable pub nothing_to_apply : List Item → Result (Unit {0})
nothing_to_apply [] = ok tt
nothing_to_apply (i ∷ items) =
    if is_item_pending i.status && can_apply i.operation && not (i.target_id == 0)
    then err pending_items
    else nothing_to_apply items

-- the transaction of `Resolve`
unfoldable pub resolve_tx : ℕ → ℕ → ResolveParams → Instant → Tx Request
resolve_tx actor id params now = do
  current ← or_missing not_found (load_request id)
  lift (guard (not (is_terminal current.status)) already_resolved)
  lift (nothing_to_apply current.items)
  or_stale (
      resolve_change_request (null_string now.iso_timestamp) (null_id actor)
        (null_string (trim_space params.note)) id
        (if params.expected_version == 0 then current.version else params.expected_version))
  load_request id

-- `Resolve`
unfoldable pub resolve : Option Principal → ℕ → ResolveParams → Instant → Action Request
resolve p id params now = in_tx (resolve_tx (user_id_of p) id params now)

-- the loop of `Withdraw` over the items
unfoldable pub none_decided : List Item → Result (Unit {0})
none_decided [] = ok tt
none_decided (i ∷ items) =
    if is_item_pending i.status then none_decided items else err decided_items

-- the transaction of `Withdraw`
unfoldable pub withdraw_tx : ℕ → ℕ → Instant → Tx Request
withdraw_tx actor id now = do
  current ← or_missing not_found (load_request id)
  lift (guard (current.requester_user_id == actor) not_yours)
  lift (guard (not (is_terminal current.status)) already_resolved)
  lift (none_decided current.items)
  or_stale (
      set_change_request_status status_withdrawn none (null_string now.iso_timestamp) id
        current.version)
  load_request id

-- `Withdraw`
unfoldable pub withdraw : Option Principal → ℕ → Instant → Action Request
withdraw p id now = after (require_user p) (in_tx (withdraw_tx (user_id_of p) id now))
