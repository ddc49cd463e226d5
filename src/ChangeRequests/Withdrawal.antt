-- ===== src/ChangeRequests/Withdrawal.antt =====
-- What a withdrawal needs and does.
use bcars_portal.Base.{
  ℕ, ◌+◌, Option, none, List, [], ◌∷◌, true, false, not, ◌==◌, ◌≡◌, refl, sym, ◌∙◌, arith, subst,
  update_where, All, Bool-cases, inl, inr,
}
use bcars_portal.Outcome.{ok, guard, not_found, not_yours, already_resolved}
use bcars_portal.Authz.{Principal, user_id_of}
use bcars_portal.Store.DirectoryRows.{ChangeRequest, status_withdrawn}
use bcars_portal.Store.Tx.{Db, Instant, or_missing, or_stale, lift, in_tx, after, null_string}
use bcars_portal.Store.Follows.{Follows, IsHistory, follows_rules, >>=-eq-ok}
use bcars_portal.Store.Updates.{update_row-eq-ok}
use bcars_portal.Store.Inversions.{
  lift-eq-ok, guard-eq-ok, or_missing-eq-ok, or_stale-eq-ok, settle-eq-ok,
}
use bcars_portal.Store.ChangeQueries.{
  get_change_request, set_change_request_status, set_requests, request_checks, request_at,
  is_terminal, is_item_pending,
}
use bcars_portal.Store.ItemQueries.{list_change_request_items}
use bcars_portal.ChangeRequests.Types.{Item, Request, load_request}
use bcars_portal.ChangeRequests.Status.{require_user, none_decided, withdraw_tx, withdraw}

-- a transaction that leaves the tables as they are
abbrev Same : Db → Db → Type 0
Same a b = a ≡ b

Same-IsHistory : IsHistory Same
Same-IsHistory = record { stays = λ db. refl; chains = λ a b c p q. p ∙ q }

load_request-Same : (id : ℕ) → Follows Same (load_request id)
unfolding load_request get_change_request list_change_request_items
load_request-Same id = search (follows_rules, Same-IsHistory)

none_decided-All :
    (items : List Item)
    → none_decided items ≡ ok tt
    → All (λ i. is_item_pending i.status ≡ true) items
unfolding none_decided
none_decided-All [] e = tt
none_decided-All (i ∷ items) e = elim (Bool-cases (is_item_pending i.status)) [
  | inl pending ↦ (pending, none_decided-All items (rw pending at e))
  | inr decided ↦ cc (rw decided at e)
]

-- the row of a withdrawn request
abbrev pub withdrawn : Instant → Db → ChangeRequest → ChangeRequest
withdrawn now db r = record r {
  status = status_withdrawn;
  resolved_at = none;
  withdrawn_at = null_string now.iso_timestamp;
  updated_at = db.clock.iso_timestamp;
  version = r.version + 1;
}

-- the request that was withdrawn, as it stood, and the tables afterwards
pub record Withdraws (actor id : ℕ) (now : Instant) (db db' : Db) : Type 0 where
  pub current : Request
  pub loaded : load_request id db ≡ ok (current, db)
  pub own : (current.requester_user_id == actor) ≡ true
  pub running : is_terminal current.status ≡ false
  pub undecided : All (λ i. is_item_pending i.status ≡ true) current.items
  pub state : db' ≡ record db {
    change_requests =
        update_where (request_at id current.version) (withdrawn now db) db.change_requests;
  }

set_status-state :
    (now : Instant) (id version : ℕ) (db db' : Db) (r : ChangeRequest)
    → set_change_request_status status_withdrawn none (null_string now.iso_timestamp) id version db
      ≡ ok (r, db')
    → db' ≡ record db {
      change_requests = update_where (request_at id version) (withdrawn now db) db.change_requests;
    }
unfolding set_change_request_status
set_status-state now id version db db' r e =
    (update_row-eq-ok (λ d. d.change_requests) set_requests request_checks (withdrawn now db)
      (request_at id version) db db' r e).0

withdraw_tx-Withdraws :
    (actor id : ℕ) (now : Instant) (db db' : Db) (out : Request)
    → withdraw_tx actor id now db ≡ ok (out, db')
    → Withdraws actor id now db db'
unfolding withdraw_tx
withdraw_tx-Withdraws actor id now db db' out e =
    let (current, s1, e1, k1) = >>=-eq-ok (or_missing not_found (load_request id)) _ db db' out e in
    let loaded = or_missing-eq-ok not_found (load_request id) db s1 current e1 in
    let is1 : db ≡ s1 = (load_request-Same id).at db s1 current loaded in
    let (u2, s2, e2, k2) =
      >>=-eq-ok (lift (guard (current.requester_user_id == actor) not_yours)) _ s1 db' out k1 in
    let (own, is2) = guard-eq-ok (current.requester_user_id == actor) not_yours u2 s1 s2 e2 in
    let (u3, s3, e3, k3) =
      >>=-eq-ok (lift (guard (not (is_terminal current.status)) already_resolved)) _ s2 db' out
        k2 in
    let (running, is3) =
      guard-eq-ok (not (is_terminal current.status)) already_resolved u3 s2 s3 e3 in
    let (u4, s4, e4, k4) = >>=-eq-ok (lift (none_decided current.items)) _ s3 db' out k3 in
    let (undecided, is4) = lift-eq-ok (none_decided current.items) u4 s3 s4 e4 in
    let set =
      set_change_request_status status_withdrawn none (null_string now.iso_timestamp) id
        current.version in
    let (r, s5, e5, k5) = >>=-eq-ok (or_stale set) _ s4 db' out k4 in
    let state = set_status-state now id current.version s4 s5 r (or_stale-eq-ok set s4 s5 r e5) in
    let is6 : s5 ≡ db' = (load_request-Same id).at s5 db' out k5 in
    let here : s4 ≡ db = sym (is1 ∙ is2 ∙ is3 ∙ is4) in
    record {
      current = current;
      loaded = subst (λ d. load_request id db ≡ ok (current, d)) (sym is1) loaded;
      own = own;
      running = ground (arith, running);
      undecided = none_decided-All current.items undecided;
      state =
          sym is6
          ∙ subst
              (λ d. s5 ≡ record d {
                change_requests =
                    update_where (request_at id current.version) (withdrawn now d)
                      d.change_requests;
              })
              here state;
    }

-- A withdrawal is the requester's, and only before any decision: where Withdraw succeeds, the request
-- was the caller's, neither resolved nor withdrawn, and every item of it was pending; its row is made
-- withdrawn at the next version, and nothing else changes.
pub withdraw-Withdraws :
    (p : Option Principal) (id : ℕ) (now : Instant) (db db' : Db) (out : Request)
    → withdraw p id now db ≡ (ok out, db')
    → Withdraws (user_id_of p) id now db db'
unfolding withdraw after in_tx require_user
withdraw-Withdraws p id now db db' out e = elim (Bool-cases (not (user_id_of p == 0))) [
  | inl named ↦
      withdraw_tx-Withdraws (user_id_of p) id now db db' out
        (settle-eq-ok (withdraw_tx (user_id_of p) id now db) db db' out (rw named at e))
  | inr anonymous ↦ cc (rw anonymous at e)
]
