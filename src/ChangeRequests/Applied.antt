-- ===== src/ChangeRequests/Applied.antt =====
-- An item is approved only together with its application.
use bcars_portal.Base.{
  ℕ, Option, some, List, [], ◌∷◌, ◌++◌, Bool, true, false, not, ◌&&◌, ◌==◌, ◌≡◌, refl, arith, subst,
  update_where, Bool-cases, inl, inr, All,
}
use bcars_portal.Base.ListLaws.{find_by-true}
use bcars_portal.Outcome.{ok, item_decided}
use bcars_portal.Authz.{Principal, user_id_of}
use bcars_portal.Idem.{Env, null_id}
use bcars_portal.Store.DirectoryRows.{
  ChangeRequest, ChangeRequestItem, ItemStatus, item_pending, item_approved, item_rejected,
  item_needs_verification,
}
use bcars_portal.Store.Tx.{Db, Tx, Instant, or_missing, lift, ◌>>=◌, ◌>>◌, pure, null_string}
use bcars_portal.Store.Inversions.{lift-eq-ok, or_missing-eq-ok, same_state}
use bcars_portal.Store.Follows.{Follows, IsHistory, >>=-eq-ok, Follows-coarser}
use bcars_portal.Store.ChangeQueries.{is_item_approved, null}
use bcars_portal.Store.ItemQueries.{
  item_open_at, CreateChangeRequestItemParams, create_change_request_item, new_item,
  DecideChangeRequestItemParams, decide_change_request_item, decided_item,
  MarkChangeRequestItemAppliedParams, mark_change_request_item_applied, marked_item, item_to_mark,
  count_pending_change_request_items,
}
use bcars_portal.Store.ItemQueries.Changes.{
  create_change_request_item-eq-ok, decide_change_request_item-eq-ok,
  mark_change_request_item_applied-eq-ok,
}
use bcars_portal.ChangeRequests.Types.{Item, item_from}
use bcars_portal.ChangeRequests.Apply.{apply_item}
use bcars_portal.ChangeRequests.Review.{
  DecideParams, Decision, amended, check_policy, advance_request, assemble_decision, apply_and_mark,
  apply_decision, decide_pending,
}
use bcars_portal.ChangeRequests.Aside.{Aside, aside_rules}
use bcars_portal.ChangeRequests.Applying.{apply_item-Aside}
use bcars_portal.ChangeRequests.Kept.{
  assemble_decision-Aside, advance_request-Aside, perform_all-Leads,
}
use bcars_portal.ChangeRequests.Operations.{Operation, perform_all}

-- approved, and not applied
abbrev pub is_unapplied : ChangeRequestItem → Bool
is_unapplied i = is_item_approved i.status && null i.applied_at

-- no item is approved and not applied
abbrev pub Applied : Db → Type 0
Applied db = All (λ i. is_unapplied i ≡ false) db.change_request_items

-- none but those of one id at one version
abbrev Awaits : ℕ → ℕ → ChangeRequestItem → Type 0
Awaits id version i = (is_unapplied i && not (i.id == id && i.version == version)) ≡ false

module _ (p : ChangeRequestItem → Bool) (f : ChangeRequestItem → ChangeRequestItem)
    (P Q : ChangeRequestItem → Type 0) where
  All-update_where :
      (xs : List ChangeRequestItem)
      → ((x : ChangeRequestItem) → P x → p x ≡ true → Q (f x))
      → ((x : ChangeRequestItem) → P x → p x ≡ false → Q x)
      → All P xs
      → All Q (update_where p f xs)
  unfolding update_where
  All-update_where [] h k a = tt
  All-update_where (x ∷ xs) h k (a, rest) = elim (Bool-cases (p x)) [
    | inl e ↦ rw e (h x a e, All-update_where xs h k rest)
    | inr e ↦ rw e (k x a e, All-update_where xs h k rest)
  ]

All-snoc :
    (P : ChangeRequestItem → Type 0) (xs : List ChangeRequestItem) (x : ChangeRequestItem)
    → All P xs
    → P x
    → All P (xs ++ x ∷ [])
All-snoc P [] x a h = (h, tt)
All-snoc P (y ∷ ys) x (a, rest) h = (a, All-snoc P ys x rest h)

decided-Awaits :
    (arg : DecideChangeRequestItemParams) (db db' : Db) (a : ChangeRequestItem)
    → Applied db
    → decide_change_request_item arg db ≡ ok (a, db')
    → All (Awaits arg.id a.version) db'.change_request_items
decided-Awaits arg db db' a h e =
    let (state, (x, found, is)) = decide_change_request_item-eq-ok arg db db' a e in
    let open_x = find_by-true (item_open_at arg.id arg.version) db.change_request_items x found in
    rw (state, is)
      (All-update_where (item_open_at arg.id arg.version) (decided_item db arg)
        (λ i. is_unapplied i ≡ false) (Awaits arg.id (decided_item db arg x).version)
        db.change_request_items (λ y unapplied passes. ground (arith, open_x, passes))
        (λ y unapplied fails. ground (arith, unapplied)) h)

marked-Applied :
    (arg : MarkChangeRequestItemAppliedParams) (db db' : Db) (a : ChangeRequestItem)
    → null arg.applied_at ≡ false
    → All (Awaits arg.id arg.version) db.change_request_items
    → mark_change_request_item_applied arg db ≡ ok (a, db')
    → Applied db'
marked-Applied arg db db' a set h e =
    let (state, found) = mark_change_request_item_applied-eq-ok arg db db' a e in
    rw state (
      All-update_where (item_to_mark arg) (marked_item db arg) (Awaits arg.id arg.version)
        (λ i. is_unapplied i ≡ false) db.change_request_items
        (λ y awaits passes. ground (arith, set)) (λ y awaits fails. ground (arith, awaits, fails))
        h)

-- a rejection or a hold leaves nothing to apply
decided-Applied :
    (arg : DecideChangeRequestItemParams) (db db' : Db) (a : ChangeRequestItem)
    → is_item_approved arg.status ≡ false
    → Applied db
    → decide_change_request_item arg db ≡ ok (a, db')
    → Applied db'
decided-Applied arg db db' a other h e =
    let (state, found) = decide_change_request_item-eq-ok arg db db' a e in
    rw state (
      All-update_where (item_open_at arg.id arg.version) (decided_item db arg)
        (λ i. is_unapplied i ≡ false) (λ i. is_unapplied i ≡ false) db.change_request_items
        (λ y unapplied passes. ground (arith, other)) (λ y unapplied fails. unapplied) h)

-- what keeps every approved item applied
pub record KeepsApplied (a b : Db) : Type 0 where
  pub kept : Applied a → Applied b

KeepsApplied-IsHistory : IsHistory KeepsApplied
KeepsApplied-IsHistory = record {
  stays = λ db. record { kept = λ h. h };
  chains = λ a b c p q. record { kept = λ h. q.kept (p.kept h) };
}

Aside→KeepsApplied : (a b : Db) → Aside a b → KeepsApplied a b
Aside→KeepsApplied a b k = record { kept = λ h. rw k.items h }

create_change_request_item-KeepsApplied :
    (arg : CreateChangeRequestItemParams) → Follows KeepsApplied (create_change_request_item arg)
create_change_request_item-KeepsApplied arg = record {
  at = λ db db' a e. record {
    kept = λ h.
        rw ((create_change_request_item-eq-ok arg db db' a e).1)
          (All-snoc (λ i. is_unapplied i ≡ false) db.change_request_items (new_item db arg) h refl);
  };
}

besides : {A : Type 0} (m : Tx A) → Follows Aside m → Follows KeepsApplied m
besides m h = Follows-coarser Aside KeepsApplied m Aside→KeepsApplied h

apply_and_mark-Applied :
    (env : Env) (p : Option Principal) (item : Item) (params : DecideParams) (now : Instant)
    (decided final : ChangeRequestItem) (db db' : Db)
    → All (Awaits item.id decided.version) db.change_request_items
    → apply_and_mark env p item params now decided db ≡ ok (final, db')
    → Applied db'
unfolding apply_and_mark
apply_and_mark-Applied env p item params now decided final db db' h e =
    let (result, s, ea, em) =
      >>=-eq-ok (apply_item env p (amended env item params.amended_value)) _ db db' final e in
    let beside =
      (apply_item-Aside env p (amended env item params.amended_value)).at db s result ea in
    marked-Applied _ s db' final refl (rw beside.items h) em

-- the parameters of the decision's UPDATE
abbrev decision_params :
    Option Principal → ItemStatus → Item → DecideParams → Instant → DecideChangeRequestItemParams
decision_params p decision item params now = record {
  status = decision;
  reviewed_by = null_id (user_id_of p);
  reviewed_at = some now.iso_timestamp;
  decision_reason = null_string params.reason;
  verification_note = null_string params.verification_note;
  id = item.id;
  version = item.version;
}

-- the decision and what follows on it, together
apply_decision-Applied :
    (env : Env) (p : Option Principal) (decision : ItemStatus) (item : Item) (params : DecideParams)
    (now : Instant) (decided final : ChangeRequestItem) (db db1 db2 : Db)
    → Applied db
    → decide_change_request_item (decision_params p decision item params now) db ≡ ok (decided, db1)
    → apply_decision env p decision item params now decided db1 ≡ ok (final, db2)
    → Applied db2
unfolding apply_decision pure
apply_decision-Applied env p item_approved item params now decided final db db1 db2 h e k =
    apply_and_mark-Applied env p item params now decided final db1 db2
      (decided-Awaits (decision_params p item_approved item params now) db db1 decided h e) k
apply_decision-Applied env p item_pending item params now decided final db db1 db2 h e k =
    subst Applied (same_state decided final db1 db2 k)
      (decided-Applied (decision_params p item_pending item params now) db db1 decided refl h e)
apply_decision-Applied env p item_rejected item params now decided final db db1 db2 h e k =
    subst Applied (same_state decided final db1 db2 k)
      (decided-Applied (decision_params p item_rejected item params now) db db1 decided refl h e)
apply_decision-Applied env p item_needs_verification item params now decided final db db1 db2 h e
      k =
    subst Applied (same_state decided final db1 db2 k) (
      decided-Applied (decision_params p item_needs_verification item params now) db db1 decided
        refl h e)

-- what is left of a decision
abbrev closing : ChangeRequest → ItemStatus → Instant → ChangeRequestItem → Tx Decision
closing request decision now final = do
  pending ← count_pending_change_request_items request.id
  advance_request request pending now
  assemble_decision request.id (item_from final) (is_item_approved decision) false

closing-Aside :
    (request : ChangeRequest) (decision : ItemStatus) (now : Instant) (final : ChangeRequestItem)
    → Follows Aside (closing request decision now final)
unfolding count_pending_change_request_items
closing-Aside request decision now final =
    search (aside_rules, advance_request-Aside, assemble_decision-Aside) depth 12

decide_pending-KeepsApplied :
    (env : Env) (p : Option Principal) (decision : ItemStatus) (request : ChangeRequest)
    (item : Item) (params : DecideParams) (now : Instant)
    → Follows KeepsApplied (decide_pending env p decision request item params now)
unfolding decide_pending
decide_pending-KeepsApplied env p decision request item params now = record {
  at = λ db db' out e. record {
    kept = λ h.
        let policy = check_policy decision (user_id_of p) request item params in
        let (u, s0, e0, k0) = >>=-eq-ok (lift policy) _ db db' out e in
        let (decided, s1, e1, k1) =
          >>=-eq-ok
            (or_missing item_decided
              (decide_change_request_item (decision_params p decision item params now)))
            _ s0 db' out k0 in
        let (final, s2, e2, k2) =
          >>=-eq-ok (apply_decision env p decision item params now decided) _ s1 db' out k1 in
        let done =
          apply_decision-Applied env p decision item params now decided final s0 s1 s2
            (subst Applied ((lift-eq-ok policy u db s0 e0).1) h)
            (or_missing-eq-ok item_decided
              (decide_change_request_item (decision_params p decision item params now)) s0 s1
              decided e1)
            e2 in
        rw (((closing-Aside request decision now final).at s2 db' out k2).items) done;
  };
}

-- No item sits approved and unapplied: where every approved item has been applied, that is so after
-- any sequence of creations, triages, resolutions, withdrawals and decisions by any callers.
pub perform_all-Applied :
    (env : Env) (ops : List (Option Principal × Instant × Operation)) (db : Db)
    → Applied db
    → Applied (perform_all env ops db)
perform_all-Applied env ops db h =
    (perform_all-Leads KeepsApplied KeepsApplied-IsHistory Aside→KeepsApplied
        create_change_request_item-KeepsApplied decide_pending-KeepsApplied env ops db).kept
      h
