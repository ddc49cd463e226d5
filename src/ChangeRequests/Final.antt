-- ===== src/ChangeRequests/Final.antt =====
-- A decision on an item is final.
use bcars_portal.Base.{
  ℕ, String, Option, none, some, List, [], ◌∷◌, ◌++◌, Bool, true, ◌≡◌, refl, ◌∙◌, ◌⊎◌, inl, inr,
  arith, update_where, if◌then◌else◌, Bool-cases,
}
use bcars_portal.Authz.{Principal}
use bcars_portal.Idem.{Env}
use bcars_portal.Store.DirectoryRows.{
  ChangeRequest, ChangeRequestItem, ItemStatus, item_pending, item_approved, item_rejected,
  item_needs_verification,
}
use bcars_portal.Store.Tx.{Db, Tx, Instant}
use bcars_portal.Store.Follows.{Follows, IsHistory, follows_rules, Follows-coarser}
use bcars_portal.Store.ChangeQueries.{is_item_pending, null}
use bcars_portal.Store.ItemQueries.Changes.{
  create_change_request_item-eq-ok, decide_change_request_item-eq-ok,
  mark_change_request_item_applied-eq-ok,
}
use bcars_portal.ChangeRequests.Aside.{Aside}
use bcars_portal.ChangeRequests.Applying.{apply_item-Aside}
use bcars_portal.ChangeRequests.Kept.{
  assemble_decision-Aside, advance_request-Aside, perform_all-Leads,
}
use bcars_portal.ChangeRequests.Operations.{Operation, perform_all}
use bcars_portal.ChangeRequests.Types.{Item}
use bcars_portal.ChangeRequests.Review.{
  DecideParams, apply_and_mark, apply_decision, decide_pending,
}
use bcars_portal.Store.ItemQueries.{
  count_pending_change_request_items, new_item, decided_item, marked_item, item_to_mark,
  item_open_at, CreateChangeRequestItemParams, create_change_request_item,
  DecideChangeRequestItemParams, decide_change_request_item, MarkChangeRequestItemAppliedParams,
  mark_change_request_item_applied,
}

-- what a request asks for in one item
pub record Proposal : Type 0 where
  pub id : ℕ
  pub request_id : ℕ
  pub ordinal : ℕ
  pub operation : String
  pub proposed_value : Option String
  pub target_kind : Option String
  pub target_id : Option ℕ
  pub target_version : Option ℕ
  pub sensitivity : String
  pub created_at : String

abbrev pub proposal : ChangeRequestItem → Proposal
proposal i = record {
  id = i.id;
  request_id = i.request_id;
  ordinal = i.ordinal;
  operation = i.operation;
  proposed_value = i.proposed_value;
  target_kind = i.target_kind;
  target_id = i.target_id;
  target_version = i.target_version;
  sensitivity = i.sensitivity;
  created_at = i.created_at;
}

-- what was decided on it
pub record Verdict : Type 0 where
  pub status : ItemStatus
  pub reviewed_by : Option ℕ
  pub reviewed_at : Option String
  pub decision_reason : Option String
  pub verification_note : Option String

abbrev pub verdict : ChangeRequestItem → Option Verdict
verdict i =
    if is_item_pending i.status
    then none
    else some (record {
      status = i.status;
      reviewed_by = i.reviewed_by;
      reviewed_at = i.reviewed_at;
      decision_reason = i.decision_reason;
      verification_note = i.verification_note;
    })

-- what was applied for it
pub record Application : Type 0 where
  pub applied_at : Option String
  pub applied_value : Option String
  pub applied_resource_kind : Option String
  pub applied_resource_id : Option ℕ
  pub applied_resource_version : Option ℕ

abbrev pub application : ChangeRequestItem → Option Application
application i =
    if null i.applied_at
    then none
    else some (record {
      applied_at = i.applied_at;
      applied_value = i.applied_value;
      applied_resource_kind = i.applied_resource_kind;
      applied_resource_id = i.applied_resource_id;
      applied_resource_version = i.applied_resource_version;
    })

-- once written, a value stays
abbrev pub WriteOnce : {A : Type 0} → Option A → Option A → Type 0
WriteOnce x y = (x ≡ none) ⊎ (y ≡ x)

WriteOnce-trans : {A : Type 0} (x y z : Option A) → WriteOnce x y → WriteOnce y z → WriteOnce x z
WriteOnce-trans x y z (inl e) q = inl e
WriteOnce-trans x y z (inr e) (inl f) = inl (cc (e, f))
WriteOnce-trans x y z (inr e) (inr f) = inr (f ∙ e)

-- a row of an item, later on
pub record Ages (x y : ChangeRequestItem) : Type 0 where
  pub proposed : proposal y ≡ proposal x
  pub judged : WriteOnce (verdict x) (verdict y)
  pub applied : WriteOnce (application x) (application y)

Ages-refl : (x : ChangeRequestItem) → Ages x x
Ages-refl x = record { proposed = refl; judged = inr refl; applied = inr refl }

-- the rows of the items, later on: no row is dropped or moved
abbrev pub AllAge : List ChangeRequestItem → List ChangeRequestItem → Type 0
AllAge [] ys = Unit
AllAge (x ∷ xs) [] = ⊥
AllAge (x ∷ xs) (y ∷ ys) = Ages x y × AllAge xs ys

AllAge-append : (xs ys : List ChangeRequestItem) → AllAge xs (xs ++ ys)
AllAge-append [] ys = tt
AllAge-append (x ∷ xs) ys = (Ages-refl x, AllAge-append xs ys)

AllAge-trans : (xs ys zs : List ChangeRequestItem) → AllAge xs ys → AllAge ys zs → AllAge xs zs
AllAge-trans [] ys zs p q = tt
AllAge-trans (x ∷ xs) [] zs p q = absurd p
AllAge-trans (x ∷ xs) (y ∷ ys) [] p q = absurd q
AllAge-trans (x ∷ xs) (y ∷ ys) (z ∷ zs) (p, ps) (q, qs) = (
  record {
    proposed = q.proposed ∙ p.proposed;
    judged = WriteOnce-trans (verdict x) (verdict y) (verdict z) p.judged q.judged;
    applied = WriteOnce-trans (application x) (application y) (application z) p.applied q.applied;
  },
  AllAge-trans xs ys zs ps qs,
)

AllAge-update_where :
    (p : ChangeRequestItem → Bool) (f : ChangeRequestItem → ChangeRequestItem)
    (xs : List ChangeRequestItem)
    → ((x : ChangeRequestItem) → p x ≡ true → Ages x (f x))
    → AllAge xs (update_where p f xs)
unfolding update_where
AllAge-update_where p f [] h = tt
AllAge-update_where p f (x ∷ xs) h = elim (Bool-cases (p x)) [
  | inl e ↦ rw e (h x e, AllAge-update_where p f xs h)
  | inr e ↦ rw e (Ages-refl x, AllAge-update_where p f xs h)
]

pub record ItemsAge (a b : Db) : Type 0 where
  pub age : AllAge a.change_request_items b.change_request_items

AllAge-refl : (xs : List ChangeRequestItem) → AllAge xs xs
AllAge-refl [] = tt
AllAge-refl (x ∷ xs) = (Ages-refl x, AllAge-refl xs)

ItemsAge-IsHistory : IsHistory ItemsAge
ItemsAge-IsHistory = record {
  stays = λ db. record { age = AllAge-refl db.change_request_items };
  chains = λ a b c p q. record {
    age =
        AllAge-trans a.change_request_items b.change_request_items c.change_request_items p.age
          q.age;
  };
}

Aside→ItemsAge : (a b : Db) → Aside a b → ItemsAge a b
Aside→ItemsAge a b h = record { age = rw h.items (AllAge-refl a.change_request_items) }

create_change_request_item-ItemsAge :
    (arg : CreateChangeRequestItemParams) → Follows ItemsAge (create_change_request_item arg)
create_change_request_item-ItemsAge arg = record {
  at = λ db db' a e. record {
    age =
        rw ((create_change_request_item-eq-ok arg db db' a e).1)
          (AllAge-append db.change_request_items (new_item db arg ∷ []));
  };
}

decide_change_request_item-ItemsAge :
    (arg : DecideChangeRequestItemParams) → Follows ItemsAge (decide_change_request_item arg)
decide_change_request_item-ItemsAge arg = record {
  at = λ db db' a e. record {
    age = rw ((decide_change_request_item-eq-ok arg db db' a e).0) (
        AllAge-update_where (item_open_at arg.id arg.version) (decided_item db arg)
          db.change_request_items
          (λ x passes. record {
            proposed = refl;
            judged = inl (ground (arith, passes));
            applied = inr refl;
          }));
  };
}

mark_change_request_item_applied-ItemsAge :
    (arg : MarkChangeRequestItemAppliedParams)
    → Follows ItemsAge (mark_change_request_item_applied arg)
mark_change_request_item_applied-ItemsAge arg = record {
  at = λ db db' a e. record {
    age = rw ((mark_change_request_item_applied-eq-ok arg db db' a e).0) (
        AllAge-update_where (item_to_mark arg) (marked_item db arg) db.change_request_items
          (λ x passes. record {
            proposed = refl;
            judged = inr refl;
            applied = inl (ground (arith, passes));
          }));
  };
}

ruleset age_rules = (
  follows_rules, ItemsAge-IsHistory, create_change_request_item-ItemsAge,
  decide_change_request_item-ItemsAge, mark_change_request_item_applied-ItemsAge,
)

besides : {A : Type 0} (m : Tx A) → Follows Aside m → Follows ItemsAge m
besides m h = Follows-coarser Aside ItemsAge m Aside→ItemsAge h

apply_and_mark-ItemsAge :
    (env : Env) (p : Option Principal) (item : Item) (params : DecideParams) (now : Instant)
    (decided : ChangeRequestItem)
    → Follows ItemsAge (apply_and_mark env p item params now decided)
unfolding apply_and_mark
apply_and_mark-ItemsAge env p item params now decided =
    search (age_rules, besides, apply_item-Aside)

apply_decision-ItemsAge :
    (env : Env) (p : Option Principal) (decision : ItemStatus) (item : Item) (params : DecideParams)
    (now : Instant) (decided : ChangeRequestItem)
    → Follows ItemsAge (apply_decision env p decision item params now decided)
unfolding apply_decision
apply_decision-ItemsAge env p item_pending item params now judged = search age_rules
apply_decision-ItemsAge env p item_approved item params now decided =
    apply_and_mark-ItemsAge env p item params now decided
apply_decision-ItemsAge env p item_rejected item params now judged = search age_rules
apply_decision-ItemsAge env p item_needs_verification item params now judged = search age_rules

decide_pending-ItemsAge :
    (env : Env) (p : Option Principal) (decision : ItemStatus) (request : ChangeRequest)
    (item : Item) (params : DecideParams) (now : Instant)
    → Follows ItemsAge (decide_pending env p decision request item params now)
unfolding decide_pending count_pending_change_request_items
decide_pending-ItemsAge env p decision request item params now =
    search
      (age_rules, besides, apply_decision-ItemsAge, advance_request-Aside, assemble_decision-Aside)
      depth 12

-- A decision is final, over any sequence of creations, triages, resolutions, withdrawals and
-- decisions by any callers: the rows of the items stay in place, more may follow them, no row
-- changes what it proposes, and what was once decided on an item, or recorded as applied for it,
-- with who decided, when and why, is never changed again.
pub perform_all-ItemsAge :
    (env : Env) (ops : List (Option Principal × Instant × Operation)) (db : Db)
    → ItemsAge db (perform_all env ops db)
perform_all-ItemsAge env ops db =
    perform_all-Leads ItemsAge ItemsAge-IsHistory Aside→ItemsAge create_change_request_item-ItemsAge
      decide_pending-ItemsAge env ops db
