-- ===== src/ChangeRequests/Aside.antt =====
-- What the statements on the directory, on the requests and on the idempotency keys leave as it is:
-- the items of the requests, and the ledger.
use bcars_portal.Base.{ℕ, String, ◌≡◌, refl, ◌∙◌, Option, none, some, Bool, arith}
use bcars_portal.Authz.{Principal}
use bcars_portal.Idem.{Env, Claim, claim_from, begin, complete}
use bcars_portal.Store.Rows.{IdempotencyRecord}
use bcars_portal.Store.DirectoryRows.{RequestStatus}
use bcars_portal.Store.Tx.{Db}
use bcars_portal.Store.Follows.{Follows, IsHistory, follows_rules}
use bcars_portal.Store.KeyQueries.{
  get_idempotency_record, create_idempotency_record, complete_idempotency_record,
}
use bcars_portal.Store.DirectoryQueries.{
  UpdatePersonParams, update_person, get_contact_method, CreateContactMethodParams,
  create_contact_method, UpdateContactMethodParams, update_contact_method, archive_contact_method,
  clear_primary_for_person, set_primary, create_visibility_event, create_sharing_event,
}
use bcars_portal.Store.ChangeQueries.{
  CreateChangeRequestParams, create_change_request, set_change_request_target,
  set_change_request_status, resolve_change_request,
}
use bcars_portal.Members.{
  PersonChange, change_person, ContactAddition, add_contact, archive_contact, make_primary,
  ContactChange, change_contact, set_directory_visibility, set_acs_ares_sharing,
}

pub record Aside (a b : Db) : Type 0 where
  pub items : b.change_request_items ≡ a.change_request_items
  pub payments : b.payments ≡ a.payments
  pub corrections : b.payment_corrections ≡ a.payment_corrections
  pub coverage : b.coverage_events ≡ a.coverage_events

pub Aside-IsHistory : IsHistory Aside
Aside-IsHistory = record {
  stays = λ db. record { items = refl; payments = refl; corrections = refl; coverage = refl };
  chains = λ a b c p q. record {
    items = q.items ∙ p.items;
    payments = q.payments ∙ p.payments;
    corrections = q.corrections ∙ p.corrections;
    coverage = q.coverage ∙ p.coverage;
  };
}

pub update_person-Aside : (arg : UpdatePersonParams) → Follows Aside (update_person arg)
unfolding update_person
update_person-Aside arg = record { at = λ db db' a e. ground arith }

pub create_contact_method-Aside :
    (arg : CreateContactMethodParams) → Follows Aside (create_contact_method arg)
unfolding create_contact_method
create_contact_method-Aside arg = record { at = λ db db' a e. ground arith }

pub update_contact_method-Aside :
    (arg : UpdateContactMethodParams) → Follows Aside (update_contact_method arg)
unfolding update_contact_method
update_contact_method-Aside arg = record { at = λ db db' a e. ground arith }

pub archive_contact_method-Aside :
    (id version : ℕ) → Follows Aside (archive_contact_method id version)
unfolding archive_contact_method
archive_contact_method-Aside id version = record { at = λ db db' a e. ground arith }

pub clear_primary_for_person-Aside : (id : ℕ) → Follows Aside (clear_primary_for_person id)
unfolding clear_primary_for_person
clear_primary_for_person-Aside id = record { at = λ db db' a e. ground arith }

pub set_primary-Aside : (id : ℕ) → Follows Aside (set_primary id)
unfolding set_primary
set_primary-Aside id = record { at = λ db db' a e. ground arith }

pub create_visibility_event-Aside :
    (contact : ℕ) (audience source : String) (actor : Option ℕ)
    → Follows Aside (create_visibility_event contact audience source actor)
unfolding create_visibility_event
create_visibility_event-Aside contact audience source actor = record {
  at = λ db db' a e. ground arith;
}

pub create_sharing_event-Aside :
    (person n : ℕ) (source : String) (actor : Option ℕ) (reason : Option String)
    → Follows Aside (create_sharing_event person n source actor reason)
unfolding create_sharing_event
create_sharing_event-Aside person n source actor reason = record { at = λ db db' a e. ground arith }

pub create_idempotency_record-Aside :
    (actor : ℕ) (operation key hash : String)
    → Follows Aside (create_idempotency_record actor operation key hash)
unfolding create_idempotency_record
create_idempotency_record-Aside actor operation key hash = record {
  at = λ db db' a e. ground arith;
}

pub complete_idempotency_record-Aside :
    (kind : Option String) (resource : Option ℕ) (id : ℕ)
    → Follows Aside (complete_idempotency_record kind resource id)
unfolding complete_idempotency_record
complete_idempotency_record-Aside kind resource id = record { at = λ db db' a e. ground arith }

pub create_change_request-Aside :
    (arg : CreateChangeRequestParams) → Follows Aside (create_change_request arg)
unfolding create_change_request
create_change_request-Aside arg = record { at = λ db db' a e. ground arith }

pub set_change_request_target-Aside :
    (target triaged_by : Option ℕ) (at : Option String) (id version : ℕ)
    → Follows Aside (set_change_request_target target triaged_by at id version)
unfolding set_change_request_target
set_change_request_target-Aside target triaged_by at id version = record {
  at = λ db db' a e. ground arith;
}

pub set_change_request_status-Aside :
    (status : RequestStatus) (resolved withdrawn : Option String) (id version : ℕ)
    → Follows Aside (set_change_request_status status resolved withdrawn id version)
unfolding set_change_request_status
set_change_request_status-Aside status resolved withdrawn id version = record {
  at = λ db db' a e. ground arith;
}

pub resolve_change_request-Aside :
    (at : Option String) (by : Option ℕ) (remark : Option String) (id version : ℕ)
    → Follows Aside (resolve_change_request at by remark id version)
unfolding resolve_change_request
resolve_change_request-Aside at by remark id version = record { at = λ db db' a e. ground arith }

pub ruleset aside_rules = (
  follows_rules, Aside-IsHistory, update_person-Aside, create_contact_method-Aside,
  update_contact_method-Aside, archive_contact_method-Aside, clear_primary_for_person-Aside,
  set_primary-Aside, create_visibility_event-Aside, create_sharing_event-Aside,
  create_idempotency_record-Aside, complete_idempotency_record-Aside, create_change_request-Aside,
  set_change_request_target-Aside, set_change_request_status-Aside, resolve_change_request-Aside,
)

claim_from-Aside :
    (actor : ℕ) (operation key hash : String) (o : Option IdempotencyRecord)
    → Follows Aside (claim_from actor operation key hash o)
unfolding claim_from
claim_from-Aside actor operation key hash none = search aside_rules
claim_from-Aside actor operation key hash (some r) = search aside_rules

pub begin-Aside :
    (actor : ℕ) (operation key hash : String) → Follows Aside (begin actor operation key hash)
unfolding begin get_idempotency_record
begin-Aside actor operation key hash = search (aside_rules, claim_from-Aside)

pub complete-Aside :
    (claim : Claim) (kind : String) (id : ℕ) → Follows Aside (complete claim kind id)
unfolding complete
complete-Aside claim kind id = search aside_rules

pub change_person-Aside :
    (env : Env) (p : Option Principal) (params : PersonChange)
    → Follows Aside (change_person env p params)
unfolding change_person
change_person-Aside env p params = search aside_rules

pub add_contact-Aside :
    (p : Option Principal) (params : ContactAddition) → Follows Aside (add_contact p params)
unfolding add_contact
add_contact-Aside p params = search aside_rules

pub archive_contact-Aside :
    (p : Option Principal) (id version : ℕ) → Follows Aside (archive_contact p id version)
unfolding archive_contact get_contact_method
archive_contact-Aside p id version = search aside_rules

pub make_primary-Aside : (p : Option Principal) (id : ℕ) → Follows Aside (make_primary p id)
unfolding make_primary get_contact_method
make_primary-Aside p id = search aside_rules

pub change_contact-Aside :
    (p : Option Principal) (params : ContactChange) → Follows Aside (change_contact p params)
unfolding change_contact get_contact_method
change_contact-Aside p params = search aside_rules

pub set_directory_visibility-Aside :
    (p : Option Principal) (contact : ℕ) (audience source : String)
    → Follows Aside (set_directory_visibility p contact audience source)
unfolding set_directory_visibility
set_directory_visibility-Aside p contact audience source = search aside_rules

pub set_acs_ares_sharing-Aside :
    (p : Option Principal) (person : ℕ) (participates : Bool) (reason source : String)
    → Follows Aside (set_acs_ares_sharing p person participates reason source)
unfolding set_acs_ares_sharing
set_acs_ares_sharing-Aside p person participates reason source = search aside_rules
