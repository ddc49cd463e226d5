-- ===== src/ChangeRequests/Applying.antt =====
-- Applying an item changes no item and nothing of the ledger.
use bcars_portal.Base.{ℕ, Option, none, some}
use bcars_portal.Authz.{Principal}
use bcars_portal.Idem.{Env}
use bcars_portal.Store.Follows.{Follows}
use bcars_portal.Store.DirectoryQueries.{get_person, get_contact_method}
use bcars_portal.Store.ChangeQueries.{get_change_request}
use bcars_portal.ChangeRequests.Policy.{
  AdapterKind, adapter_none, adapter_person_update, adapter_contact_create, adapter_contact_update,
  adapter_contact_archive, adapter_contact_set_primary, adapter_contact_visibility,
  adapter_sharing_preference,
}
use bcars_portal.ChangeRequests.Types.{Item}
use bcars_portal.ChangeRequests.Apply.{
  apply_person_update, target_of, contact_owner, apply_contact_create, apply_contact_update,
  apply_contact_archive, apply_set_primary, apply_visibility, apply_sharing, apply_adapter,
  apply_item,
}
use bcars_portal.ChangeRequests.Aside.{
  Aside, aside_rules, change_person-Aside, add_contact-Aside, archive_contact-Aside,
  make_primary-Aside, change_contact-Aside, set_directory_visibility-Aside,
  set_acs_ares_sharing-Aside,
}

apply_person_update-Aside :
    (env : Env) (p : Option Principal) (item : Item)
    → Follows Aside (apply_person_update env p item)
unfolding apply_person_update get_person
apply_person_update-Aside env p item = search (aside_rules, change_person-Aside) depth 12

target_of-Aside : (o : Option ℕ) → Follows Aside (target_of o)
target_of-Aside none = search aside_rules
target_of-Aside (some id) = search aside_rules

contact_owner-Aside : (item : Item) → Follows Aside (contact_owner item)
unfolding contact_owner get_change_request
contact_owner-Aside item = search (aside_rules, target_of-Aside)

apply_contact_create-Aside :
    (env : Env) (p : Option Principal) (item : Item)
    → Follows Aside (apply_contact_create env p item)
unfolding apply_contact_create
apply_contact_create-Aside env p item =
    search (aside_rules, add_contact-Aside, contact_owner-Aside) depth 12

apply_contact_update-Aside :
    (env : Env) (p : Option Principal) (item : Item)
    → Follows Aside (apply_contact_update env p item)
unfolding apply_contact_update get_contact_method
apply_contact_update-Aside env p item = search (aside_rules, change_contact-Aside) depth 12

apply_contact_archive-Aside :
    (p : Option Principal) (item : Item) → Follows Aside (apply_contact_archive p item)
unfolding apply_contact_archive get_contact_method
apply_contact_archive-Aside p item = search (aside_rules, archive_contact-Aside) depth 12

apply_set_primary-Aside :
    (p : Option Principal) (item : Item) → Follows Aside (apply_set_primary p item)
unfolding apply_set_primary get_contact_method
apply_set_primary-Aside p item = search (aside_rules, make_primary-Aside) depth 12

apply_visibility-Aside :
    (p : Option Principal) (item : Item) → Follows Aside (apply_visibility p item)
unfolding apply_visibility
apply_visibility-Aside p item = search (aside_rules, set_directory_visibility-Aside) depth 12

apply_sharing-Aside :
    (env : Env) (p : Option Principal) (item : Item) → Follows Aside (apply_sharing env p item)
unfolding apply_sharing
apply_sharing-Aside env p item = search (aside_rules, set_acs_ares_sharing-Aside) depth 12

apply_adapter-Aside :
    (env : Env) (p : Option Principal) (item : Item) (kind : AdapterKind)
    → Follows Aside (apply_adapter env p item kind)
unfolding apply_adapter
apply_adapter-Aside env p item adapter_person_update = apply_person_update-Aside env p item
apply_adapter-Aside env p item adapter_contact_create = apply_contact_create-Aside env p item
apply_adapter-Aside env p item adapter_contact_update = apply_contact_update-Aside env p item
apply_adapter-Aside env p item adapter_contact_archive = apply_contact_archive-Aside p item
apply_adapter-Aside env p item adapter_contact_set_primary = apply_set_primary-Aside p item
apply_adapter-Aside env p item adapter_contact_visibility = apply_visibility-Aside p item
apply_adapter-Aside env p item adapter_sharing_preference = apply_sharing-Aside env p item
apply_adapter-Aside env p item adapter_none = search aside_rules

pub apply_item-Aside :
    (env : Env) (p : Option Principal) (item : Item) → Follows Aside (apply_item env p item)
unfolding apply_item
apply_item-Aside env p item = search (aside_rules, apply_adapter-Aside)
