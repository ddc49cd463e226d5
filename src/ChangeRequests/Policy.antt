-- ===== src/ChangeRequests/Policy.antt =====
-- internal/domain/changerequests/policy.go: the sensitivity and the adapter of each operation.
use bcars_portal.Base.{String, Bool, true, false, not, List, [], ◌∷◌, str_eq, if◌then◌else◌}

-- SensitivityOrdinary and SensitivitySensitive
abbrev pub sensitivity_ordinary : String
sensitivity_ordinary = "ordinary"

abbrev pub sensitivity_sensitive : String
sensitivity_sensitive = "sensitive"

-- OpOther
abbrev pub op_other : String
op_other = "other"

-- a Go map by its entries, and its zero value for a key that is absent
abbrev pub lookup_or {ℓ} : {A : Type ℓ} → A → String → List (String × A) → A
lookup_or zero_value key [] = zero_value
lookup_or zero_value key ((k, v) ∷ rest) = if str_eq k key then v else lookup_or zero_value key rest

-- `MinimumSensitivity`
abbrev pub minimum_sensitivity : List (String × String)
minimum_sensitivity =
    ("person.call_sign.set", sensitivity_sensitive)
    ∷ ("person.display_name.set", sensitivity_ordinary)
    ∷ ("contact_method.add", sensitivity_ordinary)
    ∷ ("contact_method.update", sensitivity_ordinary)
    ∷ ("contact_method.archive", sensitivity_ordinary)
    ∷ ("contact_method.set_primary", sensitivity_ordinary)
    ∷ ("contact_method.visibility.set", sensitivity_sensitive)
    ∷ ("sharing_pref.acs_ares.set", sensitivity_sensitive)
    ∷ ("relationship.add", sensitivity_ordinary)
    ∷ ("relationship.correct", sensitivity_ordinary)
    ∷ ("other", sensitivity_ordinary)
    ∷ []

-- `EffectiveSensitivity`
unfoldable pub effective_sensitivity : String → String → String
effective_sensitivity operation declared =
    if str_eq declared sensitivity_sensitive
    then sensitivity_sensitive
    else if str_eq (lookup_or "" operation minimum_sensitivity) sensitivity_sensitive
    then sensitivity_sensitive
    else sensitivity_ordinary

-- `AdapterKind`
pub data AdapterKind : Type 0 where
  adapter_none adapter_person_update : AdapterKind
  adapter_contact_create adapter_contact_update adapter_contact_archive : AdapterKind
  adapter_contact_set_primary adapter_contact_visibility adapter_sharing_preference : AdapterKind

-- `Adapters`
abbrev pub adapters : List (String × AdapterKind)
adapters =
    ("person.display_name.set", adapter_person_update)
    ∷ ("person.call_sign.set", adapter_person_update)
    ∷ ("contact_method.add", adapter_contact_create)
    ∷ ("contact_method.update", adapter_contact_update)
    ∷ ("contact_method.archive", adapter_contact_archive)
    ∷ ("contact_method.set_primary", adapter_contact_set_primary)
    ∷ ("contact_method.visibility.set", adapter_contact_visibility)
    ∷ ("sharing_pref.acs_ares.set", adapter_sharing_preference)
    ∷ ("relationship.add", adapter_none)
    ∷ ("relationship.correct", adapter_none)
    ∷ ("other", adapter_none)
    ∷ []

unfoldable pub adapter_of : String → AdapterKind
adapter_of operation = lookup_or adapter_none operation adapters

abbrev pub is_adapter_none : AdapterKind → Bool
is_adapter_none adapter_none = true
is_adapter_none _ = false

abbrev pub is_adapter_visibility : AdapterKind → Bool
is_adapter_visibility adapter_contact_visibility = true
is_adapter_visibility _ = false

-- `CanApply`
unfoldable pub can_apply : String → Bool
can_apply operation = not (is_adapter_none (adapter_of operation))

abbrev targets : AdapterKind → Bool
targets adapter_contact_update = true
targets adapter_contact_archive = true
targets adapter_contact_set_primary = true
targets adapter_contact_visibility = true
targets _ = false

-- `RequiresTargetID`
unfoldable pub requires_target_id : String → Bool
requires_target_id operation = targets (adapter_of operation)

abbrev values : String → AdapterKind → Bool
values operation adapter_contact_archive = false
values operation adapter_contact_set_primary = false
values operation adapter_none = not (str_eq operation op_other)
values operation _ = true

-- `RequiresValue`
unfoldable pub requires_value : String → Bool
requires_value operation = values operation (adapter_of operation)
