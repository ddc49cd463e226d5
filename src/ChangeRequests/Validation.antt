-- ===== src/ChangeRequests/Validation.antt =====
-- internal/domain/changerequests/service.go: what a new request must look like.
use bcars_portal.Base.{
  ℕ, String, Bool, not, ◌&&◌, ◌||◌, List, [], ◌∷◌, ◌==◌, str_eq, ltb, length, if◌then◌else◌,
}
use bcars_portal.GoText.{is_blank}
use bcars_portal.GoText.Text.{trim_space, byte_length}
use bcars_portal.Outcome.{
  Result, guard, ok, ◌>>◌, source_required, summary_required, too_long, no_target,
  unknown_operation, unknown_target_kind, target_incomplete, value_required, too_many_items,
  no_items, unknown_sensitivity, bad_value,
}
use bcars_portal.Members.{valid_audience}
use bcars_portal.Store.ChangeQueries.{is_source}
use bcars_portal.Store.ItemQueries.{is_operation, is_target_kind}
use bcars_portal.ChangeRequests.Policy.{
  sensitivity_ordinary, sensitivity_sensitive, adapter_of, is_adapter_visibility, requires_value,
}

pub record ItemInput : Type 0 where
  pub operation : String
  pub proposed_value : String
  pub target_kind : String
  pub target_id : ℕ
  pub target_version : ℕ
  pub sensitivity : String

pub record CreateParams : Type 0 where
  pub source : String
  pub target_person_id : ℕ
  pub supplied_name : String
  pub supplied_call_sign : String
  pub supplied_contact : String
  pub stated_relationship : String
  pub summary : String
  pub requester_user_id : ℕ
  pub source_ip_hash : String
  pub items : List ItemInput

-- MaxSummaryLen, MaxSuppliedLen, MaxValueLen and MaxItems
abbrev pub max_summary_len : ℕ
max_summary_len = 4000

abbrev pub max_supplied_len : ℕ
max_supplied_len = 200

abbrev pub max_value_len : ℕ
max_value_len = 2000

abbrev pub max_items : ℕ
max_items = 25

abbrev fits : ℕ → String → Bool
fits bound s = not (ltb bound (byte_length s))

abbrev known_sensitivity : String → Bool
known_sensitivity s = str_eq s "" || str_eq s sensitivity_ordinary || str_eq s sensitivity_sensitive

abbrev both_or_neither : String → ℕ → Bool
both_or_neither kind id = if str_eq kind "" then id == 0 else not (id == 0)

-- one turn of the loop of `validateCreate`
unfoldable pub validate_item : ItemInput → Result (Unit {0})
validate_item e = do
  guard (is_operation e.operation) unknown_operation
  guard (fits max_value_len e.proposed_value) too_long
  guard (not (requires_value e.operation && is_blank e.proposed_value)) value_required
  guard
      (not (
        is_adapter_visibility (adapter_of e.operation)
        && not (valid_audience (trim_space e.proposed_value))))
      bad_value
  guard (both_or_neither e.target_kind e.target_id) target_incomplete
  guard (str_eq e.target_kind "" || is_target_kind e.target_kind) unknown_target_kind
  guard (known_sensitivity e.sensitivity) unknown_sensitivity

unfoldable pub validate_items : List ItemInput → Result (Unit {0})
validate_items [] = ok tt
validate_items (e ∷ es) = validate_item e >> validate_items es

-- `validateCreate`
unfoldable pub validate_create : CreateParams → Result (Unit {0})
validate_create params = do
  guard (is_source params.source) source_required
  guard (not (is_blank params.summary)) summary_required
  guard (fits max_summary_len params.summary) too_long
  guard
      (fits max_supplied_len params.supplied_name
        && fits max_supplied_len params.supplied_call_sign
        && fits max_supplied_len params.supplied_contact
        && fits max_supplied_len params.stated_relationship)
      too_long
  guard
      (not (
        params.target_person_id == 0
        && is_blank params.supplied_name
        && is_blank params.supplied_call_sign
        && is_blank params.supplied_contact))
      no_target
  guard (not (length params.items == 0)) no_items
  guard (not (ltb max_items (length params.items))) too_many_items
  validate_items params.items
