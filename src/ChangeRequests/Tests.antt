-- ===== src/ChangeRequests/Tests.antt =====
-- The review of the request of ChangeRequests/Example.antt.
use Prim.Native.String.{◌++◌ as ◌<>◌}
use bcars_portal.Base.{◌≡◌, refl, some, List, [], ◌∷◌, Option, true, false}
use bcars_portal.Authz.{Principal, authorize, by_code}
use bcars_portal.Base.{find_by, exists_by, select, order_by, update_where}
use bcars_portal.GoText.{is_blank, is_sql_blank}
use bcars_portal.Store.Tx.{◌>>=◌, or_missing, or_stale, after, in_tx}
use bcars_portal.Store.DirectoryQueries.{get_person, update_person}
use bcars_portal.Store.ChangeQueries.{get_change_request, set_change_request_status, request_checks}
use bcars_portal.Store.ItemQueries.{
  get_change_request_item, decide_change_request_item, item_checks,
  mark_change_request_item_applied, count_pending_change_request_items, list_change_request_items,
}
use bcars_portal.Members.{change_person}
use bcars_portal.ChangeRequests.Policy.{
  effective_sensitivity, can_apply, adapter_of, requires_target_id,
}
use bcars_portal.ChangeRequests.Apply.{
  check_target_version, person_change, apply_item, apply_adapter,
}
use bcars_portal.ChangeRequests.Types.{load_request}
use bcars_portal.ChangeRequests.Review.{
  decide_checked, decide_tx, decide_found, decide_pending, check_policy, check_approval,
  apply_decision, apply_and_mark, amended, advance_request, ignore_missing, assemble_decision,
}
use bcars_portal.Outcome.{Result, ok, err}
use bcars_portal.Store.Tx.{Db, Instant}
use bcars_portal.Batches.Example.{plain_env, start, noon}
use bcars_portal.GoText.Text.{trim_left, trim_right, trim_space}
use bcars_portal.ChangeRequests.Apply.{ApplyResult, apply_person_update, parse_contact_value}
use bcars_portal.ChangeRequests.Types.{item_from, request_from}
use bcars_portal.ChangeRequests.Review.{Decision, decide_item, parse_decision}
use bcars_portal.ChangeRequests.Operations.{
  Operation, decide_operation, withdraw_operation, perform_all,
}
use bcars_portal.ChangeRequests.Types.{Request}
use bcars_portal.ChangeRequests.Status.{withdraw, withdraw_tx, require_user, none_decided}
use bcars_portal.ChangeRequests.Withdrawal.{Withdraws, withdraw-Withdraws}
use bcars_portal.ChangeRequests.Final.{ItemsAge, perform_all-ItemsAge}
use bcars_portal.ChangeRequests.Applied.{Applied, perform_all-Applied}
use bcars_portal.ChangeRequests.Approval.{Approves, decide_item-Approves}
use bcars_portal.ChangeRequests.Renaming.{Renames, apply_person_update-Renames}
use bcars_portal.ChangeRequests.Values.{email, parse_contact_value-append}
use bcars_portal.ChangeRequests.Example.{secretary, name_request, name_item, desk, approval}

-- the item is approved by an officer, and then withdrawn in vain by the member
abbrev review : List (Option Principal × Instant × Operation)
review =
    (secretary, noon, decide_operation 1 1 approval)
    ∷ (some (record { user_id = 9; capabilities = [] }), noon, withdraw_operation 1)
    ∷ []

perform_all-ItemsAge_example : ItemsAge desk (perform_all plain_env review desk)
perform_all-ItemsAge_example = perform_all-ItemsAge plain_env review desk

perform_all-Applied_example : Applied (perform_all plain_env review desk)
perform_all-Applied_example = perform_all-Applied plain_env review desk (refl, tt)

abbrev tables_of : {A : Type 0} → Result (A × Db) → Db
tables_of (ok (a, db)) = db
tables_of (err e) = start

abbrev answer_of : Result (ApplyResult × Db) → ApplyResult
answer_of (ok (out, db)) = out
answer_of (err e) = record { kind = ""; id = 0; version = 0; value = "" }

renamed_ann : Result (ApplyResult × Db)
unfolding apply_person_update
renamed_ann = apply_person_update plain_env secretary (item_from name_item) desk

apply_person_update-Renames_example :
    Renames plain_env (item_from name_item) desk (tables_of renamed_ann)
unfolding renamed_ann item_from ◌>>=◌ or_missing get_person find_by check_target_version is_blank
    person_change change_person authorize by_code or_stale update_person exists_by
apply_person_update-Renames_example =
    apply_person_update-Renames plain_env secretary (item_from name_item) desk
      (tables_of renamed_ann) (answer_of renamed_ann) refl refl refl

parse_contact_value-append_example :
    parse_contact_value plain_env ("email" <> ":" <> "ann") ≡ ok ("email", "ann")
unfolding trim_left trim_right
parse_contact_value-append_example =
    parse_contact_value-append plain_env "email" "ann" email refl (λ e. cc e) refl refl

-- the answer of a decision
abbrev decision_of : Result Decision → Decision
decision_of (ok out) = out
decision_of (err e) = record {
  request = request_from name_request "" [];
  item = item_from name_item;
  applied = false;
  replay = true;
}

decide_item-Approves_example : Approves 7 1 1 approval desk
unfolding parse_decision decide_item decide_checked after in_tx decide_tx ◌>>=◌ or_missing
    get_change_request find_by get_change_request_item decide_found item_from decide_pending
    check_policy check_approval effective_sensitivity can_apply adapter_of
    decide_change_request_item item_checks apply_decision apply_and_mark amended apply_item
    requires_target_id apply_adapter apply_person_update get_person check_target_version is_blank
    person_change change_person authorize by_code or_stale update_person exists_by
    mark_change_request_item_applied count_pending_change_request_items advance_request
    ignore_missing set_change_request_status request_checks assemble_decision load_request
    list_change_request_items select order_by is_sql_blank trim_space update_where
decide_item-Approves_example =
    decide_item-Approves plain_env secretary 1 1 approval noon desk
      (decide_item plain_env secretary 1 1 approval noon desk).1
      (decision_of (decide_item plain_env secretary 1 1 approval noon desk).0) refl refl refl

abbrev requester : Option Principal
requester = some (record { user_id = 9; capabilities = [] })

-- the answer of a withdrawal
abbrev request_of : Result Request → Request
request_of (ok out) = out
request_of (err e) = request_from name_request "" []

withdraw-Withdraws_example : Withdraws 9 1 noon desk (withdraw requester 1 noon desk).1
unfolding withdraw require_user after in_tx withdraw_tx ◌>>=◌ or_missing load_request
    get_change_request find_by list_change_request_items select order_by item_from none_decided
    or_stale set_change_request_status request_checks is_sql_blank update_where
withdraw-Withdraws_example =
    withdraw-Withdraws requester 1 noon desk (withdraw requester 1 noon desk).1
      (request_of (withdraw requester 1 noon desk).0) refl
