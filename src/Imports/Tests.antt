-- ===== src/Imports/Tests.antt =====
-- A lifetime row and a dated row for the members of Batches/Example.antt.
use bcars_portal.Base.{◌≡◌, refl, false, true, exists_by, select, order_by}
use bcars_portal.Outcome.{Result, ok, err}
use bcars_portal.Store.Tx.{Db, ◌>>=◌, next_id}
use bcars_portal.Batches.Example.{start, noon}
use bcars_portal.Base.{insert_by, max_of}
use bcars_portal.GoText.{text_ltb}
use bcars_portal.GoText.Dates.{is_iso_date, is_date_glob}
use bcars_portal.Store.GrantQueries.{create_honorary_grant}
use bcars_portal.Store.CoverageQueries.{
  create_coverage_event, event_checks, event_references, event_unique, get_effective_coverage_event,
}
use bcars_portal.Base.{str_eq, if◌then◌else◌}
use bcars_portal.Idem.{Env}
use bcars_portal.GoText.Text.{trim_space}
use bcars_portal.Batches.Example.{plain_env}
use bcars_portal.Imports.Normalize.{
  RawRecord, known_lifetime, normalize, normalize_membership_type, normalize_current_until,
}
use bcars_portal.Imports.Lifetime.{normalize-lifetime}
use bcars_portal.Imports.Dues.{
  NormalizedRecord, DecisionPayload, apply_dues_decisions, record_lifetime, is_lifetime_honorary,
  ensure_lifetime_grant, list_honorary_grants, record_date, coverage_date_for,
  ensure_import_coverage, unless_found, find_import_coverage_event, append_import,
}
use bcars_portal.Imports.Reimport.{apply_dues_decisions-again}

abbrev dated_row : NormalizedRecord
dated_row = record {
  external_id = "17";
  display_name = "Ann";
  sort_name = "ann";
  call_sign = "";
  current_until = "2026-12-31";
  current_until_flag = "";
  note = "";
  membership_type = "Full";
  base_type = "full";
  license_class = "";
  phone = "";
  phone_valid = true;
  email = "";
  street_address = "";
  city = "";
  postal_code = "";
  state_province = "";
  volunteer_examiner = false;
  requires_manual = false;
  manual_reason = "";
}

abbrev lifetime_too : DecisionPayload
lifetime_too = record {
  base_type = "";
  honorary = "lifetime";
  coverage = "";
  paid_through = "2026-12-31";
}

abbrev tables_of : {A : Type 0} → Result (A × Db) → Db
tables_of (ok (a, db)) = db
tables_of (err e) = start

imported : Result (Unit {0} × Db)
imported = apply_dues_decisions 1 dated_row lifetime_too 3 7 noon start

apply_dues_decisions-again_example :
    apply_dues_decisions 1 dated_row lifetime_too 4 8 noon (tables_of imported)
    ≡ ok (tt, tables_of imported)
unfolding imported apply_dues_decisions ◌>>=◌ record_lifetime is_lifetime_honorary
    ensure_lifetime_grant exists_by list_honorary_grants order_by select create_honorary_grant
    record_date coverage_date_for is_iso_date ensure_import_coverage unless_found
    find_import_coverage_event append_import insert_by max_of is_date_glob text_ltb
    create_coverage_event event_checks event_references event_unique get_effective_coverage_event
    next_id
apply_dues_decisions-again_example =
    apply_dues_decisions-again 1 dated_row lifetime_too 3 7 noon start (tables_of imported) tt 4 8
      noon refl

abbrev known_row : RawRecord
known_row = record {
  external_id = "900001";
  contact_name = "Ann Bell";
  call_sign = "";
  current_until = "12/31/2055";
  note = "";
  membership_type = "Honorary";
  license = "";
  phone = "";
  email = "";
  street_address = "";
  city = "";
  postal_code = "";
  state_province = "";
  volunteer_examiner = "";
}

abbrev no_word : DecisionPayload
no_word = record { base_type = ""; honorary = ""; coverage = ""; paid_through = "" }

-- ToLower of the one text that matters here
abbrev lower_env : Env
lower_env = record plain_env { to_lower = λ s. if str_eq s "Honorary" then "honorary" else s }

normalize-lifetime_example :
    (known_lifetime "900001" ≡ true)
    × (str_eq (trim_space "12/31/2055") "12/31/2055" ≡ true)
    × ((normalize lower_env (λ c. false) known_row).base_type ≡ "associate")
    × (coverage_date_for (normalize lower_env (λ c. false) known_row) no_word true ≡ "")
unfolding normalize is_lifetime_honorary normalize_membership_type normalize_current_until
    trim_space
normalize-lifetime_example =
    normalize-lifetime lower_env (λ c. false) known_row no_word refl refl refl
