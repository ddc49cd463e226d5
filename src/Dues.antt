-- ===== src/Dues.antt =====
-- internal/domain/dues/service.go: coverage decisions, dues rates, suggestions and derived standing.
pub mod Standing
pub mod StandingLaws
pub mod Tests
pub mod Suggestions
use bcars_portal.Base.{ℕ, String, Bool, true, false, not, Option, none, some, ◌==◌, if◌then◌else◌}
use bcars_portal.Base.Int.{ℤ, is_neg}
use bcars_portal.GoText.{is_blank}
use bcars_portal.GoText.Dates.{is_iso_date}
use bcars_portal.Outcome.{
  Error, ok, err, guard, no_rows, stale, unique_failed, reason_required, invalid_date, rate_exists,
  negative_rate,
}
use bcars_portal.Authz.{Principal, authorize, user_id_of}
use bcars_portal.Store.Rows.{CoverageEvent, DuesRate, reason_adjustment}
use bcars_portal.Store.Tx.{
  Instant, Db, Tx, Action, pure, fail, gets, ◌>>=◌, ◌>>◌, in_tx, read_only, after, or_clock,
  null_string,
}
use bcars_portal.Store.BatchQueries.{get_membership}
use bcars_portal.Store.CoverageQueries.{create_coverage_event, get_effective_coverage_event}
use bcars_portal.Store.DuesQueries.{
  DuesRateParams, get_dues_rate, list_dues_rates, insert_dues_rate, update_dues_rate,
}

abbrev pub event_id : Option CoverageEvent → Option ℕ
event_id none = none
event_id (some c) = some c.id

-- `if isUniqueViolation(err) { return e }`
abbrev pub if_unique : Error → Error → Error
if_unique e unique_failed = e
if_unique e x = x

unfoldable pub unique_as : {A : Type 0} → Error → Tx A → Tx A
unique_as e m db = elim (m db) [ ok r ↦ ok r | err x ↦ err (if_unique e x) ]

-- `AdjustCoverage`; the membership is looked up just before the transaction
unfoldable pub adjust_coverage :
    Option Principal → ℕ → String → String → Option Instant → Action CoverageEvent
adjust_coverage p membership_id paid_through reason now = after (authorize p "coverage.adjust") (
    after (guard (not (is_blank reason)) reason_required) (
      after (guard (is_iso_date paid_through) invalid_date) (
        in_tx (do
          get_membership membership_id
          t ← gets (or_clock now)
          prior ← get_effective_coverage_event membership_id
          unique_as stale (
              create_coverage_event (record {
                membership_id = membership_id;
                paid_through = paid_through;
                reason_kind = reason_adjustment;
                reason = some reason;
                payment_id = none;
                import_run_id = none;
                supersedes_event_id = event_id prior;
                source_note = none;
                decided_by = (if user_id_of p == 0 then none else some (user_id_of p));
                decided_at = t.iso_timestamp;
              }))))))

-- `GetRate`
unfoldable pub get_rate : Option Principal → ℕ → Action DuesRate
get_rate p year = after (authorize p "dues.read") (read_only (get_dues_rate year))

-- after an update that changed no row: an unknown year, or a stale version
abbrev pub missing_or_stale : ℕ → Tx DuesRate → Tx DuesRate
missing_or_stale year m db = elim (m db) [
  | ok r ↦ ok r
  | err no_rows ↦ (do get_dues_rate year; fail stale) db
  | err x ↦ err x
]

-- `SetRate`: version 0 creates, any other revises
unfoldable pub set_rate : Option Principal → ℕ → ℤ → String → ℕ → Option Instant → Action DuesRate
set_rate p year amount note expected_version now = after (authorize p "dues.rate.manage") (
    after (guard (not (is_neg amount)) negative_rate) (
      in_tx (do
        t ← gets (or_clock now)
        let arg : DuesRateParams = record {
          year = year;
          amount_cents = amount;
          note = null_string note;
          set_by = user_id_of p;
          set_at = t.iso_timestamp;
        }
        if expected_version == 0
            then unique_as rate_exists (insert_dues_rate arg)
            else missing_or_stale year (update_dues_rate arg expected_version))))
