-- ===== src/Store/AttemptQueries.antt =====
-- internal/db/sqlc/request_attempts.sql.go: the log of rate-limited attempts.
use bcars_portal.Base.{
  ℕ, String, Bool, false, not, ◌&&◌, ◌||◌, Option, none, some, [], ◌∷◌, ◌++◌, str_eq, select,
  length, delete_where, if◌then◌else◌,
}
use bcars_portal.GoText.{text_ltb, is_sql_blank}
use bcars_portal.Outcome.{ok, err, check_failed}
use bcars_portal.Store.DirectoryRows.{RequestAttempt}
use bcars_portal.Store.Tx.{Db, Tx, next_id}

-- `column = ?`, which a null column or a null argument does not pass
abbrev pub is_text : Option String → Option String → Bool
is_text none t = false
is_text (some s) none = false
is_text (some s) (some t) = str_eq s t

-- `attempted_at >= ?`
abbrev pub since : String → RequestAttempt → Bool
since start a = not (text_ltb a.attempted_at start)

abbrev pub from_source : String → Option String → String → RequestAttempt → Bool
from_source operation source start a =
    str_eq a.operation operation && is_text a.source_hash source && since start a

abbrev pub at_target : String → Option String → String → RequestAttempt → Bool
at_target operation target start a =
    str_eq a.operation operation && is_text a.target_hash target && since start a

-- CountRequestAttemptsBySource
unfoldable pub count_request_attempts_by_source : String → Option String → String → Db → ℕ
count_request_attempts_by_source operation source start db =
    length (select (from_source operation source start) db.request_attempts)

-- CountRequestAttemptsByTarget
unfoldable pub count_request_attempts_by_target : String → Option String → String → Db → ℕ
count_request_attempts_by_target operation target start db =
    length (select (at_target operation target start) db.request_attempts)

pub record RecordRequestAttemptParams : Type 0 where
  pub operation : String
  pub source_hash : Option String
  pub target_hash : Option String
  pub outcome : String
  pub attempted_at : String

abbrev pub new_attempt : Db → RecordRequestAttemptParams → RequestAttempt
new_attempt db arg = record {
  id = next_id (λ a. a.id) db.request_attempts;
  operation = arg.operation;
  source_hash = arg.source_hash;
  target_hash = arg.target_hash;
  outcome = arg.outcome;
  attempted_at = arg.attempted_at;
  created_at = db.clock.iso_timestamp;
}

-- the CHECK constraints of request_attempts
unfoldable pub attempt_checks : RecordRequestAttemptParams → Bool
attempt_checks arg =
    not (is_sql_blank arg.operation)
    && (str_eq arg.outcome "allowed" || str_eq arg.outcome "limited")

-- RecordRequestAttempt
unfoldable pub record_request_attempt : RecordRequestAttemptParams → Tx RequestAttempt
record_request_attempt arg db =
    if attempt_checks arg
    then ok (
      new_attempt db arg,
      record db { request_attempts = db.request_attempts ++ new_attempt db arg ∷ [] },
    )
    else err check_failed

-- DeleteRequestAttemptsBefore
unfoldable pub delete_request_attempts_before : String → Db → Db
delete_request_attempts_before cutoff db = record db {
  request_attempts = delete_where (λ a. text_ltb a.attempted_at cutoff) db.request_attempts;
}
