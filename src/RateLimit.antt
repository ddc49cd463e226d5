-- ===== src/RateLimit.antt =====
-- internal/ratelimit/ratelimit.go: how often an unauthenticated operation may be invoked. A count that
-- fails lets the request through; the statements of the model do not fail.
pub mod Order
pub mod Bound
pub mod Answered
pub mod Tests
use bcars_portal.Base.{
  ℕ, String, Bool, true, false, not, ◌&&◌, Option, none, some, List, [], ◌∷◌, str_eq, ltb, leb,
  if◌then◌else◌,
}
use bcars_portal.GoText.Text.{trim_space}
use bcars_portal.Outcome.{ok, err}
use bcars_portal.Idem.{Env}
use bcars_portal.Store.Tx.{Db, null_string}
use bcars_portal.Store.AttemptQueries.{
  count_request_attempts_by_source, count_request_attempts_by_target, RecordRequestAttemptParams,
  record_request_attempt, delete_request_attempts_before,
}

-- `Rule`; the window is a number of nanoseconds
pub record Rule : Type 0 where
  pub operation : String
  pub window : ℕ
  pub max_per_source : ℕ
  pub max_per_target : ℕ

-- what the limiter reads of its clock: the text of the current time under RFC3339Nano, and that of
-- the time a duration before it
pub record Moment : Type 0 where
  pub stamp : String
  pub before : ℕ → String

pub record Decision : Type 0 where
  pub allowed : Bool
  pub reason : String

-- `NormalizeTarget`
unfoldable pub normalize_target : Env → String → String
normalize_target env target = env.to_lower (trim_space target)

-- `hashTarget`; the digest itself is a parameter
unfoldable pub hash_target : Env → String → Option String
hash_target env target =
    let norm = normalize_target env target in
    if str_eq norm "" then none else some (env.hmac_target norm)

abbrev pub is_valid : Option String → Bool
is_valid none = false
is_valid (some s) = true

-- a bound that is set and reached; zero disables it, and so does an absent key
abbrev pub reached : ℕ → Option String → ℕ → Bool
reached bound key n = ltb 0 bound && is_valid key && leb bound n

-- the two tests of `Allow`, the second only where the first lets the attempt through
unfoldable pub decide_attempt : Rule → Option String → Option String → String → Db → Decision
decide_attempt rule source target start db =
    if reached rule.max_per_source source
      (count_request_attempts_by_source rule.operation source start db)
    then record { allowed = false; reason = "source" }
    else if reached rule.max_per_target target
        (count_request_attempts_by_target rule.operation target start db)
    then record { allowed = false; reason = "target" }
    else record { allowed = true; reason = "" }

abbrev pub outcome_of : Bool → String
outcome_of true = "allowed"
outcome_of false = "limited"

abbrev pub attempt :
    Rule → Option String → Option String → Moment → Bool → RecordRequestAttemptParams
attempt rule source target now allowed = record {
  operation = rule.operation;
  source_hash = source;
  target_hash = target;
  outcome = outcome_of allowed;
  attempted_at = now.stamp;
}

-- `_, _ = l.q.RecordRequestAttempt(…)`
unfoldable pub log_attempt : RecordRequestAttemptParams → Db → Db
log_attempt arg db = elim (record_request_attempt arg db) [ ok (a, db') ↦ db' | err e ↦ db ]

-- `Allow`, for a limiter that is not nil: the answer and the tables afterwards
unfoldable pub allow : Env → Rule → String → String → Moment → Db → Decision × Db
allow env rule source_hash target now db =
    let source = null_string source_hash in
    let target_hash = hash_target env target in
    let decision = decide_attempt rule source target_hash (now.before rule.window) db in
    (decision, log_attempt (attempt rule source target_hash now decision.allowed) db)

-- `Prune`
unfoldable pub prune : Moment → ℕ → Db → Db
prune now older_than db = delete_request_attempts_before (now.before older_than) db
