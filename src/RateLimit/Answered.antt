-- ===== src/RateLimit/Answered.antt =====
-- How often the limiter answers one caller that it is let through.
use bcars_portal.Base.{
  ℕ, ◌+◌, ◌≤◌, ◌<◌, String, ◌≡◌, Bool, true, false, ◌&&◌, not, some, List, [], ◌∷◌, arith, str_eq,
  eq_iff, if◌then◌else◌, Option,
}
use bcars_portal.GoText.{text_ltb, is_sql_blank}
use bcars_portal.Idem.{Env}
use bcars_portal.Store.Tx.{Db, null_string}
use bcars_portal.Store.AttemptQueries.{is_text, new_attempt, record_request_attempt, attempt_checks}
use bcars_portal.RateLimit.{Rule, Moment, decide_attempt, attempt, log_attempt, allow, hash_target}
use bcars_portal.RateLimit.Order.{length-select-snoc}
use bcars_portal.RateLimit.Bound.{
  granted_to, granted, Arrival, attempts, IsOrdered, last_start, attempts-≤-max,
}

-- an attempt of the caller, at `start` or later, that is answered with "allowed"
abbrev is_let_through : Env → Rule → String → String → Arrival → Db → Bool
is_let_through env rule key start (source, target, now) db =
    str_eq source key
    && (allow env rule source target now db).0.allowed
    && not (text_ltb now.stamp start)

-- how many attempts of a sequence the caller is let through, at `start` or later
unfoldable pub answered : Env → Rule → String → String → List Arrival → Db → ℕ
answered env rule key start [] db = 0
answered env rule key start ((source, target, now) ∷ rest) db =
    (if is_let_through env rule key start (source, target, now) db then 1 else 0)
    + answered env rule key start rest (allow env rule source target now db).1

-- the key of a caller is the text that it was given as
source-key :
    (source key : String)
    → str_eq key "" ≡ false
    → is_text (null_string source) (some key) ≡ str_eq source key
source-key source key named = ground (arith, eq_iff source "", eq_iff key "", eq_iff source key)

-- every decision is logged, where the operation has a name
log_attempt-granted :
    (rule : Rule) (key start : String) (source target : Option String) (now : Moment)
    (allowed : Bool) (db : Db)
    → is_sql_blank rule.operation ≡ false
    → granted rule key start (log_attempt (attempt rule source target now allowed) db)
      ≡ granted rule key start db
        + (if is_text source (some key) && allowed && not (text_ltb now.stamp start) then 1 else 0)
unfolding log_attempt record_request_attempt attempt_checks
log_attempt-granted rule key start source target now true db named = ground (
  arith,
  eq_iff rule.operation rule.operation,
  length-select-snoc (granted_to rule.operation key start) db.request_attempts
      (new_attempt db (attempt rule source target now true)),
)
log_attempt-granted rule key start source target now false db named = ground (
  arith,
  length-select-snoc (granted_to rule.operation key start) db.request_attempts
      (new_attempt db (attempt rule source target now false)),
)

-- one attempt more
allow-granted :
    (env : Env) (rule : Rule) (key start source target : String) (now : Moment) (db : Db)
    → is_sql_blank rule.operation ≡ false
    → str_eq key "" ≡ false
    → granted rule key start (allow env rule source target now db).1
      ≡ granted rule key start db
        + (if is_let_through env rule key start (source, target, now) db then 1 else 0)
unfolding allow
allow-granted env rule key start source target now db named keyed =
    let decision =
      decide_attempt rule (null_string source) (hash_target env target) (now.before rule.window)
        db in
    rw (← source-key source key keyed) (
      log_attempt-granted rule key start (null_string source) (hash_target env target) now
        decision.allowed db named)

-- the log counts what was answered
attempts-granted :
    (env : Env) (rule : Rule) (key start : String) (arrivals : List Arrival) (db : Db)
    → is_sql_blank rule.operation ≡ false
    → str_eq key "" ≡ false
    → granted rule key start (attempts env rule arrivals db)
      ≡ granted rule key start db + answered env rule key start arrivals db
unfolding attempts answered
attempts-granted env rule key start [] db named keyed = omega arith
attempts-granted env rule key start ((source, target, now) ∷ rest) db named keyed =
    let one = allow-granted env rule key start source target now db named keyed in
    let more =
      attempts-granted env rule key start rest (allow env rule source target now db).1 named
        keyed in
    omega (arith, one, more)

-- No caller is let through more often than the rule's bound within any window: where the rule names
-- its operation and bounds a source, the caller has a key, and the log holds no more grants to it than
-- the bound since `start`, then in any sequence of attempts, of any callers at any targets, the
-- attempts of the caller that Allow answers with "allowed" within the window of the last attempt, and
-- those that the log already held of it, are together no more than the bound, provided that each
-- window begins no earlier, as a text, than the one before, and the first no earlier than `start`.
pub answered-≤-max :
    (env : Env) (rule : Rule) (key start : String) (arrivals : List Arrival) (db : Db)
    → is_sql_blank rule.operation ≡ false
    → str_eq key "" ≡ false
    → 0 < rule.max_per_source
    → IsOrdered rule start arrivals
    → granted rule key start db ≤ rule.max_per_source
    → granted rule key (last_start rule start arrivals) db
        + answered env rule key (last_start rule start arrivals) arrivals db
      ≤ rule.max_per_source
answered-≤-max env rule key start arrivals db named keyed set ordered h = omega (
  arith,
  attempts-≤-max env rule key start arrivals db set ordered h,
  attempts-granted env rule key (last_start rule start arrivals) arrivals db named keyed,
)
