-- ===== src/RateLimit/Bound.antt =====
-- What the log of attempts holds of one caller, over any sequence of attempts.
use bcars_portal.Base.{
  ℕ, ◌+◌, ◌≤◌, ◌<◌, String, ◌≡◌, refl, Bool, true, false, ◌&&◌, Option, none, some, List, [], ◌∷◌,
  arith, str_eq, eq_iff, select, length, if◌then◌else◌, Bool-cases, inl, inr,
}
use bcars_portal.GoText.{text_ltb}
use bcars_portal.Idem.{Env}
use bcars_portal.Store.DirectoryRows.{RequestAttempt}
use bcars_portal.Store.Tx.{Db, null_string}
use bcars_portal.Store.AttemptQueries.{
  from_source, is_text, count_request_attempts_by_source, RecordRequestAttemptParams, new_attempt,
  record_request_attempt,
}
use bcars_portal.RateLimit.{
  Rule, Moment, reached, decide_attempt, attempt, log_attempt, allow, hash_target,
}
use bcars_portal.RateLimit.Order.{text_ge_trans, length-select-≤, length-select-snoc}

-- an attempt of the caller that was let through, no earlier than `start`
abbrev pub granted_to : String → String → String → RequestAttempt → Bool
granted_to operation key start a =
    from_source operation (some key) start a && str_eq a.outcome "allowed"

abbrev pub granted : Rule → String → String → Db → ℕ
granted rule key start db =
    length (select (granted_to rule.operation key start) db.request_attempts)

-- source, target and time of an attempt
abbrev pub Arrival : Type 0
Arrival = String × String × Moment

-- a sequence of attempts under one rule
unfoldable pub attempts : Env → Rule → List Arrival → Db → Db
attempts env rule [] db = db
attempts env rule ((source, target, now) ∷ rest) db =
    attempts env rule rest (allow env rule source target now db).1

-- the windows begin no earlier than `start`, each no earlier than the one before
abbrev pub IsOrdered : Rule → String → List Arrival → Type 0
IsOrdered rule start [] = Unit
IsOrdered rule start ((source, target, now) ∷ rest) =
    (text_ltb (now.before rule.window) start ≡ false) × IsOrdered rule (now.before rule.window) rest

-- where the window of the last attempt begins
abbrev pub last_start : Rule → String → List Arrival → String
last_start rule start [] = start
last_start rule start ((source, target, now) ∷ rest) = last_start rule (now.before rule.window) rest

-- a later window holds no more
granted-later :
    (rule : Rule) (key start later : String) (db : Db)
    → text_ltb later start ≡ false
    → granted rule key later db ≤ granted rule key start db
granted-later rule key start later db h =
    length-select-≤ (granted_to rule.operation key later) (granted_to rule.operation key start)
      (λ a passes. ground (arith, passes, text_ge_trans a.attempted_at later start))
      db.request_attempts

-- the log grows by one row at most
log_attempt-count :
    (p : RequestAttempt → Bool) (arg : RecordRequestAttemptParams) (db : Db)
    → length (select p (log_attempt arg db).request_attempts)
      ≤ length (select p db.request_attempts) + (if p (new_attempt db arg) then 1 else 0)
unfolding log_attempt record_request_attempt
log_attempt-count p arg db =
    ground (arith, length-select-snoc p db.request_attempts (new_attempt db arg))

decide-allowed :
    (rule : Rule) (source target : Option String) (start : String) (db : Db)
    → (decide_attempt rule source target start db).allowed ≡ true
    → reached rule.max_per_source source
        (count_request_attempts_by_source rule.operation source start db)
      ≡ false
unfolding decide_attempt
decide-allowed rule source target start db h = ground arith

-- what was granted to a caller is part of what it attempted
granted-≤-count :
    (rule : Rule) (key start : String) (db : Db)
    → granted rule key start db
      ≤ count_request_attempts_by_source rule.operation (some key) start db
unfolding count_request_attempts_by_source
granted-≤-count rule key start db =
    length-select-≤ (granted_to rule.operation key start)
      (from_source rule.operation (some key) start) (λ a passes. ground (arith, passes))
      db.request_attempts

-- an attempt that was let through belongs to a window that was not full
granted-lt-max :
    (rule : Rule) (key start : String) (source target : Option String) (db : Db)
    → 0 < rule.max_per_source
    → is_text source (some key) ≡ true
    → (decide_attempt rule source target start db).allowed ≡ true
    → granted rule key start db < rule.max_per_source
granted-lt-max rule key start none target db set named allowed = cc named
granted-lt-max rule key start (some k) target db set named allowed = ground (
  arith,
  eq_iff k key,
  granted-≤-count rule k start db,
  decide-allowed rule (some k) target start db,
)

-- a row that counts as granted to a caller is its own, and was let through
granted_to-attempt :
    (rule : Rule) (key start : String) (source target : Option String) (now : Moment)
    (allowed : Bool) (db : Db)
    → granted_to rule.operation key start (new_attempt db (attempt rule source target now allowed))
      ≡ true
    → (is_text source (some key) ≡ true) × (allowed ≡ true)
granted_to-attempt rule key start source target now true db e = (ground arith, refl)
granted_to-attempt rule key start source target now false db e = ground arith

-- the log after a decision keeps a window within the bound
log_attempt-≤-max :
    (rule : Rule) (key start : String) (source target : Option String) (now : Moment) (db : Db)
    → 0 < rule.max_per_source
    → granted rule key start db ≤ rule.max_per_source
    → granted rule key start (
        log_attempt
          (attempt rule source target now (decide_attempt rule source target start db).allowed)
          db)
      ≤ rule.max_per_source
log_attempt-≤-max rule key start source target now db set h =
    let d = (decide_attempt rule source target start db).allowed in
    let row = attempt rule source target now d in
    let grown = log_attempt-count (granted_to rule.operation key start) row db in
    elim (Bool-cases (granted_to rule.operation key start (new_attempt db row))) [
      | inl e ↦
          let (named, allowed) = granted_to-attempt rule key start source target now d db e in
          ground (arith, grown, granted-lt-max rule key start source target db set named allowed)
      | inr e ↦ ground (arith, grown)
    ]

-- one attempt keeps the window within its bound
allow-≤-max :
    (env : Env) (rule : Rule) (key start source target : String) (now : Moment) (db : Db)
    → 0 < rule.max_per_source
    → text_ltb (now.before rule.window) start ≡ false
    → granted rule key start db ≤ rule.max_per_source
    → granted rule key (now.before rule.window) (allow env rule source target now db).1
      ≤ rule.max_per_source
unfolding allow
allow-≤-max env rule key start source target now db set later h =
    log_attempt-≤-max rule key (now.before rule.window) (null_string source)
      (hash_target env target) now db set
      (omega (arith, granted-later rule key start (now.before rule.window) db later))

-- Where the bound per source is set, and the log keeps to it in the window that begins at `start`, the
-- log keeps to it after any sequence of attempts in the window of the last one, provided that each
-- window begins no earlier, as a text, than the one before.
pub attempts-≤-max :
    (env : Env) (rule : Rule) (key start : String) (arrivals : List Arrival) (db : Db)
    → 0 < rule.max_per_source
    → IsOrdered rule start arrivals
    → granted rule key start db ≤ rule.max_per_source
    → granted rule key (last_start rule start arrivals) (attempts env rule arrivals db)
      ≤ rule.max_per_source
unfolding attempts
attempts-≤-max env rule key start [] db set ordered h = h
attempts-≤-max env rule key start ((source, target, now) ∷ rest) db set (later, ordered) h =
    attempts-≤-max env rule key (now.before rule.window) rest
      (allow env rule source target now db).1 set ordered
      (allow-≤-max env rule key start source target now db set later h)
