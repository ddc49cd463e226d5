-- ===== src/RateLimit/Tests.antt =====
-- Two attempts of one caller under a rule that lets one through.
use bcars_portal.Base.{◌+◌, ◌≡◌, ◌≤◌, List, [], ◌∷◌, refl, arith, select}
use bcars_portal.GoText.{text_ltb, is_sql_blank}
use bcars_portal.RateLimit.{Rule, Moment, allow, decide_attempt, log_attempt}
use bcars_portal.Store.AttemptQueries.{
  count_request_attempts_by_source, record_request_attempt, attempt_checks,
}
use bcars_portal.RateLimit.Bound.{Arrival, granted, last_start}
use bcars_portal.RateLimit.Answered.{answered, answered-≤-max}
use bcars_portal.Batches.Example.{plain_env, start}

abbrev one_an_hour : Rule
one_an_hour = record {
  operation = "recovery";
  window = 3600000000000;
  max_per_source = 1;
  max_per_target = 0;
}

abbrev noon_hour : Moment
noon_hour = record { stamp = "2026-03-01T12:00:00Z"; before = λ d. "2026-03-01T11:00:00Z" }

abbrev two_attempts : List Arrival
two_attempts = ("k", "a", noon_hour) ∷ ("k", "b", noon_hour) ∷ []

-- The first attempt is let through, and the second is not.
answered-once : answered plain_env one_an_hour "k" "2026-03-01T11:00:00Z" two_attempts start ≡ 1
unfolding answered allow decide_attempt count_request_attempts_by_source select text_ltb log_attempt
    record_request_attempt attempt_checks is_sql_blank
answered-once = refl

answered-≤-max_example :
    granted one_an_hour "k" (last_start one_an_hour "2026-03-01T11:00:00Z" two_attempts) start
      + answered plain_env one_an_hour "k"
          (last_start one_an_hour "2026-03-01T11:00:00Z" two_attempts)
          two_attempts
          start
    ≤ 1
unfolding text_ltb is_sql_blank
answered-≤-max_example =
    answered-≤-max plain_env one_an_hour "k" "2026-03-01T11:00:00Z" two_attempts start refl refl
      (omega arith) (refl, (refl, tt)) (unfold select in omega arith)
