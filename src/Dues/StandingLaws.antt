-- ===== src/Dues/StandingLaws.antt =====
-- The status filter and the CASE expression agree.
use bcars_portal.Base.{
  String, ◌≡◌, refl, Bool, true, false, Option, none, some, arith, str_eq, eq_iff,
}
use bcars_portal.GoText.{text_ltb}
use bcars_portal.Dues.Standing.{valid_status, status_of, passes_filter}

-- `<` on texts is transitive in the form that is needed: d < a ≤ w gives d < w
text_lt_le : (d a w : String) → text_ltb d a ≡ true → text_ltb w a ≡ false → text_ltb w d ≡ false
unfolding text_ltb
text_lt_le String.[] String.[] w h k = cc
text_lt_le String.[] (String.◌∷◌ y a) String.[] h k = refl
text_lt_le String.[] (String.◌∷◌ y a) (String.◌∷◌ z w) h k = refl
text_lt_le (String.◌∷◌ x d) String.[] w h k = cc
text_lt_le (String.◌∷◌ x d) (String.◌∷◌ y a) String.[] h k = cc
text_lt_le (String.◌∷◌ x d) (String.◌∷◌ y a) (String.◌∷◌ z w) h k = ground (arith, text_lt_le d a w)

-- For dates with the as-of date no later than the warning date, and for each of the five statuses, a
-- row passes the filter for a status exactly when it is the row's status.
pub filter_matches_status :
    (filter : String) (waived : Bool) (paid_through : Option String) (as_of warn : String)
    → valid_status filter ≡ true
    → text_ltb warn as_of ≡ false
    → passes_filter filter waived paid_through as_of warn
      ≡ str_eq filter (status_of waived paid_through as_of warn)
unfolding valid_status passes_filter status_of
filter_matches_status filter true paid_through as_of warn h k = ground (
  arith,
  eq_iff filter "",
  eq_iff filter "honorary_waived",
  eq_iff filter "current",
  eq_iff filter "expiring",
  eq_iff filter "expired",
  eq_iff filter "unknown",
  eq_iff "" "honorary_waived",
  eq_iff "" "current",
  eq_iff "" "expiring",
  eq_iff "" "expired",
  eq_iff "" "unknown",
  eq_iff "honorary_waived" "current",
  eq_iff "honorary_waived" "expiring",
  eq_iff "honorary_waived" "expired",
  eq_iff "honorary_waived" "unknown",
  eq_iff "current" "expiring",
  eq_iff "current" "expired",
  eq_iff "current" "unknown",
  eq_iff "expiring" "expired",
  eq_iff "expiring" "unknown",
  eq_iff "expired" "unknown",
)
filter_matches_status filter false none as_of warn h k = ground (
  arith,
  eq_iff filter "",
  eq_iff filter "honorary_waived",
  eq_iff filter "current",
  eq_iff filter "expiring",
  eq_iff filter "expired",
  eq_iff filter "unknown",
  eq_iff "" "honorary_waived",
  eq_iff "" "current",
  eq_iff "" "expiring",
  eq_iff "" "expired",
  eq_iff "" "unknown",
  eq_iff "honorary_waived" "current",
  eq_iff "honorary_waived" "expiring",
  eq_iff "honorary_waived" "expired",
  eq_iff "honorary_waived" "unknown",
  eq_iff "current" "expiring",
  eq_iff "current" "expired",
  eq_iff "current" "unknown",
  eq_iff "expiring" "expired",
  eq_iff "expiring" "unknown",
  eq_iff "expired" "unknown",
)
filter_matches_status filter false (some d) as_of warn h k = ground (
  arith,
  text_lt_le d as_of warn,
  eq_iff filter "",
  eq_iff filter "honorary_waived",
  eq_iff filter "current",
  eq_iff filter "expiring",
  eq_iff filter "expired",
  eq_iff filter "unknown",
  eq_iff "" "honorary_waived",
  eq_iff "" "current",
  eq_iff "" "expiring",
  eq_iff "" "expired",
  eq_iff "" "unknown",
  eq_iff "honorary_waived" "current",
  eq_iff "honorary_waived" "expiring",
  eq_iff "honorary_waived" "expired",
  eq_iff "honorary_waived" "unknown",
  eq_iff "current" "expiring",
  eq_iff "current" "expired",
  eq_iff "current" "unknown",
  eq_iff "expiring" "expired",
  eq_iff "expiring" "unknown",
  eq_iff "expired" "unknown",
)
