-- ===== src/Dues/Standing.antt =====
-- Derived standing: the CASE expression and the status filter of ListDuesStanding
-- (internal/db/sqlc/dues.sql.go), and `validStatus`.
use bcars_portal.Base.{
  String, Bool, true, false, ◌&&◌, ◌||◌, not, Option, none, some, str_eq, if◌then◌else◌,
}
use bcars_portal.GoText.{text_ltb}

abbrev pub status_honorary_waived : String
status_honorary_waived = "honorary_waived"

abbrev pub status_current : String
status_current = "current"

abbrev pub status_expiring : String
status_expiring = "expiring"

abbrev pub status_expired : String
status_expired = "expired"

abbrev pub status_unknown : String
status_unknown = "unknown"

-- `validStatus`
unfoldable pub valid_status : String → Bool
valid_status s =
    str_eq s status_honorary_waived
    || str_eq s status_current
    || str_eq s status_expiring
    || str_eq s status_expired
    || str_eq s status_unknown

abbrev pub text_leb : String → String → Bool
text_leb a b = not (text_ltb b a)

-- the CASE expression, from whether a waiver is active, the effective paid-through, and the two dates
unfoldable pub status_of : Bool → Option String → String → String → String
status_of true paid_through as_of warn = status_honorary_waived
status_of false none as_of warn = status_unknown
status_of false (some d) as_of warn =
    if text_ltb d as_of
    then status_expired
    else if text_leb d warn
    then status_expiring
    else status_current

-- a comparison with NULL is not true
abbrev on_date : (String → Bool) → Option String → Bool
on_date p none = false
on_date p (some d) = p d

abbrev is_null : Option String → Bool
is_null none = true
is_null (some d) = false

-- the status filter of the WHERE clause
unfoldable pub passes_filter : String → Bool → Option String → String → String → Bool
passes_filter filter waived paid_through as_of warn =
    str_eq filter ""
    || (str_eq filter status_honorary_waived && waived)
    || (str_eq filter status_unknown && not waived && is_null paid_through)
    || (str_eq filter status_expired && not waived && on_date (λ d. text_ltb d as_of) paid_through)
    || (str_eq filter status_expiring
        && not waived
        && on_date (λ d. text_leb as_of d && text_leb d warn) paid_through)
    || (str_eq filter status_current && not waived && on_date (λ d. text_ltb warn d) paid_through)
