-- ===== src/Dues/Tests.antt =====
-- The standing of a member whose dues run out within the warning days.
use bcars_portal.Base.{◌≡◌, refl, false, some, str_eq}
use bcars_portal.GoText.{text_ltb}
use bcars_portal.Dues.Standing.{valid_status, status_of, passes_filter}
use bcars_portal.Dues.StandingLaws.{filter_matches_status}

filter_matches_status_example :
    passes_filter "expiring" false (some "2026-03-31") "2026-03-01" "2026-04-30"
    ≡ str_eq "expiring" (status_of false (some "2026-03-31") "2026-03-01" "2026-04-30")
unfolding valid_status text_ltb
filter_matches_status_example =
    filter_matches_status "expiring" false (some "2026-03-31") "2026-03-01" "2026-04-30" refl refl
