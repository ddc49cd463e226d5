-- ===== src/GoText/Tests.antt =====
-- The text functions at inputs that can be followed in the source.
use bcars_portal.Base.{◌≡◌, refl, true, false}
use bcars_portal.Base.Int.{pos, negsuc}
use bcars_portal.GoText.{is_blank, is_sql_blank, format_int, format_padded, text_ltb}
use bcars_portal.GoText.Dates.{is_iso_date, is_date_glob}

format_int_values :
    (format_int (pos 0) ≡ "0") × (format_int (negsuc 40) ≡ "-41") × (format_int (pos 9071) ≡ "9071")
unfolding format_int
format_int_values = (refl, refl, refl)

format_padded_values : (format_padded 3 7 ≡ "007") × (format_padded 3 4321 ≡ "4321")
unfolding format_padded
format_padded_values = (refl, refl)

blank_texts : (is_blank " " ≡ true) × (is_blank " a" ≡ false) × (is_sql_blank " " ≡ true)
unfolding is_blank is_sql_blank
blank_texts = (refl, refl, refl)

date_texts :
    (is_iso_date "2026-02-29" ≡ false)
    × (is_iso_date "2024-02-29" ≡ true)
    × (is_date_glob "2026-02-29" ≡ true)
    × (is_iso_date "2026-2-9" ≡ false)
unfolding is_iso_date is_date_glob
date_texts = (refl, refl, refl, refl)

order_of_texts : (text_ltb "2026-01-31" "2026-02-01" ≡ true) × (text_ltb "b" "a" ≡ false)
unfolding text_ltb
order_of_texts = (refl, refl)
