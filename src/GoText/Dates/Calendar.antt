-- ===== src/GoText/Dates/Calendar.antt =====
-- The dates of the calendar, told apart from how `time.Parse` reads them.
use bcars_portal.Base.{
  ℕ, ◌+◌, ◌-◌, ◌*◌, ◌%◌, ◌≤◌, ◌<◌, String, Bool, true, ◌&&◌, List, [], ◌∷◌, leb, ◌≡◌, ◌≢◌, ◌⊎◌, ◌↔◌,
  refl, ◌∙◌, arith,
}
use bcars_portal.GoText.Dates.{
  code_list, shape, is_digit, glob_shape, is_leap, days_in, in_calendar, two, is_iso_date,
}

-- the years of the Gregorian calendar with a 29th of February
abbrev Leap : ℕ → Type 0
Leap year = ((year % 4 ≡ 0) × (year % 100 ≢ 0)) ⊎ (year % 400 ≡ 0)

-- the months of 31 days
abbrev Long : ℕ → Type 0
Long month =
    (month ≡ 1)
    ⊎ ((month ≡ 3) ⊎ ((month ≡ 5) ⊎ ((month ≡ 7) ⊎ ((month ≡ 8) ⊎ ((month ≡ 10) ⊎ (month ≡ 12))))))

-- the days of a month: 28 in each, and up to three more
abbrev DayOf : ℕ → ℕ → ℕ → Type 0
DayOf year month day =
    (day ≤ 28)
    ⊎ (((day ≡ 29) × ((month ≢ 2) ⊎ Leap year))
        ⊎ (((day ≡ 30) × (month ≢ 2)) ⊎ ((day ≡ 31) × Long month)))

-- a day of the calendar
pub record OnCalendar (year month day : ℕ) : Type 0 where
  pub from_january : 1 ≤ month
  pub to_december : month ≤ 12
  pub from_first : 1 ≤ day
  pub day_of : DayOf year month day

abbrev range : ℕ → ℕ → ℕ → Bool
range year month day = leb 1 month && leb month 12 && leb 1 day && leb day (days_in month year)

range→OnCalendar : (y m d : ℕ) → range y m d ≡ true → OnCalendar y m d
unfolding days_in is_leap
range→OnCalendar y m d h = record {
  from_january = ground arith;
  to_december = ground arith;
  from_first = ground arith;
  day_of = ground arith;
}

OnCalendar→range : (y m d : ℕ) → OnCalendar y m d → range y m d ≡ true
unfolding days_in is_leap
OnCalendar→range y m d h = ground (arith, h.from_january, h.to_december, h.from_first, h.day_of)

-- the code of a digit
abbrev digit : ℕ → ℕ
digit n = 48 + n

-- ten characters, of which eight are digits and two are dashes
abbrev written : ℕ → ℕ → ℕ → ℕ → ℕ → ℕ → ℕ → ℕ → List ℕ
written y1 y2 y3 y4 m1 m2 d1 d2 =
    digit y1
    ∷ digit y2
    ∷ digit y3
    ∷ digit y4
    ∷ 45
    ∷ digit m1
    ∷ digit m2
    ∷ 45
    ∷ digit d1
    ∷ digit d2
    ∷ []

-- a text YYYY-MM-DD whose digits are those of a day of the calendar
pub record IsDate (s : String) : Type 0 where
  pub y1 : ℕ
  pub y2 : ℕ
  pub y3 : ℕ
  pub y4 : ℕ
  pub m1 : ℕ
  pub m2 : ℕ
  pub d1 : ℕ
  pub d2 : ℕ
  pub digits :
      (y1 < 10) × (y2 < 10) × (y3 < 10) × (y4 < 10) × (m1 < 10) × (m2 < 10) × (d1 < 10) × (d2 < 10)
  pub text : code_list s ≡ written y1 y2 y3 y4 m1 m2 d1 d2
  pub calendar : OnCalendar (y1 * 1000 + y2 * 100 + y3 * 10 + y4) (m1 * 10 + m2) (d1 * 10 + d2)

abbrev accepts : List ℕ → Bool
accepts l = glob_shape (shape l) && in_calendar (shape l)

-- what the pattern asks of ten codes
record Pattern (a b c d e f g h i j : ℕ) : Type 0 where
  pub year : (is_digit a ≡ true) × (is_digit b ≡ true) × (is_digit c ≡ true) × (is_digit d ≡ true)
  pub month : (is_digit f ≡ true) × (is_digit g ≡ true)
  pub day : (is_digit i ≡ true) × (is_digit j ≡ true)
  pub dashes : (e ≡ 45) × (h ≡ 45)
  pub range : range (two a b * 100 + two c d) (two f g) (two i j) ≡ true

accepts→Pattern :
    (a b c d e f g h i j : ℕ)
    → accepts (a ∷ b ∷ c ∷ d ∷ e ∷ f ∷ g ∷ h ∷ i ∷ j ∷ []) ≡ true
    → Pattern a b c d e f g h i j
unfolding shape glob_shape in_calendar
accepts→Pattern a b c d e f g h i j ok = record {
  year = ground arith;
  month = ground arith;
  day = ground arith;
  dashes = ground arith;
  range = ground arith;
}

Pattern→accepts :
    (a b c d e f g h i j : ℕ)
    → Pattern a b c d e f g h i j
    → accepts (a ∷ b ∷ c ∷ d ∷ e ∷ f ∷ g ∷ h ∷ i ∷ j ∷ []) ≡ true
unfolding shape glob_shape in_calendar
Pattern→accepts a b c d e f g h i j p = ground (arith, p.year, p.month, p.day, p.dashes, p.range)

digit-≤ : (c : ℕ) → is_digit c ≡ true → (48 + (c - 48) ≡ c) × (c - 48 < 10)
digit-≤ c h = (ground arith, ground arith)

is_digit-digit : (n : ℕ) → n < 10 → is_digit (digit n) ≡ true
is_digit-digit n h = ground arith

digit-minus : (n : ℕ) → digit n - 48 ≡ n
digit-minus n = omega arith

year-two :
    (a b c d : ℕ)
    → two a b * 100 + two c d ≡ (a - 48) * 1000 + (b - 48) * 100 + (c - 48) * 10 + (d - 48)
year-two a b c d = omega arith

IsDate→is_iso_date : (s : String) → IsDate s → is_iso_date s ≡ true
unfolding is_iso_date
IsDate→is_iso_date s d =
    let (h1, h2, h3, h4, h5, h6, h7, h8) = d.digits in
    let inside = OnCalendar→range _ _ _ d.calendar in
    rw d.text (
      Pattern→accepts (digit d.y1) (digit d.y2) (digit d.y3) (digit d.y4) 45 (digit d.m1)
        (digit d.m2) 45 (digit d.d1) (digit d.d2)
        (record {
          year = (
            is_digit-digit d.y1 h1,
            is_digit-digit d.y2 h2,
            is_digit-digit d.y3 h3,
            is_digit-digit d.y4 h4,
          );
          month = (is_digit-digit d.m1 h5, is_digit-digit d.m2 h6);
          day = (is_digit-digit d.d1 h7, is_digit-digit d.d2 h8);
          dashes = (refl, refl);
          range =
              rw
                (
                  year-two (digit d.y1) (digit d.y2) (digit d.y3) (digit d.y4),
                  digit-minus d.y1,
                  digit-minus d.y2,
                  digit-minus d.y3,
                  digit-minus d.y4,
                  digit-minus d.m1,
                  digit-minus d.m2,
                  digit-minus d.d1,
                  digit-minus d.d2,
                )
                inside;
        }))

-- the ten codes of a text that is accepted
ten-IsDate :
    (s : String) (a b c d e f g h i j : ℕ)
    → code_list s ≡ a ∷ b ∷ c ∷ d ∷ e ∷ f ∷ g ∷ h ∷ i ∷ j ∷ []
    → Pattern a b c d e f g h i j
    → IsDate s
ten-IsDate s a b c d e f g h i j text p =
    let (ha, hb, hc, hd) = p.year in
    let (hf, hg) = p.month in
    let (hi, hj) = p.day in
    let (qa, la) = digit-≤ a ha in
    let (qb, lb) = digit-≤ b hb in
    let (qc, lc) = digit-≤ c hc in
    let (qd, ld) = digit-≤ d hd in
    let (qf, lf) = digit-≤ f hf in
    let (qg, lg) = digit-≤ g hg in
    let (qi, li) = digit-≤ i hi in
    let (qj, lj) = digit-≤ j hj in
    record {
      y1 = a - 48;
      y2 = b - 48;
      y3 = c - 48;
      y4 = d - 48;
      m1 = f - 48;
      m2 = g - 48;
      d1 = i - 48;
      d2 = j - 48;
      digits = (la, lb, lc, ld, lf, lg, li, lj);
      text = text ∙ rw (qa, qb, qc, qd, qf, qg, qi, qj, p.dashes.0, p.dashes.1) refl;
      calendar = rw (← year-two a b c d) (range→OnCalendar _ _ _ p.range);
    }

codes-IsDate : (s : String) (l : List ℕ) → code_list s ≡ l → accepts l ≡ true → IsDate s
unfolding shape glob_shape
codes-IsDate s (a ∷ b ∷ c ∷ d ∷ e ∷ f ∷ g ∷ h ∷ i ∷ j ∷ []) text ok =
    ten-IsDate s a b c d e f g h i j text (accepts→Pattern a b c d e f g h i j ok)
codes-IsDate s _ text ok = cc ok

-- `time.Parse` accepts the dates of the calendar.
pub is_iso_date-IsDate : (s : String) → (is_iso_date s ≡ true) ↔ IsDate s
unfolding is_iso_date
is_iso_date-IsDate s = (λ ok. codes-IsDate s (code_list s) refl ok, IsDate→is_iso_date s)
