-- ===== src/GoText/Dates.antt =====
-- `time.Parse("2006-01-02", s)`, and the GLOB pattern by which the schema checks a date column.
pub mod Calendar
use Prim.Native.Char.{code}
use bcars_portal.Base.{
  ℕ, ◌+◌, ◌-◌, ◌*◌, ◌%◌, String, Bool, true, false, ◌&&◌, ◌||◌, not, List, [], ◌∷◌, leb, ◌==◌, ◌≡◌,
  arith, if◌then◌else◌,
}

abbrev code_list : String → List ℕ
code_list String.[] = []
code_list (String.◌∷◌ c s) = code c ∷ code_list s

-- the ten characters of a text that has ten
pub data Shape : Type 0 where
  ten : ℕ → ℕ → ℕ → ℕ → ℕ → ℕ → ℕ → ℕ → ℕ → ℕ → Shape
  other : Shape

pub shape : List ℕ → Shape
shape (a ∷ b ∷ c ∷ d ∷ e ∷ f ∷ g ∷ h ∷ i ∷ j ∷ []) = ten a b c d e f g h i j
shape _ = other

abbrev pub is_digit : ℕ → Bool
is_digit c = leb 48 c && leb c 57

-- `[0-9][0-9][0-9][0-9]-[0-9][0-9]-[0-9][0-9]`
pub glob_shape : Shape → Bool
glob_shape (ten a b c d e f g h i j) =
    is_digit a
    && is_digit b
    && is_digit c
    && is_digit d
    && e == 45
    && is_digit f
    && is_digit g
    && h == 45
    && is_digit i
    && is_digit j
glob_shape other = false

pub is_leap : ℕ → Bool
is_leap year = year % 4 == 0 && (not (year % 100 == 0) || year % 400 == 0)

-- `daysIn(month, year)`
pub days_in : ℕ → ℕ → ℕ
unfolding is_leap
days_in month year =
    if month == 2
    then (if is_leap year then 29 else 28)
    else if month == 4 || month == 6 || month == 9 || month == 11
    then 30
    else 31

abbrev two : ℕ → ℕ → ℕ
two a b = (a - 48) * 10 + (b - 48)

-- the range checks that follow the digits
pub in_calendar : Shape → Bool
unfolding days_in
in_calendar (ten a b c d e f g h i j) =
    let year = two a b * 100 + two c d in
    let month = two f g in
    let day = two i j in leb 1 month && leb month 12 && leb 1 day && leb day (days_in month year)
in_calendar other = false

-- whether the schema's GLOB accepts the text
unfoldable pub is_date_glob : String → Bool
unfolding shape glob_shape
is_date_glob s = glob_shape (shape (code_list s))

-- whether `time.Parse(ISODate, s)` returns no error
unfoldable pub is_iso_date : String → Bool
unfolding shape glob_shape in_calendar
is_iso_date s = glob_shape (shape (code_list s)) && in_calendar (shape (code_list s))

-- A date that Go's parser accepts is one that the schema accepts.
pub is_iso_date-is_date_glob : (s : String) → is_iso_date s ≡ true → is_date_glob s ≡ true
unfolding is_iso_date is_date_glob
is_iso_date-is_date_glob s h = ground arith
