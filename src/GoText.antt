-- ===== src/GoText.antt =====
-- What the services use of Go's `strings`, `strconv`, `fmt` and `time` packages, and SQLite's
-- comparison of texts.
pub mod Dates
pub mod Text
mod Tests
use Prim.Native.Char.{code}
use Prim.Native.String.{◌++◌ as ◌<>◌}
use bcars_portal.Base.{
  ℕ, zero, suc, ◌+◌, ◌-◌, ◌/◌, ◌%◌, String, Bool, true, false, ◌&&◌, ◌||◌, Option, none, some, List,
  [], ◌∷◌, map, ltb, leb, ◌==◌, if◌then◌else◌, length,
}
use bcars_portal.Base.Int.{ℤ, pos, negsuc}

abbrev pub codes : String → List ℕ
codes String.[] = []
codes (String.◌∷◌ c s) = code c ∷ codes s

-- `unicode.IsSpace`
pub is_space : ℕ → Bool
is_space c =
    (leb 9 c && leb c 13)
    || c == 32
    || c == 0x85
    || c == 0xa0
    || c == 0x1680
    || (leb 0x2000 c && leb c 0x200a)
    || c == 0x2028
    || c == 0x2029
    || c == 0x202f
    || c == 0x205f
    || c == 0x3000

pub every : (ℕ → Bool) → List ℕ → Bool
every p [] = true
every p (c ∷ cs) = p c && every p cs

-- `strings.TrimSpace(s) == ""`
unfoldable pub is_blank : String → Bool
unfolding is_space every
is_blank s = every is_space (codes s)

-- `length(trim(s)) = 0` in SQLite, whose `trim` drops the space character only
unfoldable pub is_sql_blank : String → Bool
unfolding every
is_sql_blank s = every (λ c. c == 32) (codes s)

-- `a < b` between two TEXT values under SQLite's BINARY collation: by their bytes, which for UTF-8
-- is the order of the code points
unfoldable pub text_ltb : String → String → Bool
text_ltb String.[] String.[] = false
text_ltb String.[] (String.◌∷◌ d t) = true
text_ltb (String.◌∷◌ c s) String.[] = false
text_ltb (String.◌∷◌ c s) (String.◌∷◌ d t) =
    if ltb (code c) (code d) then true else if ltb (code d) (code c) then false else text_ltb s t

-- `strings.Join(parts, sep)`
pub join : String → List String → String
join sep [] = ""
join sep (s ∷ []) = s
join sep (s ∷ rest) = s <> sep <> join sep rest

-- The decimal digits of a number, most significant first. A number has no more digits than its
-- successor, so `suc n` rounds are enough.
decimal_from : ℕ → ℕ → List ℕ → List ℕ
decimal_from zero n acc = acc
decimal_from (suc f) n acc =
    let rest = decimal_from f (n / 10) ((n % 10) ∷ acc) in if ltb n 10 then n ∷ acc else rest

pub decimal : ℕ → List ℕ
unfolding decimal_from
decimal n = decimal_from (suc n) n []

pub digit_text : ℕ → String
digit_text d =
    if d == 0
    then "0"
    else if d == 1
    then "1"
    else if d == 2
    then "2"
    else if d == 3
    then "3"
    else if d == 4
    then "4"
    else if d == 5
    then "5"
    else if d == 6
    then "6"
    else if d == 7
    then "7"
    else if d == 8
    then "8"
    else "9"

pub text_of_digits : List ℕ → String
unfolding digit_text
text_of_digits [] = ""
text_of_digits (d ∷ ds) = digit_text d <> text_of_digits ds

-- `strconv.FormatInt(n, 10)`
unfoldable pub format_int : ℤ → String
unfolding decimal text_of_digits
format_int (pos n) = text_of_digits (decimal n)
format_int (negsuc n) = "-" <> text_of_digits (decimal (suc n))

zeros : ℕ → List ℕ → List ℕ
zeros zero ds = ds
zeros (suc k) ds = 0 ∷ zeros k ds

-- `%0wd` for a number that is not negative
unfoldable pub format_padded : ℕ → ℕ → String
unfolding decimal text_of_digits zeros
format_padded w n = let ds = decimal n in text_of_digits (zeros (w - length ds) ds)
