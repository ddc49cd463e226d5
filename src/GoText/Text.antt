-- ===== src/GoText/Text.antt =====
-- What the change requests and the imports use of Go's `strings` package: TrimSpace, Fields, SplitN, and
-- lengths in bytes.
use Prim.Native.Char.{Char, code}
use bcars_portal.Base.{str_eq, List, [], ◌∷◌}
use bcars_portal.Base.{ℕ, ◌+◌, String, ◌&&◌, Option, none, some, ltb, leb, ◌==◌, if◌then◌else◌}
use bcars_portal.GoText.{is_space}

unfoldable pub trim_left : String → String
unfolding is_space
trim_left String.[] = ""
trim_left (String.◌∷◌ c s) =
    let rest = trim_left s in if is_space (code c) then rest else String.◌∷◌ c s

-- a character and what is left of the text behind it, without spaces at its end
abbrev put : Char → String → String
put c String.[] = if is_space (code c) then "" else String.◌∷◌ c ""
put c (String.◌∷◌ d t) = String.◌∷◌ c (String.◌∷◌ d t)

unfoldable pub trim_right : String → String
unfolding is_space
trim_right String.[] = ""
trim_right (String.◌∷◌ c s) = put c (trim_right s)

-- `strings.TrimSpace`
unfoldable pub trim_space : String → String
unfolding trim_left trim_right
trim_space s = trim_right (trim_left s)

abbrev prepend : Char → Option (String × String) → Option (String × String)
prepend c none = none
prepend c (some (a, b)) = some (String.◌∷◌ c a, b)

-- `strings.SplitN(s, ":", 2)`, where it gives two parts
unfoldable pub cut_colon : String → Option (String × String)
cut_colon String.[] = none
cut_colon (String.◌∷◌ c s) =
    let rest = cut_colon s in if code c == 58 then some ("", s) else prepend c rest

-- the digits of a text
unfoldable pub keep_digits : String → String
keep_digits String.[] = ""
keep_digits (String.◌∷◌ c s) =
    let rest = keep_digits s in
    if leb 48 (code c) && leb (code c) 57 then String.◌∷◌ c rest else rest

-- a word and the words behind it
abbrev flush : String → List String → List String
flush w ws = if str_eq w "" then ws else w ∷ ws

abbrev scan_step : Char → String × List String → String × List String
scan_step c (w, ws) = if is_space (code c) then ("", flush w ws) else (String.◌∷◌ c w, ws)

unfoldable scan_fields : String → String × List String
unfolding is_space
scan_fields String.[] = ("", [])
scan_fields (String.◌∷◌ c s) = scan_step c (scan_fields s)

abbrev flush_pair : String × List String → List String
flush_pair (w, ws) = flush w ws

-- `strings.Fields`
unfoldable pub fields : String → List String
unfolding scan_fields
fields s = flush_pair (scan_fields s)

-- `len(s)`: the bytes of the UTF-8 encoding
unfoldable pub byte_length : String → ℕ
byte_length String.[] = 0
byte_length (String.◌∷◌ c s) =
    (if ltb (code c) 0x80
      then 1
      else if ltb (code c) 0x800
      then 2
      else if ltb (code c) 0x10000
      then 3
      else 4)
    + byte_length s
