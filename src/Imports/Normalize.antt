-- ===== src/Imports/Normalize.antt =====
-- internal/domain/importd/normalize.go: the canonical form of an imported record. The decimal digits of
-- Unicode (`unicode.IsDigit`) are a parameter.
use Prim.Native.String.{◌++◌ as ◌<>◌}
use Prim.Native.Char.{Char, code}
use bcars_portal.Base.{
  ℕ, suc, String, Bool, true, false, ◌||◌, List, [], ◌∷◌, ◌==◌, str_eq, ltb, if◌then◌else◌,
}
use bcars_portal.GoText.{join}
use bcars_portal.GoText.Text.{trim_space, keep_digits, byte_length, fields}
use bcars_portal.Idem.{Env}
use bcars_portal.Imports.Dues.{NormalizedRecord}

-- the number of runes for which `unicode.IsDigit` holds
unfoldable pub digit_count : (Char → Bool) → String → ℕ
digit_count is_digit String.[] = 0
digit_count is_digit (String.◌∷◌ c s) =
    let rest = digit_count is_digit s in if is_digit c then suc rest else rest

-- `RawRecord`
pub record RawRecord : Type 0 where
  pub external_id : String
  pub contact_name : String
  pub call_sign : String
  pub current_until : String
  pub note : String
  pub membership_type : String
  pub license : String
  pub phone : String
  pub email : String
  pub street_address : String
  pub city : String
  pub postal_code : String
  pub state_province : String
  pub volunteer_examiner : String

-- `KnownLifetimeExternalIDs`
abbrev pub known_lifetime : String → Bool
known_lifetime id = str_eq id "900001" || str_eq id "900002"

-- the last part and those before it
abbrev split_last : String → List String → List String × String
split_last s [] = ([], s)
split_last s (t ∷ ts) = let (front, last) = split_last t ts in (s ∷ front, last)

abbrev name_from : String → List String → String
name_from name [] = name
name_from name (s ∷ []) = name
name_from name (s ∷ t ∷ ts) =
    let (front, last) = split_last s (t ∷ ts) in last <> ", " <> join " " front

-- `normalizeSortName`
unfoldable pub normalize_sort_name : String → String
normalize_sort_name name =
    if str_eq (trim_space name) ""
    then ""
    else name_from (trim_space name) (fields (trim_space name))

-- `normalizePhone`
unfoldable pub normalize_phone : (Char → Bool) → String → String × Bool
normalize_phone is_digit phone =
    let p = trim_space phone in
    if str_eq p ""
    then ("", true)
    else if ltb (byte_length (keep_digits p)) 7
    then (p, false)
    else if ltb (digit_count is_digit p) 7
    then (p, false)
    else (keep_digits p, true)

-- `normalizeMembershipType`
unfoldable pub normalize_membership_type : Env → String → String × String
normalize_membership_type env mt =
    let t = env.to_lower (trim_space mt) in
    if str_eq t "full"
    then ("Full", "full")
    else if str_eq t "associate"
    then ("Associate", "associate")
    else if str_eq t "honorary"
    then ("Honorary", "")
    else (trim_space mt, "")

-- `normalizeCheckbox`
unfoldable pub normalize_checkbox : Env → String → Bool
normalize_checkbox env val =
    let v = env.to_lower (trim_space val) in
    str_eq v "true" || str_eq v "checked" || str_eq v "1" || str_eq v "yes"

abbrev slash : Char → List String → List String
slash c [] = String.◌∷◌ c "" ∷ []
slash c (s ∷ ss) = String.◌∷◌ c s ∷ ss

-- `strings.Split(s, "/")`
unfoldable pub split_slash : String → List String
split_slash String.[] = "" ∷ []
split_slash (String.◌∷◌ c s) =
    let rest = split_slash s in if code c == 47 then "" ∷ rest else slash c rest

abbrev from_parts : String → List String → String
from_parts date (m ∷ d ∷ y ∷ []) = if byte_length y == 4 then y <> "-" <> m <> "-" <> d else date
from_parts date _ = date

-- `normalizeCurrentUntil`
unfoldable pub normalize_current_until : String → String → String × String
normalize_current_until date external_id =
    let d = trim_space date in
    if str_eq d ""
    then ("", "")
    else if str_eq d "01/01/0001"
    then ("", "sentinel_null")
    else if str_eq d "12/31/2055"
    then ("2055-12-31", if known_lifetime external_id then "lifetime_known" else "lifetime_unknown")
    else (from_parts d (split_slash d), "")

-- the base type, and whether an officer has to say, and why
abbrev settle_honorary : String → String → String → String × Bool × String
settle_honorary membership_type base_type flag =
    if str_eq membership_type "Honorary"
    then if str_eq flag "lifetime_known"
      then ("associate", false, "")
      else if str_eq base_type ""
      then (base_type, true, "honorary_type_unspecified")
      else (base_type, false, "")
    else (base_type, false, "")

-- `Normalize`
unfoldable pub normalize : Env → (Char → Bool) → RawRecord → NormalizedRecord
normalize env is_digit raw =
    let (phone, phone_valid) = normalize_phone is_digit raw.phone in
    let (membership_type, base_type) = normalize_membership_type env raw.membership_type in
    let (current_until, flag) = normalize_current_until raw.current_until raw.external_id in
    let (settled_type, manual, reason) = settle_honorary membership_type base_type flag in
    let unsure = str_eq flag "lifetime_unknown" in
    record {
      external_id = raw.external_id;
      display_name = raw.contact_name;
      sort_name = normalize_sort_name raw.contact_name;
      call_sign = env.to_upper (trim_space raw.call_sign);
      current_until = current_until;
      current_until_flag = flag;
      note = raw.note;
      membership_type = membership_type;
      base_type = settled_type;
      license_class = env.to_lower (trim_space raw.license);
      phone = phone;
      phone_valid = phone_valid;
      email = env.to_lower (trim_space raw.email);
      street_address = raw.street_address;
      city = raw.city;
      postal_code = raw.postal_code;
      state_province = raw.state_province;
      volunteer_examiner = normalize_checkbox env raw.volunteer_examiner;
      requires_manual = manual || unsure;
      manual_reason = if unsure then "lifetime_like_date_needs_confirmation" else reason;
    }
