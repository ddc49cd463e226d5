-- ===== src/Imports/Lifetime.antt =====
-- Which rows are taken for lifetime members with no officer's word.
use Prim.Native.Char.{Char}
use bcars_portal.Base.{String, Bool, true, ◌≡◌, refl, str_eq, arith, Bool-cases, inl, inr}
use bcars_portal.GoText.Text.{trim_space}
use bcars_portal.Idem.{Env}
use bcars_portal.Imports.Dues.{
  DecisionPayload, is_lifetime_honorary, coverage_date_for, coverage_none,
}
use bcars_portal.Imports.Normalize.{
  normalize_membership_type, RawRecord, known_lifetime, normalize_current_until, normalize,
}

flag-lifetime_known :
    (date id : String)
    → str_eq (normalize_current_until date id).1 "lifetime_known" ≡ true
    → (known_lifetime id ≡ true) × (str_eq (trim_space date) "12/31/2055" ≡ true)
unfolding normalize_current_until
flag-lifetime_known date id e = elim (Bool-cases (str_eq (trim_space date) "")) [
  | inl a ↦ cc (rw a at e)
  | inr a ↦ elim (Bool-cases (str_eq (trim_space date) "01/01/0001")) [
    | inl b ↦ cc (rw (a, b) at e)
    | inr b ↦ elim (Bool-cases (str_eq (trim_space date) "12/31/2055")) [
      | inl c ↦ elim (Bool-cases (known_lifetime id)) [
        | inl k ↦ (k, c)
        | inr k ↦ cc (rw (a, b, c, k) at e)
      ]
      | inr c ↦ cc (rw (a, b, c) at e)
    ]
  ]
]

-- A row is taken for a lifetime member with no officer's word only where it is one of the two known:
-- where the payload says nothing of honorary status and gives no date, and a normalized record counts
-- as a lifetime honorary, its row has a known id and the date 12/31/2055, its base type is associate,
-- and no paid-through date is recorded for it.
pub normalize-lifetime :
    (env : Env) (is_digit : Char → Bool) (raw : RawRecord) (payload : DecisionPayload)
    → payload.honorary ≡ ""
    → payload.paid_through ≡ ""
    → is_lifetime_honorary (normalize env is_digit raw) payload ≡ true
    → (known_lifetime raw.external_id ≡ true)
      × (str_eq (trim_space raw.current_until) "12/31/2055" ≡ true)
      × ((normalize env is_digit raw).base_type ≡ "associate")
      × (coverage_date_for (normalize env is_digit raw) payload true ≡ "")
unfolding is_lifetime_honorary coverage_date_for normalize
normalize-lifetime env is_digit raw payload silent undated e =
    let flag = (normalize_current_until raw.current_until raw.external_id).1 in
    let flagged : str_eq flag "lifetime_known" ≡ true = ground (arith, (rw silent at e)) in
    let honorary : str_eq (normalize_membership_type env raw.membership_type).0 "Honorary" ≡ true =
      ground (arith, (rw silent at e)) in
    let no_date : coverage_date_for (normalize env is_digit raw) payload true ≡ "" =
      elim (Bool-cases (str_eq payload.coverage coverage_none)) [
        | inl c ↦ rw c refl
        | inr c ↦ rw (c, undated) refl
      ] in
    let (known, dated) = flag-lifetime_known raw.current_until raw.external_id flagged in
    (known, dated, rw (honorary, flagged) refl, no_date)
