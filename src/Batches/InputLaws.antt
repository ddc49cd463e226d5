-- ===== src/Batches/InputLaws.antt =====
-- Which rows the validation of a draft entry lets through.
use bcars_portal.Base.{ℕ, zero, suc, String, ◌≡◌, ◌⊎◌, ◌↔◌, refl, true, arith, eq_iff}
use bcars_portal.Base.Int.{ℤ, pos, negsuc, is_pos}
use bcars_portal.GoText.Dates.{is_iso_date}
use bcars_portal.GoText.Dates.Calendar.{IsDate, is_iso_date-IsDate}
use bcars_portal.Outcome.{ok}
use bcars_portal.Store.EntryQueries.{is_method}
use bcars_portal.Batches.Input.{EntryInput, validate}

-- a number of cents above zero
abbrev pub Positive : ℤ → Type 0
Positive amount = (n : ℕ) × (amount ≡ pos (suc n))

-- the three ways of paying
abbrev pub Method : String → Type 0
Method m = (m ≡ "cash") ⊎ ((m ≡ "check") ⊎ (m ≡ "other"))

is_pos-Positive : (a : ℤ) → (is_pos a ≡ true) ↔ Positive a
is_pos-Positive (pos zero) = (λ h. ground arith, λ h. cc h.1)
is_pos-Positive (pos (suc n)) = (λ h. (n, refl), λ h. ground arith)
is_pos-Positive (negsuc n) = (λ h. ground arith, λ h. cc h.1)

is_method-Method : (m : String) → (is_method m ≡ true) ↔ Method m
unfolding is_method
is_method-Method m = (
  λ h. ground (arith, eq_iff m "cash", eq_iff m "check", eq_iff m "other"),
  λ h. ground (arith, eq_iff m "cash", eq_iff m "check", eq_iff m "other"),
)

guards :
    (e : EntryInput)
    → (validate e ≡ ok tt) ↔ (
        (is_pos e.amount_cents ≡ true)
        × (is_method e.method ≡ true)
        × (is_iso_date e.received_on ≡ true)
        × (is_iso_date e.paid_through ≡ true))
unfolding validate
guards e = (λ h. (ground arith, ground arith, ground arith, ground arith), λ h. ground arith)

-- An entry is valid exactly when its amount is above zero, its method is the text cash, check or other,
-- and both of its dates are texts YYYY-MM-DD of a day of the Gregorian calendar.
pub validate_iff :
    (e : EntryInput)
    → (validate e ≡ ok tt)
      ↔ (Positive e.amount_cents × Method e.method × IsDate e.received_on × IsDate e.paid_through)
validate_iff e =
    let (to, from) = guards e in
    let amount = is_pos-Positive e.amount_cents in
    let method = is_method-Method e.method in
    let received = is_iso_date-IsDate e.received_on in
    let paid = is_iso_date-IsDate e.paid_through in
    (
      λ h. let (a, m, r, p) = to h in (amount.0 a, method.0 m, received.0 r, paid.0 p),
      λ h. let (a, m, r, p) = h in from (amount.1 a, method.1 m, received.1 r, paid.1 p),
    )
