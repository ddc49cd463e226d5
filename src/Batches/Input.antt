-- ===== src/Batches/Input.antt =====
-- The values of a draft row and their validation (internal/domain/batches/service.go), and the checks
-- that several operations share.
use bcars_portal.Base.{ℕ, String, not, [], ◌∷◌, if◌then◌else◌, str_eq}
use bcars_portal.Base.Int.{ℤ, pos, is_pos, is_neg}
use bcars_portal.GoText.{format_int}
use bcars_portal.GoText.Dates.{is_iso_date}
use bcars_portal.Outcome.{Result, ok, guard, ◌>>◌, invalid_amount, invalid_method, invalid_date}
use bcars_portal.Store.EntryQueries.{is_method}
use bcars_portal.Idem.{Env, hash}

pub record EntryInput : Type 0 where
  pub membership_id : ℕ
  pub amount_cents : ℤ
  pub method : String
  pub reference : String
  pub received_on : String
  pub received_by_officer : String
  pub paid_through : String
  pub treasurer_note : String

-- `EntryInput.validate`
unfoldable pub validate : EntryInput → Result (Unit {0})
validate e = do
  guard (is_pos e.amount_cents) invalid_amount
  guard (is_method e.method) invalid_method
  guard (is_iso_date e.received_on) invalid_date
  guard (is_iso_date e.paid_through) invalid_date

-- `EntryInput.hash`
unfoldable pub entry_hash : Env → EntryInput → ℕ → String
entry_hash env e batch_id = hash env (
    format_int (pos batch_id)
    ∷ format_int (pos e.membership_id)
    ∷ format_int e.amount_cents
    ∷ e.method
    ∷ e.reference
    ∷ e.received_on
    ∷ e.received_by_officer
    ∷ e.paid_through
    ∷ e.treasurer_note
    ∷ [])

-- `if params.DefaultPaidThrough != "" { time.Parse(…) }`
unfoldable pub optional_date : String → Result (Unit {0})
optional_date s = if str_eq s "" then ok tt else guard (is_iso_date s) invalid_date

-- `if amount < 0 { return ErrInvalidAmount }`
unfoldable pub default_amount : ℤ → Result (Unit {0})
default_amount amount = guard (not (is_neg amount)) invalid_amount
