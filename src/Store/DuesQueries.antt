-- ===== src/Store/DuesQueries.antt =====
-- internal/db/sqlc/dues.sql.go and treasury.sql.go: the dues rates.
use bcars_portal.Base.{
  ℕ, ◌+◌, String, Bool, ◌&&◌, not, Option, none, some, List, [], ◌∷◌, ◌++◌, find_by, exists_by,
  update_where, order_by, leb, ◌==◌, if◌then◌else◌,
}
use bcars_portal.Base.Int.{ℤ, is_neg}
use bcars_portal.Outcome.{ok, err, no_rows, check_failed, unique_failed}
use bcars_portal.Store.Rows.{DuesRate}
use bcars_portal.Store.Tx.{Db, Tx, gets, one}

abbrev pub find_rate : ℕ → List DuesRate → Option DuesRate
find_rate year rates = find_by (λ r. r.year == year) rates

-- GetDuesRate
unfoldable pub get_dues_rate : ℕ → Tx DuesRate
get_dues_rate year = one (λ db. find_rate year db.dues_rates)

-- ListDuesRates
unfoldable pub list_dues_rates : Tx (List DuesRate)
list_dues_rates = gets (λ db. order_by (λ a b. leb b.year a.year) db.dues_rates)

pub record DuesRateParams : Type 0 where
  pub year : ℕ
  pub amount_cents : ℤ
  pub note : Option String
  pub set_by : ℕ
  pub set_at : String

-- the CHECK constraints of dues_rates
unfoldable pub rate_checks : ℕ → ℤ → Bool
rate_checks year amount = leb 1900 year && leb year 2999 && not (is_neg amount)

-- the row that InsertDuesRate inserts
abbrev pub new_rate : Db → DuesRateParams → DuesRate
new_rate db arg = record {
  year = arg.year;
  amount_cents = arg.amount_cents;
  note = arg.note;
  set_by = arg.set_by;
  set_at = arg.set_at;
  created_at = db.clock.iso_timestamp;
  updated_at = db.clock.iso_timestamp;
  version = 1;
}

-- InsertDuesRate
unfoldable pub insert_dues_rate : DuesRateParams → Tx DuesRate
insert_dues_rate arg db =
    if not (rate_checks arg.year arg.amount_cents)
    then err check_failed
    else if exists_by (λ r. r.year == arg.year) db.dues_rates
    then err unique_failed
    else ok (new_rate db arg, record db { dues_rates = db.dues_rates ++ new_rate db arg ∷ [] })

abbrev pub revised_rate : Db → DuesRateParams → DuesRate → DuesRate
revised_rate db arg r = record r {
  amount_cents = arg.amount_cents;
  note = arg.note;
  set_by = arg.set_by;
  set_at = arg.set_at;
  version = r.version + 1;
  updated_at = db.clock.iso_timestamp;
}

-- `year = ? AND version = ?`
abbrev pub rate_at : ℕ → ℕ → DuesRate → Bool
rate_at year version r = r.year == year && r.version == version

-- UpdateDuesRate
unfoldable pub update_dues_rate : DuesRateParams → ℕ → Tx DuesRate
update_dues_rate arg version db = elim (find_by (rate_at arg.year version) db.dues_rates) [
  | none ↦ err no_rows
  | some r ↦
      if not (rate_checks arg.year arg.amount_cents)
      then err check_failed
      else ok (
        revised_rate db arg r,
        record db {
          dues_rates = update_where (rate_at arg.year version) (revised_rate db arg) db.dues_rates;
        },
      )
]
