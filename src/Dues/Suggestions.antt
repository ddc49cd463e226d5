-- ===== src/Dues/Suggestions.antt =====
-- `SuggestFor`: what a choice of years costs by the rates on file (internal/domain/dues/service.go).
use bcars_portal.Base.{ℕ, zero, suc, ◌+◌, ◌-◌, Bool, true, false, Option, none, some, List, [], ◌∷◌}
use bcars_portal.Base.Int.{ℤ, pos, ◌+ℤ◌}
use bcars_portal.Store.Rows.{DuesRate}
use bcars_portal.Store.DuesQueries.{find_rate}

-- the maps `rates` and `known`; a year has one row, so the first is the last written
abbrev pub rate_for : ℕ → List DuesRate → Option ℤ
rate_for year rates = elim (find_rate year rates) [ none ↦ none | some r ↦ some r.amount_cents ]

-- the loop of `total` from the year `y`, with `k` years to go; `none` is `0, false`
unfoldable pub total_from : ℕ → ℕ → List DuesRate → ℤ → Option ℤ
total_from zero y rates sum = some sum
total_from (suc k) y rates sum =
    let rest = λ (c : ℤ). total_from k (y + 1) rates (sum +ℤ c) in
    elim (rate_for y rates) [ none ↦ none | some c ↦ rest c ]

-- `total(through)`, from the current calendar year
unfoldable pub total : ℕ → ℕ → List DuesRate → Option ℤ
unfolding total_from
total year through rates = total_from (through + 1 - year) year rates (pos 0)

pub record Suggestion : Type 0 where
  pub years_covered : ℕ
  pub amount_cents : ℤ
  pub rate_known : Bool

abbrev suggestion : ℕ → Option ℤ → Suggestion
suggestion years none = record { years_covered = years; amount_cents = pos 0; rate_known = false }
suggestion years (some c) = record { years_covered = years; amount_cents = c; rate_known = true }

-- the three choices, without their texts
unfoldable pub choices : ℕ → List DuesRate → List Suggestion
unfolding total
choices year rates =
    suggestion 1 (total year year rates)
    ∷ suggestion 2 (total year (year + 1) rates)
    ∷ suggestion 3 (total year (year + 2) rates)
    ∷ []
