-- ===== src/Authz.antt =====
-- internal/domain/authz/policy.go and the lookups of catalog.go. A capability set is the list of its
-- codes; a nil set and an empty one answer alike. The context and the resource, which `Authorize`
-- does not read, are left out.
pub mod Catalog
pub mod Policy
pub mod Tests
use bcars_portal.Base.{
  ℕ, String, Bool, true, false, ◌||◌, Option, none, some, List, [], ◌∷◌, find_by, str_eq, map,
}
use bcars_portal.Outcome.{Result, ok, err, unauthenticated, denied}
use Catalog.{Capability, catalog}

pub record Principal : Type 0 where
  pub user_id : ℕ
  pub capabilities : List String

-- `ByCode`
unfoldable pub by_code : String → Option Capability
unfolding catalog find_by
by_code code = find_by (λ c. str_eq c.code code) catalog

-- `Codes`
unfoldable pub codes : List String
unfolding catalog
codes = map (λ c. c.code) catalog

unfoldable pub has_code : List String → String → Bool
has_code [] code = false
has_code (c ∷ cs) code = str_eq c code || has_code cs code

-- `hasCapability`
unfoldable pub has_capability : Option Principal → String → Bool
unfolding has_code
has_capability none code = false
has_capability (some p) code = has_code p.capabilities code

-- what `Authorize` does after the lookup in the catalog
decide : Option Capability → Bool → Result (Unit {0})
decide none has = err denied
decide (some c) true = ok tt
decide (some c) false = err denied

unfoldable pub authorize : Option Principal → String → Result (Unit {0})
unfolding decide has_capability
authorize none action = err unauthenticated
authorize (some p) action = decide (by_code action) (has_capability (some p) action)

-- `p.UserID`, which the services read only after `Authorize` has refused a nil principal
abbrev pub user_id_of : Option Principal → ℕ
user_id_of none = 0
user_id_of (some p) = p.user_id
