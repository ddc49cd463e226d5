-- ===== src/Authz/Policy.antt =====
-- The policy: deny by default, and exactly the granted, known capabilities pass.
use bcars_portal.Base.{
  String, ◌≡◌, ◌↔◌, ◌⊎◌, Bool, true, false, Option, none, some, List, [], ◌∷◌, arith, str_eq,
  eq_iff, find_by, map,
}
use bcars_portal.Outcome.{ok}
use bcars_portal.Authz.{Principal, by_code, codes, has_code, has_capability, authorize, decide}
use bcars_portal.Authz.Catalog.{Capability, catalog}

-- `code` is one of the listed codes
abbrev pub In : String → List String → Type 0
In code [] = ⊥
In code (c ∷ cs) = (c ≡ code) ⊎ In code cs

pub has_code_iff : (cs : List String) (code : String) → (has_code cs code ≡ true) ↔ In code cs
unfolding has_code
has_code_iff [] code = (λ h. cc, λ h. absurd h)
has_code_iff (c ∷ cs) code = (
  λ h. ground (arith, eq_iff c code, (has_code_iff cs code).0),
  λ h. ground (arith, eq_iff c code, (has_code_iff cs code).1),
)

abbrev found : Option Capability → Bool
found none = false
found (some c) = true

-- the loop of `ByCode` finds an entry exactly for a listed code
find-In :
    (cs : List Capability) (code : String)
    → (found (find_by (λ c. str_eq c.code code) cs) ≡ true) ↔ In code (map (λ c. c.code) cs)
unfolding find_by
find-In [] code = (λ h. cc, λ h. absurd h)
find-In (c ∷ cs) code = (
  λ h. ground (arith, eq_iff c.code code, (find-In cs code).0),
  λ h. ground (arith, eq_iff c.code code, (find-In cs code).1),
)

decide_iff :
    (o : Option Capability) (has : Bool)
    → (decide o has ≡ ok tt) ↔ ((found o ≡ true) × (has ≡ true))
unfolding decide
decide_iff o has = (λ h. ground arith, λ h. ground arith)

by_code-In : (code : String) → (found (by_code code) ≡ true) ↔ In code codes
unfolding by_code codes
by_code-In code = find-In catalog code

-- `Authorize` lets an authenticated caller through exactly when the action is a capability of the
-- catalog and the caller holds it.
pub authorize_iff :
    (p : Principal) (action : String)
    → (authorize (some p) action ≡ ok tt) ↔ (In action codes × In action p.capabilities)
unfolding authorize has_capability
authorize_iff p action = (
  λ h.
      let d = (decide_iff (by_code action) (has_code p.capabilities action)).0 h in
      ((by_code-In action).0 d.0, (has_code_iff p.capabilities action).0 d.1),
  λ h.
      (decide_iff (by_code action) (has_code p.capabilities action)).1
        ((by_code-In action).1 h.0, (has_code_iff p.capabilities action).1 h.1),
)
