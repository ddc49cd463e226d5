-- ===== src/Authz/Tests.antt =====
-- The capability policy on one treasurer.
use bcars_portal.Base.{◌≡◌, ◌↔◌, some, [], ◌∷◌}
use bcars_portal.Outcome.{ok}
use bcars_portal.Authz.{Principal, codes, authorize}
use bcars_portal.Authz.Policy.{In, authorize_iff}

abbrev treasurer : Principal
treasurer = record { user_id = 7; capabilities = "payment.read" ∷ "payment.post" ∷ [] }

authorize_iff_example :
    (authorize (some treasurer) "payment.post" ≡ ok tt)
    ↔ (In "payment.post" codes × In "payment.post" treasurer.capabilities)
authorize_iff_example = authorize_iff treasurer "payment.post"
