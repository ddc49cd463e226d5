-- ===== src/Imports/Found.antt =====
-- When an import finds what an earlier one has written.
use bcars_portal.Base.{
  ℕ, String, Bool, true, ◌&&◌, ◌||◌, ◌≡◌, refl, ◌∙◌, ap, List, [], ◌∷◌, ◌++◌, ◌==◌, select,
  order_by, insert_by, exists_by, head?, arith,
}
use bcars_portal.Outcome.{ok}
use bcars_portal.Store.DirectoryRows.{HonoraryGrant}
use bcars_portal.Store.Tx.{Db}
use bcars_portal.Store.GrantQueries.{create_honorary_grant, CreateHonoraryGrantParams, new_grant}
use bcars_portal.Store.CoverageQueries.{is_some}
use bcars_portal.Imports.Dues.{
  is_open_grant, list_honorary_grants, imported_for, find_import_coverage_event,
}

-- whether a row exists does not depend on the order of the rows
module _ {A : Type 0} (p : A → Bool) where
  exists_by-insert_by :
      (before : A → A → Bool) (x : A) (xs : List A)
      → exists_by p (insert_by before x xs) ≡ p x || exists_by p xs
  unfolding insert_by exists_by
  exists_by-insert_by before x [] = refl
  exists_by-insert_by before x (y ∷ ys) = ground (arith, exists_by-insert_by before x ys)

  exists_by-order_by :
      (before : A → A → Bool) (xs : List A) → exists_by p (order_by before xs) ≡ exists_by p xs
  unfolding order_by exists_by
  exists_by-order_by before [] = refl
  exists_by-order_by before (x ∷ xs) =
      exists_by-insert_by before x (order_by before xs)
      ∙ ap (λ b. p x || b) (exists_by-order_by before xs)

  exists_by-select :
      (q : A → Bool) (xs : List A) → exists_by p (select q xs) ≡ exists_by (λ x. q x && p x) xs
  unfolding select exists_by
  exists_by-select q [] = refl
  exists_by-select q (x ∷ xs) = ground (arith, exists_by-select q xs)

-- some row is first exactly when a row exists
module _ {A : Type 0} where
  head-exists_by : (xs : List A) → is_some (head? xs) ≡ exists_by (λ x. true) xs
  unfolding exists_by
  head-exists_by [] = refl
  head-exists_by (x ∷ xs) = refl

-- an open lifetime grant of the membership
abbrev pub has_lifetime : ℕ → Db → Bool
has_lifetime m db = exists_by is_open_grant (list_honorary_grants m db)

abbrev pub lifetime_of : ℕ → HonoraryGrant → Bool
lifetime_of m g = g.membership_id == m && is_open_grant g

pub has_lifetime-exists_by :
    (m : ℕ) (db : Db) → has_lifetime m db ≡ exists_by (lifetime_of m) db.honorary_grants
unfolding list_honorary_grants
has_lifetime-exists_by m db =
    exists_by-order_by is_open_grant _ (select (λ g. g.membership_id == m) db.honorary_grants)
    ∙ exists_by-select is_open_grant (λ g. g.membership_id == m) db.honorary_grants

-- an imported decision of the membership for the date
abbrev pub has_import : ℕ → String → Db → Bool
has_import m date db = is_some (find_import_coverage_event m date db)

pub has_import-exists_by :
    (m : ℕ) (date : String) (db : Db)
    → has_import m date db ≡ exists_by (λ c. imported_for m date c && true) db.coverage_events
unfolding find_import_coverage_event
has_import-exists_by m date db =
    head-exists_by (order_by _ (select (imported_for m date) db.coverage_events))
    ∙ exists_by-order_by (λ c. true) _ (select (imported_for m date) db.coverage_events)
    ∙ exists_by-select (λ c. true) (imported_for m date) db.coverage_events

pub create_honorary_grant-eq-ok :
    (arg : CreateHonoraryGrantParams) (db db' : Db) (g : HonoraryGrant)
    → create_honorary_grant arg db ≡ ok (g, db')
    → db' ≡ record db { honorary_grants = db.honorary_grants ++ new_grant db arg ∷ [] }
unfolding create_honorary_grant
create_honorary_grant-eq-ok arg db db' g e = ground arith
