-- ===== src/Store/Updates.antt =====
-- What an UPDATE … RETURNING that succeeds has done.
use bcars_portal.Base.{
  ◌≡◌, refl, Option, none, some, List, Bool, true, arith, find_by, update_where, if◌then◌else◌,
}
use bcars_portal.Outcome.{Result, ok, err, no_rows, check_failed}
use bcars_portal.Store.Tx.{Db, update_row}

module _ {A : Type 0} (rows : Db → List A) (set : List A → Db → Db) (checks : A → Bool) (f : A → A)
    (p : A → Bool) where
  pub update_row-eq-ok :
      (db db' : Db) (a : A)
      → update_row rows set checks f p db ≡ ok (a, db')
      → (db' ≡ set (update_where p f (rows db)) db)
        × ((x : A) × (find_by p (rows db) ≡ some x) × (a ≡ f x) × (checks a ≡ true))
  unfolding update_row
  update_row-eq-ok db db' a e = go (find_by p (rows db)) refl e
    where
      go :
          (o : Option A)
          → find_by p (rows db) ≡ o
          → ◌≡◌ {A = Result (A × Db)}
              (elim o [
                | none ↦ err no_rows
                | some x ↦
                    if checks (f x)
                    then ok (f x, set (update_where p f (rows db)) db)
                    else err check_failed
              ])
              (ok (a, db'))
          → (db' ≡ set (update_where p f (rows db)) db)
            × ((x : A) × (find_by p (rows db) ≡ some x) × (a ≡ f x) × (checks a ≡ true))
      go none h e = cc e
      go (some x) h e = (ground arith, (x, h, ground arith, ground arith))
