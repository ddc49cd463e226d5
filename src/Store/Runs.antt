-- ===== src/Store/Runs.antt =====
-- How a transaction goes on when its first statement has succeeded, and what a success tells.
use bcars_portal.Base.{
  ◌≡◌, refl, ap, Option, none, some, Bool, true, false, ◌⊎◌, inl, inr, if◌then◌else◌,
}
use bcars_portal.Outcome.{Error, Result, ok, err, no_rows}
use bcars_portal.Store.Tx.{Db, Tx, one, ◌>>=◌}

module _ {A B : Type 0} where
  pub >>=-ok :
      (m : Tx A) (f : A → Tx B) (db s : Db) (a : A) → m db ≡ ok (a, s) → (m >>= f) db ≡ f a s
  unfolding ◌>>=◌
  >>=-ok m f db s a e = ap (λ (r : Result (A × Db)). elim r [ ok (b, t) ↦ f b t | err x ↦ err x ]) e

  pub >>=-err :
      (m : Tx A) (f : A → Tx B) (db : Db) (x : Error) → m db ≡ err x → (m >>= f) db ≡ err x
  unfolding ◌>>=◌
  >>=-err m f db x e = ap (λ (r : Result (A × Db)). elim r [ ok (b, t) ↦ f b t | err y ↦ err y ]) e

module _ {A : Type 0} where
  pub one-ok : (f : Db → Option A) (db : Db) (a : A) → f db ≡ some a → one f db ≡ ok (a, db)
  unfolding one
  one-ok f db a e = ap (λ (o : Option A). elim o [ none ↦ err no_rows | some b ↦ ok (b, db) ]) e

  row_found :
      (o : Option A) (db db' : Db) (a : A)
      → ◌≡◌ {A = Result (A × Db)}
          (elim o [ none ↦ err no_rows | some b ↦ ok (b, db) ])
          (ok (a, db'))
      → (o ≡ some a) × (db' ≡ db)
  row_found none db db' a e = cc e
  row_found (some b) db db' a e = (cc e, cc e)

  pub one-eq-ok :
      (f : Db → Option A) (db db' : Db) (a : A)
      → one f db ≡ ok (a, db')
      → (f db ≡ some a) × (db' ≡ db)
  unfolding one
  one-eq-ok f db db' a e = row_found (f db) db db' a e

  -- which branch a conditional took
  pub if-eq-ok :
      (b : Bool) (m n : Tx A) (db : Db) (r : A × Db)
      → (if b then m else n) db ≡ ok r
      → ((b ≡ true) × (m db ≡ ok r)) ⊎ ((b ≡ false) × (n db ≡ ok r))
  if-eq-ok true m n db r e = inl (refl, e)
  if-eq-ok false m n db r e = inr (refl, e)
