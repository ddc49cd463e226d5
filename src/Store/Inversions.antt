-- ===== src/Store/Inversions.antt =====
-- What a step that succeeds shows, step by step.
use bcars_portal.Base.{◌≡◌, refl, Option, some, Bool, true, false, arith}
use bcars_portal.Outcome.{Error, Result, ok, err, guard}
use bcars_portal.Store.Tx.{Db, Tx, lift, one, or_missing, or_stale, settle}

pub lift-eq-ok :
    {A : Type 0} (r : Result A) (a : A) (db db' : Db)
    → lift r db ≡ ok (a, db')
    → (r ≡ ok a) × (db ≡ db')
unfolding lift
lift-eq-ok (ok x) a db db' e = (cc e, cc e)
lift-eq-ok (err x) a db db' e = cc e

pub one-eq-ok :
    {A : Type 0} (f : Db → Option A) (a : A) (db db' : Db)
    → one f db ≡ ok (a, db')
    → (f db ≡ some a) × (db ≡ db')
unfolding one
one-eq-ok f a db db' e = (ground arith, ground arith)

pub guard-eq-ok :
    (b : Bool) (x : Error) (u : Unit {0}) (db db' : Db)
    → lift (guard b x) db ≡ ok (u, db')
    → (b ≡ true) × (db ≡ db')
unfolding lift
guard-eq-ok true x u db db' e = (refl, cc e)
guard-eq-ok false x u db db' e = cc e

pub or_missing-eq-ok :
    {A : Type 0} (x : Error) (m : Tx A) (db db' : Db) (a : A)
    → or_missing x m db ≡ ok (a, db')
    → m db ≡ ok (a, db')
unfolding or_missing
or_missing-eq-ok x m db db' a e = ground arith

pub settle-eq-ok :
    {A : Type 0} (r : Result (A × Db)) (db db' : Db) (a : A)
    → settle r db ≡ (ok a, db')
    → r ≡ ok (a, db')
settle-eq-ok (ok (b, s)) db db' a e = cc e
settle-eq-ok (err x) db db' a e = cc e

pub same_state :
    {A : Type 0} (a b : A) (s t : Db) → ◌≡◌ {A = Result (A × Db)} (ok (a, s)) (ok (b, t)) → s ≡ t
same_state a b s t e = cc e

pub or_stale-eq-ok :
    {A : Type 0} (m : Tx A) (db db' : Db) (a : A) → or_stale m db ≡ ok (a, db') → m db ≡ ok (a, db')
unfolding or_stale
or_stale-eq-ok m db db' a e = ground arith
