-- ===== src/Store/Autocommit.antt =====
-- Statements that a service runs on the database itself, with no transaction around them: each commits
-- by itself, and what it did stays when a later one fails.
use bcars_portal.Base.{◌≡◌, refl}
use bcars_portal.Outcome.{Error, Result, ok, err}
use bcars_portal.Store.Tx.{Db, Tx, Action, in_tx, lift, gets}

-- one statement, or one check
unfoldable pub run : {A : Type 0} → Tx A → Action A
unfolding in_tx
run m = in_tx m

unfoldable pub finish : {A : Type 0} → A → Action A
finish a db = (ok a, db)

abbrev pub next : {A B : Type 0} → Result A → (A → Action B) → Action B
next (ok a) f db = f a db
next (err e) f db = (err e, db)

infixl 5 ◌>>=◌ ◌>>◌
unfoldable pub ◌>>=◌ : {A B : Type 0} → Action A → (A → Action B) → Action B
◌>>=◌ m f db = next (m db).0 f (m db).1

abbrev pub ◌>>◌ : {A B : Type 0} → Action A → Action B → Action B
m >> k = m >>= λ _. k

-- a step that succeeds hands over its answer and the tables it left
pub >>=-ok :
    {A B : Type 0} (m : Action A) (f : A → Action B) (db db' : Db) (a : A)
    → m db ≡ (ok a, db')
    → (m >>= f) db ≡ f a db'
unfolding ◌>>=◌
>>=-ok m f db db' a e = rw e refl

-- what a statement, a check and a read do when they succeed, and a statement when it fails
pub run-ok :
    {A : Type 0} (m : Tx A) (db db' : Db) (a : A) → m db ≡ ok (a, db') → run m db ≡ (ok a, db')
unfolding run
run-ok m db db' a e = rw e refl

pub run-err : {A : Type 0} (m : Tx A) (db : Db) (x : Error) → m db ≡ err x → run m db ≡ (err x, db)
unfolding run
run-err m db x e = rw e refl

pub run-lift : (r : Result (Unit {0})) (db : Db) → r ≡ ok tt → run (lift r) db ≡ (ok tt, db)
unfolding run lift
run-lift (ok x) db e = refl
run-lift (err x) db e = cc e

-- a read of the clock
pub run-clock : (db : Db) → run (gets (λ d. d.clock)) db ≡ (ok db.clock, db)
unfolding run gets
run-clock db = refl
