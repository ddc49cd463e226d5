-- ===== src/Store/Follows.antt =====
-- Relations between the tables before and after, proved statement by statement: a rule for each way
-- to build a transaction out of others.
use bcars_portal.Base.{
  subst, ◌≡◌, refl, Bool, true, false, Option, none, some, if◌then◌else◌, arith,
}
use bcars_portal.Outcome.{no_rows, Error, Result, ok, err}
use bcars_portal.Store.Tx.{
  Db, Tx, Action, pure, fail, lift, gets, one, ◌>>=◌, in_tx, after, settle, or_stale, or_missing,
}

-- where `m` succeeds, the tables before and after are related
pub record Follows {A : Type 0} (R : Db → Db → Type 0) (m : Tx A) : Type 0 where
  pub at : (db db' : Db) (a : A) → m db ≡ ok (a, db') → R db db'

-- whatever the operation answers, the tables before and after are related
pub record Leads {A : Type 0} (R : Db → Db → Type 0) (m : Action A) : Type 0 where
  pub at : (db : Db) → R db (m db).1

-- a reflexive and transitive relation
pub record IsHistory (R : Db → Db → Type 0) : Type 0 where
  pub stays : (db : Db) → R db db
  pub chains : (a b c : Db) → R a b → R b c → R a c

ok_state :
    {A : Type 0} (a b : A) (s t : Db) → ◌≡◌ {A = Result (A × Db)} (ok (a, s)) (ok (b, t)) → s ≡ t
ok_state a b s t e = cc

-- inversion of an answer and of a read
pub pure-eq-ok : {A : Type 0} (a b : A) (s t : Db) → pure a s ≡ ok (b, t) → (a ≡ b) × (s ≡ t)
unfolding pure
pure-eq-ok a b s t e = (cc e, cc e)

pub gets-eq-ok :
    {A : Type 0} (f : Db → A) (a : A) (s t : Db) → gets f s ≡ ok (a, t) → (a ≡ f s) × (t ≡ s)
unfolding gets
gets-eq-ok f a s t e = (cc e, cc e)

-- inversion of a transaction that succeeded
pub >>=-eq-ok :
    {A B : Type 0} (m : Tx A) (f : A → Tx B) (db db' : Db) (b : B)
    → (m >>= f) db ≡ ok (b, db')
    → (a : A) × (s : Db) × (m db ≡ ok (a, s)) × (f a s ≡ ok (b, db'))
unfolding ◌>>=◌
>>=-eq-ok {A} {B} m f db db' b e = go (m db) refl e
  where
    go :
        (r : Result (A × Db))
        → m db ≡ r
        → (elim r [ ok (a, s) ↦ f a s | err x ↦ err x ]) ≡ ok (b, db')
        → (a : A) × (s : Db) × (m db ≡ ok (a, s)) × (f a s ≡ ok (b, db'))
    go (ok (a, s)) h e = (a, s, h, e)
    go (err x) h e = cc

module _ {A : Type 0} (R : Db → Db → Type 0) (hist : IsHistory R) where
  pub Follows-pure : (a : A) → Follows R (pure a)
  unfolding pure
  Follows-pure a = record {
    at = λ db db' b e. subst (R db) (ok_state a b db db' e) (hist.stays db);
  }

  pub Follows-gets : (f : Db → A) → Follows R (gets f)
  unfolding gets
  Follows-gets f = record {
    at = λ db db' b e. subst (R db) (ok_state (f db) b db db' e) (hist.stays db);
  }

  pub Follows-fail : (x : Error) → Follows R (fail {A = A} x)
  unfolding fail
  Follows-fail x = record { at = λ db db' b e. cc }

  pub Follows-lift : (r : Result A) → Follows R (lift r)
  unfolding lift pure fail
  Follows-lift (ok a) = record { at = (Follows-pure a).at }
  Follows-lift (err x) = record { at = (Follows-fail x).at }

  one_state :
      (o : Option A) (b : A) (s t : Db)
      → ◌≡◌ {A = Result (A × Db)} (elim o [ none ↦ err no_rows | some a ↦ ok (a, s) ]) (ok (b, t))
      → s ≡ t
  one_state none b s t e = cc
  one_state (some a) b s t e = cc

  pub Follows-one : (f : Db → Option A) → Follows R (one f)
  unfolding one
  Follows-one f = record {
    at = λ db db' b e. subst (R db) (one_state (f db) b db db' e) (hist.stays db);
  }

  pub Follows-if :
      (b : Bool) (m n : Tx A) → Follows R m → Follows R n → Follows R (if b then m else n)
  Follows-if true m n km kn = km
  Follows-if false m n km kn = kn

  pub Follows-or_stale : (m : Tx A) → Follows R m → Follows R (or_stale m)
  unfolding or_stale
  Follows-or_stale m km = record { at = λ db db' a e. km.at db db' a (ground arith) }

  pub Follows-or_missing : (x : Error) (m : Tx A) → Follows R m → Follows R (or_missing x m)
  unfolding or_missing
  Follows-or_missing x m km = record { at = λ db db' a e. km.at db db' a (ground arith) }

module _ {A B : Type 0} (R : Db → Db → Type 0) (hist : IsHistory R) where
  pub Follows-bind :
      (m : Tx A) (f : A → Tx B) → Follows R m → ((a : A) → Follows R (f a)) → Follows R (m >>= f)
  Follows-bind m f km kf = record {
    at = λ db db' b e.
        let (a, s, em, ef) = >>=-eq-ok m f db db' b e in
        hist.chains db s db' (km.at db s a em) ((kf a).at s db' b ef);
  }

module _ {A : Type 0} (R : Db → Db → Type 0) (hist : IsHistory R) where
  pub Leads-in_tx : (m : Tx A) → Follows R m → Leads R (in_tx m)
  unfolding in_tx
  Leads-in_tx m km = record { at = λ db. go db (m db) refl }
    where
      go : (db : Db) (r : Result (A × Db)) → m db ≡ r → R db (settle r db).1
      go db (ok (a, db')) e = km.at db db' a e
      go db (err x) e = hist.stays db

  pub Leads-after : (r : Result (Unit {0})) (m : Action A) → Leads R m → Leads R (after r m)
  unfolding after
  Leads-after (ok u) m km = record { at = km.at }
  Leads-after (err x) m km = record { at = hist.stays }

-- the rules for `search`
pub ruleset follows_rules = (
  Follows-pure, Follows-gets, Follows-fail, Follows-lift, Follows-one, Follows-if, Follows-or_stale,
  Follows-or_missing, Follows-bind,
)

-- what holds of a transaction under one relation holds under a coarser one
pub Follows-coarser :
    {A : Type 0} (R S : Db → Db → Type 0) (m : Tx A)
    → ((a b : Db) → R a b → S a b)
    → Follows R m
    → Follows S m
Follows-coarser R S m h km = record { at = λ db db' a e. h db db' (km.at db db' a e) }
