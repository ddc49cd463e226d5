-- ===== src/Imports/Reimport.antt =====
-- Importing the same row again changes nothing.
use bcars_portal.Base.{
  eq_refl, ℕ, String, Bool, true, false, not, ◌&&◌, ◌||◌, ◌≡◌, refl, sym, ◌∙◌, ap, Option, none,
  some, [], ◌∷◌, ◌++◌, str_eq, exists_by, arith, Bool-cases, inl, inr, subst,
}
use bcars_portal.Base.FindLaws.{exists_by-last}
use bcars_portal.Outcome.{ok}
use bcars_portal.GoText.Dates.{is_iso_date}
use bcars_portal.Store.Rows.{CoverageEvent}
use bcars_portal.Store.Tx.{Db, Tx, Instant, pure, gets, ◌>>=◌, ◌>>◌}
use bcars_portal.Store.Follows.{>>=-eq-ok, gets-eq-ok, pure-eq-ok}
use bcars_portal.Store.GrantQueries.{create_honorary_grant, new_grant}
use bcars_portal.Store.CoverageQueries.{
  create_coverage_event, get_effective_coverage_event, is_some, new_event,
}
use bcars_portal.Store.CoverageQueries.Inserts.{create_coverage_event-eq-ok}
use bcars_portal.Imports.Dues.{
  NormalizedRecord, DecisionPayload, is_lifetime_honorary, coverage_date_for, is_open_grant,
  list_honorary_grants, ensure_lifetime_grant, imported_for, find_import_coverage_event,
  append_import, unless_found, ensure_import_coverage, apply_dues_decisions, record_date,
  record_lifetime, lifetime_grant, import_event,
}
use bcars_portal.Imports.Found.{
  has_lifetime, lifetime_of, has_lifetime-exists_by, has_import, has_import-exists_by,
  create_honorary_grant-eq-ok,
}

-- a grant that is there is not made again
ensure_lifetime_grant-again :
    (m actor : ℕ) (now : Instant) (db : Db)
    → has_lifetime m db ≡ true
    → ensure_lifetime_grant m actor now db ≡ ok (tt, db)
unfolding ensure_lifetime_grant ◌>>=◌
ensure_lifetime_grant-again m actor now db h = ground (arith, h)

-- after it, there is one, and the decisions are as they were
ensure_lifetime_grant-lem :
    (m actor : ℕ) (now : Instant) (db db' : Db) (u : Unit {0})
    → ensure_lifetime_grant m actor now db ≡ ok (u, db')
    → (has_lifetime m db' ≡ true) × (db'.coverage_events ≡ db.coverage_events)
unfolding ensure_lifetime_grant
ensure_lifetime_grant-lem m actor now db db' u e =
    let (existing, s, e1, k) = >>=-eq-ok (gets (list_honorary_grants m)) _ db db' u e in
    let (listed, same) = gets-eq-ok (list_honorary_grants m) existing db s e1 in
    elim (Bool-cases (exists_by is_open_grant existing)) [
      | inl h ↦
          let (unit_is, ended) = pure-eq-ok tt u s db' (rw h at k) in
          let back : db' ≡ db = sym ended ∙ same in
          subst (λ x. (has_lifetime m x ≡ true) × (x.coverage_events ≡ db.coverage_events))
            (sym back) (ap (exists_by is_open_grant) (sym listed) ∙ h, refl)
      | inr h ↦
          let (g, t, made, k2) =
            >>=-eq-ok (create_honorary_grant (lifetime_grant m actor now)) _ s db' u (rw h at k) in
          let (unit_is, ended) = pure-eq-ok tt u t db' k2 in
          let state = create_honorary_grant-eq-ok (lifetime_grant m actor now) s t g made in
          let made_db : Db = record db {
            honorary_grants = db.honorary_grants ++ new_grant db (lifetime_grant m actor now) ∷ [];
          } in
          let built : made_db ≡ db' = sym (
            sym ended
            ∙ subst
                (λ x. t ≡ record x {
                  honorary_grants =
                      x.honorary_grants ++ new_grant x (lifetime_grant m actor now) ∷ [];
                })
                same state) in
          subst (λ x. (has_lifetime m x ≡ true) × (x.coverage_events ≡ db.coverage_events)) built
            (
              has_lifetime-exists_by m made_db
                  ∙ exists_by-last (lifetime_of m) db.honorary_grants
                      (new_grant db (lifetime_grant m actor now)) (ground arith),
              refl,
            )
    ]

-- a decision that is there is not made again
ensure_import_coverage-again :
    (m : ℕ) (date : String) (run_id actor : ℕ) (now : Instant) (db : Db)
    → has_import m date db ≡ true
    → ensure_import_coverage m date run_id actor now db ≡ ok (tt, db)
unfolding ensure_import_coverage unless_found ◌>>=◌
ensure_import_coverage-again m date run_id actor now db h = ground (arith, h)

append_import-lem :
    (m : ℕ) (date : String) (run_id actor : ℕ) (now : Instant) (db db' : Db) (u : Unit {0})
    → append_import m date run_id actor now db ≡ ok (u, db')
    → (has_import m date db' ≡ true) × (db'.honorary_grants ≡ db.honorary_grants)
unfolding append_import get_effective_coverage_event
append_import-lem m date run_id actor now db db' u e =
    let (current, s, e1, k1) = >>=-eq-ok (get_effective_coverage_event m) _ db db' u e in
    let (is, same) = gets-eq-ok _ current db s e1 in
    let (c, t, made, k2) =
      >>=-eq-ok (create_coverage_event (import_event m date run_id actor now current)) _ s db' u
        k1 in
    let (unit_is, ended) = pure-eq-ok tt u t db' k2 in
    let arg = import_event m date run_id actor now current in
    let inserted = create_coverage_event-eq-ok arg s t c made in
    let made_db : Db = record s { coverage_events = s.coverage_events ++ new_event s arg ∷ [] } in
    subst (λ x. (has_import m date x ≡ true) × (x.honorary_grants ≡ db.honorary_grants))
      (sym inserted.state ∙ ended)
      (
        has_import-exists_by m date made_db
            ∙ exists_by-last (λ c. imported_for m date c && true) s.coverage_events
                (new_event s arg) (ground (arith, eq_refl date)),
        ap (λ x. x.honorary_grants) same,
      )

unless_found-lem :
    (m : ℕ) (date : String) (run_id actor : ℕ) (now : Instant) (db db' : Db) (u : Unit {0})
    (found : Option CoverageEvent)
    → find_import_coverage_event m date db ≡ found
    → unless_found found (append_import m date run_id actor now) db ≡ ok (u, db')
    → (has_import m date db' ≡ true) × (db'.honorary_grants ≡ db.honorary_grants)
unfolding unless_found
unless_found-lem m date run_id actor now db db' u none is e =
    append_import-lem m date run_id actor now db db' u e
unless_found-lem m date run_id actor now db db' u (some c) is e =
    let (unit_is, ended) = pure-eq-ok tt u db db' e in
    subst (λ x. (has_import m date x ≡ true) × (x.honorary_grants ≡ db.honorary_grants)) ended
      (ap is_some is, refl)

ensure_import_coverage-lem :
    (m : ℕ) (date : String) (run_id actor : ℕ) (now : Instant) (db db' : Db) (u : Unit {0})
    → ensure_import_coverage m date run_id actor now db ≡ ok (u, db')
    → (has_import m date db' ≡ true) × (db'.honorary_grants ≡ db.honorary_grants)
unfolding ensure_import_coverage
ensure_import_coverage-lem m date run_id actor now db db' u e =
    let (found, s, e1, k) = >>=-eq-ok (gets (find_import_coverage_event m date)) _ db db' u e in
    let (is, same) = gets-eq-ok (find_import_coverage_event m date) found db s e1 in
    unless_found-lem m date run_id actor now db db' u found (sym is) (
      subst (λ x. unless_found found (append_import m date run_id actor now) x ≡ ok (u, db')) same
        k)

record_date-lem :
    (m : ℕ) (date : String) (run_id actor : ℕ) (now : Instant) (db db' : Db) (u : Unit {0})
    → record_date m date run_id actor now db ≡ ok (u, db')
    → ((str_eq date "" || not (is_iso_date date) || has_import m date db') ≡ true)
      × (db'.honorary_grants ≡ db.honorary_grants)
unfolding record_date
record_date-lem m date run_id actor now db db' u e =
    elim (Bool-cases (str_eq date "" || not (is_iso_date date))) [
      | inl skipped ↦
          let (unit_is, same) = pure-eq-ok tt u db db' (rw skipped at e) in
          (ground (arith, skipped), ap (λ x. x.honorary_grants) (sym same))
      | inr kept ↦
          let (found, same) =
            ensure_import_coverage-lem m date run_id actor now db db' u (rw kept at e) in
          (ground (arith, found), same)
    ]

record_date-again :
    (m : ℕ) (date : String) (run_id actor : ℕ) (now : Instant) (db : Db)
    → (str_eq date "" || not (is_iso_date date) || has_import m date db) ≡ true
    → record_date m date run_id actor now db ≡ ok (tt, db)
unfolding record_date pure
record_date-again m date run_id actor now db h =
    elim (Bool-cases (str_eq date "" || not (is_iso_date date))) [
      | inl skipped ↦ rw skipped refl
      | inr kept ↦
          rw kept
            (ensure_import_coverage-again m date run_id actor now db (ground (arith, kept, h)))
    ]

record_lifetime-lem :
    (lifetime : Bool) (m actor : ℕ) (now : Instant) (db db' : Db) (u : Unit {0})
    → record_lifetime lifetime m actor now db ≡ ok (u, db')
    → (not lifetime || has_lifetime m db') ≡ true
unfolding record_lifetime
record_lifetime-lem true m actor now db db' u e =
    (ensure_lifetime_grant-lem m actor now db db' u e).0
record_lifetime-lem false m actor now db db' u e = refl

record_lifetime-again :
    (lifetime : Bool) (m actor : ℕ) (now : Instant) (db : Db)
    → (not lifetime || has_lifetime m db) ≡ true
    → record_lifetime lifetime m actor now db ≡ ok (tt, db)
unfolding record_lifetime pure
record_lifetime-again true m actor now db h = ensure_lifetime_grant-again m actor now db h
record_lifetime-again false m actor now db h = refl

has_lifetime-same :
    (m : ℕ) (db db' : Db)
    → db'.honorary_grants ≡ db.honorary_grants
    → has_lifetime m db' ≡ has_lifetime m db
has_lifetime-same m db db' same =
    has_lifetime-exists_by m db'
    ∙ ap (exists_by (lifetime_of m)) same
    ∙ sym (has_lifetime-exists_by m db)

>>-ok :
    (m n : Tx (Unit {0})) (db s db' : Db) (u : Unit {0})
    → m db ≡ ok (tt, s)
    → n s ≡ ok (u, db')
    → (m >> n) db ≡ ok (u, db')
unfolding ◌>>=◌
>>-ok m n db s db' u e k = ground (arith, e, k)

-- Importing the same row again changes nothing: where the dues decisions of a row were applied to a
-- membership and nothing happened since, applying them again, whatever the run, the caller and the
-- time, succeeds and leaves every table as it is.
pub apply_dues_decisions-again :
    (m : ℕ) (norm : NormalizedRecord) (payload : DecisionPayload) (run_id actor : ℕ) (now : Instant)
    (db db' : Db) (u : Unit {0}) (later_run later_actor : ℕ) (later : Instant)
    → apply_dues_decisions m norm payload run_id actor now db ≡ ok (u, db')
    → apply_dues_decisions m norm payload later_run later_actor later db' ≡ ok (tt, db')
unfolding apply_dues_decisions
apply_dues_decisions-again m norm payload run_id actor now db db' u later_run later_actor later e =
    let lifetime = is_lifetime_honorary norm payload in
    let date = coverage_date_for norm payload lifetime in
    let (u1, s, e1, k1) = >>=-eq-ok (record_lifetime lifetime m actor now) _ db db' u e in
    let granted = record_lifetime-lem lifetime m actor now db s u1 e1 in
    let (recorded, same) = record_date-lem m date run_id actor now s db' u k1 in
    >>-ok (record_lifetime lifetime m later_actor later)
      (record_date m date later_run later_actor later) db' db' db' tt
      (record_lifetime-again lifetime m later_actor later db'
        (ap (λ b. not lifetime || b) (has_lifetime-same m s db' same) ∙ granted))
      (record_date-again m date later_run later_actor later db' recorded)
