-- ===== src/Store/CoverageQueries/Inserts.antt =====
-- What a successful insert of a coverage decision has checked, and what it has written.
use bcars_portal.Base.{◌≡◌, true, [], ◌∷◌, ◌++◌, arith}
use bcars_portal.Outcome.{ok}
use bcars_portal.Store.Rows.{CoverageEvent}
use bcars_portal.Store.Tx.{Db}
use bcars_portal.Store.CoverageQueries.{
  CreateCoverageEventParams, create_coverage_event, new_event, event_unique, event_references,
}

pub record EventInserted (arg : CreateCoverageEventParams) (db db' : Db) (c : CoverageEvent)
    : Type 0 where
  pub row : c ≡ new_event db arg
  pub state : db' ≡ record db { coverage_events = db.coverage_events ++ new_event db arg ∷ [] }
  pub unique : event_unique arg db ≡ true
  pub references : event_references arg db ≡ true

pub create_coverage_event-eq-ok :
    (arg : CreateCoverageEventParams) (db db' : Db) (c : CoverageEvent)
    → create_coverage_event arg db ≡ ok (c, db')
    → EventInserted arg db db' c
unfolding create_coverage_event
create_coverage_event-eq-ok arg db db' c e = record {
  row = ground arith;
  state = ground arith;
  unique = ground arith;
  references = ground arith;
}
