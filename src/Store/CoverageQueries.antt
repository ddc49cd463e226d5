-- ===== src/Store/CoverageQueries.antt =====
-- internal/db/sqlc/treasury.sql.go, dues.sql.go and corrections.sql.go: the append-only coverage
-- decisions. No statement updates or deletes one.
pub mod Inserts
use bcars_portal.Base.{
  ℕ, String, Bool, true, false, ◌&&◌, ◌||◌, not, Option, none, some, List, [], ◌∷◌, ◌++◌, select,
  exists_by, order_by, leb, ◌==◌, if◌then◌else◌, head?,
}
use bcars_portal.GoText.{text_ltb}
use bcars_portal.GoText.Dates.{is_date_glob}
use bcars_portal.Outcome.{ok, err, check_failed, unique_failed, foreign_key_failed}
use bcars_portal.Store.Rows.{
  CoverageEvent, ReasonKind, reason_payment, reason_correction, reason_adjustment,
  reason_legacy_import, reason_import,
}
use bcars_portal.Store.Tx.{Db, Tx, gets, next_id}
use bcars_portal.Store.EntryQueries.{known_membership}
use bcars_portal.Store.LedgerQueries.{is_id}

pub record CreateCoverageEventParams : Type 0 where
  pub membership_id : ℕ
  pub paid_through : String
  pub reason_kind : ReasonKind
  pub reason : Option String
  pub payment_id : Option ℕ
  pub import_run_id : Option ℕ
  pub supersedes_event_id : Option ℕ
  pub source_note : Option String
  pub decided_by : Option ℕ
  pub decided_at : String

-- the row that CreateCoverageEvent inserts
abbrev pub new_event : Db → CreateCoverageEventParams → CoverageEvent
new_event db arg = record {
  id = next_id (λ c. c.id) db.coverage_events;
  membership_id = arg.membership_id;
  paid_through = arg.paid_through;
  reason_kind = arg.reason_kind;
  reason = arg.reason;
  payment_id = arg.payment_id;
  import_run_id = arg.import_run_id;
  supersedes_event_id = arg.supersedes_event_id;
  source_note = arg.source_note;
  decided_by = arg.decided_by;
  decided_at = arg.decided_at;
  created_at = db.clock.iso_timestamp;
}

abbrev pub is_some {ℓ} : {A : Type ℓ} → Option A → Bool
is_some none = false
is_some (some a) = true

-- A payment or a correction names a payment, an import names none.
abbrev pub reason_check : ReasonKind → Option ℕ → Bool
reason_check reason_payment payment = is_some payment
reason_check reason_correction payment = is_some payment
reason_check reason_adjustment payment = true
reason_check reason_legacy_import payment = not (is_some payment)
reason_check reason_import payment = not (is_some payment)

abbrev is_legacy : ReasonKind → Bool
is_legacy reason_legacy_import = true
is_legacy _ = false

-- the CHECK constraints of coverage_events; `id <> supersedes_event_id` follows from the foreign key
-- at an insert
unfoldable pub event_checks : CreateCoverageEventParams → Bool
event_checks arg = is_date_glob arg.paid_through && reason_check arg.reason_kind arg.payment_id

-- `EXISTS (SELECT 1 FROM coverage_events s WHERE s.supersedes_event_id = id)`
abbrev pub is_superseded : List CoverageEvent → ℕ → Bool
is_superseded events id = exists_by (λ s. is_id s.supersedes_event_id id) events

-- ux_coverage_supersedes and ux_coverage_legacy_backfill
abbrev taken : List CoverageEvent → Option ℕ → Bool
taken events none = false
taken events (some id) = is_superseded events id

unfoldable pub event_unique : CreateCoverageEventParams → Db → Bool
event_unique arg db =
    not (taken db.coverage_events arg.supersedes_event_id)
    && not (
        is_legacy arg.reason_kind
        && exists_by (λ c. c.membership_id == arg.membership_id && is_legacy c.reason_kind)
            db.coverage_events)

abbrev known_or_null : Option ℕ → (ℕ → Bool) → Bool
known_or_null none known = true
known_or_null (some id) known = known id

unfoldable pub event_references : CreateCoverageEventParams → Db → Bool
event_references arg db =
    known_membership arg.membership_id db
    && known_or_null arg.payment_id (λ id. exists_by (λ p. p.id == id) db.payments)
    && known_or_null arg.supersedes_event_id (λ id. exists_by (λ c. c.id == id) db.coverage_events)

-- CreateCoverageEvent
unfoldable pub create_coverage_event : CreateCoverageEventParams → Tx CoverageEvent
create_coverage_event arg db =
    if not (event_checks arg)
    then err check_failed
    else if not (event_unique arg db)
    then err unique_failed
    else if not (event_references arg db)
    then err foreign_key_failed
    else ok (
      new_event db arg,
      record db { coverage_events = db.coverage_events ++ new_event db arg ∷ [] },
    )

-- `ORDER BY decided_at DESC, id DESC`
abbrev pub newest_first : CoverageEvent → CoverageEvent → Bool
newest_first a b =
    text_ltb b.decided_at a.decided_at
    || (not (text_ltb a.decided_at b.decided_at) && leb b.id a.id)

-- ListCoverageEventsByMembership
unfoldable pub list_coverage_events_by_membership : ℕ → Tx (List CoverageEvent)
list_coverage_events_by_membership membership_id = gets (λ db.
    order_by newest_first (select (λ c. c.membership_id == membership_id) db.coverage_events))

-- the decisions for a membership that nothing supersedes
abbrev pub standing_of : ℕ → List CoverageEvent → List CoverageEvent
standing_of membership_id events =
    select (λ c. c.membership_id == membership_id && not (is_superseded events c.id)) events

abbrev pub effective_of : ℕ → List CoverageEvent → Option CoverageEvent
effective_of membership_id events = head? (order_by newest_first (standing_of membership_id events))

-- GetEffectiveCoverageEvent, with `sql.ErrNoRows` as an absent value
unfoldable pub get_effective_coverage_event : ℕ → Tx (Option CoverageEvent)
get_effective_coverage_event membership_id =
    gets (λ db. effective_of membership_id db.coverage_events)

-- GetCoverageEventByPayment: the latest decision that names the payment
unfoldable pub get_coverage_event_by_payment : ℕ → Tx (Option CoverageEvent)
get_coverage_event_by_payment payment_id = gets (λ db. head? (
    order_by (λ a b. leb b.id a.id)
      (select (λ c. is_id c.payment_id payment_id) db.coverage_events)))
