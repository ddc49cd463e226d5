-- ===== src/Store/KeyQueries.antt =====
-- internal/db/sqlc/treasury.sql.go and batches.sql.go: the records of keyed requests.
use bcars_portal.Base.{
  ℕ, String, Bool, ◌&&◌, Option, none, [], ◌∷◌, ◌++◌, find_by, exists_by, update_where, ◌==◌,
  str_eq, if◌then◌else◌,
}
use bcars_portal.Outcome.{ok, err, unique_failed}
use bcars_portal.Store.Rows.{IdempotencyRecord}
use bcars_portal.Store.Tx.{Db, Tx, gets, next_id}

-- `actor_user_id = ? AND operation = ? AND idempotency_key = ?`
abbrev pub in_scope : ℕ → String → String → IdempotencyRecord → Bool
in_scope actor operation key r =
    r.actor_user_id == actor && str_eq r.operation operation && str_eq r.idempotency_key key

-- GetIdempotencyRecord, with `sql.ErrNoRows` as an absent value
unfoldable pub get_idempotency_record : ℕ → String → String → Tx (Option IdempotencyRecord)
get_idempotency_record actor operation key =
    gets (λ db. find_by (in_scope actor operation key) db.idempotency_records)

-- the row that CreateIdempotencyRecord inserts
abbrev pub new_record : Db → ℕ → String → String → String → IdempotencyRecord
new_record db actor operation key hash = record {
  id = next_id (λ r. r.id) db.idempotency_records;
  actor_user_id = actor;
  operation = operation;
  idempotency_key = key;
  request_hash = hash;
  resource_kind = none;
  resource_id = none;
  created_at = db.clock.iso_timestamp;
}

-- CreateIdempotencyRecord, with ux_idempotency_scope
unfoldable pub create_idempotency_record : ℕ → String → String → String → Tx IdempotencyRecord
create_idempotency_record actor operation key hash db =
    if exists_by (in_scope actor operation key) db.idempotency_records
    then err unique_failed
    else ok (
      new_record db actor operation key hash,
      record db {
        idempotency_records = db.idempotency_records ++ new_record db actor operation key hash ∷ [];
      },
    )

-- CompleteIdempotencyRecord
unfoldable pub complete_idempotency_record : Option String → Option ℕ → ℕ → Tx (Unit {0})
complete_idempotency_record kind resource id db = ok (
  tt,
  record db {
    idempotency_records =
        update_where (λ r. r.id == id)
          (λ r. record r { resource_kind = kind; resource_id = resource }) db.idempotency_records;
  },
)
