-- ===== src/Outcome.antt =====
-- Errors as values: the sentinel errors of internal/domain/authz, internal/domain/idem,
-- internal/domain/batches, internal/domain/dues, internal/domain/members and
-- internal/domain/changerequests, `sql.ErrNoRows`, `db.ErrStale`, and the failures
-- of the schema's constraints.
use bcars_portal.Base.{Bool, true, false}

pub data Error : Type 0 where
  unauthenticated denied : Error
  no_rows stale : Error
  key_reused : Error
  batch_not_open reason_required label_required invalid_amount invalid_method invalid_date : Error
  entry_not_in_batch unknown_state : Error
  empty_batch confirmation_required idempotency_key_required injected : Error
  payment_superseded not_an_original_or_replacement : Error
  rate_exists negative_rate unknown_status : Error
  invalid_audience : Error
  source_required summary_required too_long no_target unknown_operation unknown_target_kind : Error
  target_incomplete value_required too_many_items no_items unknown_person not_found : Error
  already_resolved pending_items not_yours decided_items unknown_sensitivity : Error
  item_not_in_request item_decided no_adapter self_review verification_note_required : Error
  rejection_reason_required unknown_decision target_required bad_value : Error
  unique_failed check_failed foreign_key_failed : Error
  -- no error of the program: the rounds of a loop of the model ran out
  out_of_rounds : Error

pub data Result {ℓ} (A : Type ℓ) : Type ℓ where
  ok : A → Result A
  err : Error → Result A

-- `if !condition { return e }`
abbrev pub guard : Bool → Error → Result (Unit {0})
guard true e = ok tt
guard false e = err e

-- the next step where there was no error
infixl 5 ◌>>=◌ ◌>>◌
abbrev pub ◌>>=◌ {ℓ κ} :
    {A : Type ℓ} {B : Type κ} (step : Result A) (next : A → Result B) → Result B
err e >>= next = err e
ok value >>= next = next value

abbrev pub ◌>>◌ {ℓ} : {B : Type ℓ} (check : Result (Unit {0})) (rest : Result B) → Result B
check >> rest = check >>= λ passed. rest
