-- ===== src/Idem.antt =====
-- internal/domain/idem/idem.go: exactly-once semantics for retryable writes.
use Prim.Native.Char.{nul}
use bcars_portal.Base.{
  ℕ, String, Bool, true, false, ◌||◌, Option, none, some, List, ◌==◌, str_eq, if◌then◌else◌,
}
use bcars_portal.GoText.{join}
use bcars_portal.Outcome.{Error, key_reused}
use bcars_portal.Store.Rows.{IdempotencyRecord}
use bcars_portal.Store.Tx.{Tx, pure, fail, ◌>>=◌, null_string, text_of, id_of}
use bcars_portal.Store.KeyQueries.{
  get_idempotency_record, create_idempotency_record, complete_idempotency_record,
}

-- What the services take from outside: `hex(sha256(…))`; `strings.ToLower` and `strings.ToUpper`,
-- which follow the tables of Unicode; the digest of a rate-limited target, its truncated HMAC or,
-- without a key, SHA-256; and the package variable `failBeforeCommit` of
-- internal/domain/batches/post.go, nil in production.
pub record Env : Type 0 where
  pub sha256_hex : String → String
  pub to_lower : String → String
  pub to_upper : String → String
  pub hmac_target : String → String
  pub fail_before_commit : Option Error

pub record Claim : Type 0 where
  pub replay : Bool
  pub resource_kind : String
  pub resource_id : ℕ
  pub record_id : ℕ

-- `Hash`
unfoldable pub hash : Env → List String → String
hash env parts = env.sha256_hex (join (String.◌∷◌ nul String.[]) parts)

abbrev no_claim : Claim
no_claim = record { replay = false; resource_kind = ""; resource_id = 0; record_id = 0 }

abbrev fresh_claim : IdempotencyRecord → Claim
fresh_claim r = record { replay = false; resource_kind = ""; resource_id = 0; record_id = r.id }

abbrev pub replay_claim : IdempotencyRecord → Claim
replay_claim r = record {
  replay = true;
  resource_kind = text_of r.resource_kind;
  resource_id = id_of r.resource_id;
  record_id = 0;
}

-- what `Begin` does with the record that it found
unfoldable pub claim_from : ℕ → String → String → String → Option IdempotencyRecord → Tx Claim
claim_from actor operation key request_hash (some r) =
    if str_eq r.request_hash request_hash then pure (replay_claim r) else fail key_reused
claim_from actor operation key request_hash none = do
  r ← create_idempotency_record actor operation key request_hash
  pure (fresh_claim r)

-- `Begin`
unfoldable pub begin : ℕ → String → String → String → Tx Claim
begin actor operation key request_hash = if str_eq key "" then pure no_claim else do
  existing ← get_idempotency_record actor operation key
  claim_from actor operation key request_hash existing

abbrev pub null_id : ℕ → Option ℕ
null_id id = if id == 0 then none else some id

-- `Claim.Complete`
unfoldable pub complete : Claim → String → ℕ → Tx (Unit {0})
complete claim kind id =
    if claim.record_id == 0 || claim.replay
    then pure tt
    else complete_idempotency_record (null_string kind) (null_id id) claim.record_id
