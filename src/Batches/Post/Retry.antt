-- ===== src/Batches/Post/Retry.antt =====
-- A post that is sent again with its idempotency key (internal/domain/batches/post.go and
-- internal/domain/idem/idem.go).
use bcars_portal.Base.{
  ℕ, String, ◌≡◌, ◌∙◌, refl, ap, Bool, true, false, Option, some, str_eq, find_by, inl, inr,
  Bool-cases,
}
use bcars_portal.Outcome.{Result, ok, err, key_reused}
use bcars_portal.Authz.{Principal, authorize, user_id_of}
use bcars_portal.Store.Rows.{IdempotencyRecord}
use bcars_portal.Store.Tx.{Db, Instant, Action, in_tx, after, settle, gets, pure, fail, id_of}
use bcars_portal.Store.KeyQueries.{in_scope, get_idempotency_record}
use bcars_portal.Store.Follows.{Leads, Leads-in_tx}
use bcars_portal.Store.Runs.{>>=-ok, >>=-err}
use bcars_portal.Idem.{Env, begin, claim_from, replay_claim}
use bcars_portal.Batches.Types.{Posted}
use bcars_portal.Batches.Reads.{load_posted-Follows}
use bcars_portal.Batches.Post.{
  PostParams, post_hash, op_batch_post, load_posted, post_claimed, post_body, post,
}
use bcars_portal.Batches.Post.Effect.{Same, Same-IsHistory}

-- the record that the caller's key has
abbrev pub key_record : Option Principal → PostParams → Db → Option IdempotencyRecord
key_record p params db =
    find_by (in_scope (user_id_of p) op_batch_post params.idempotency_key) db.idempotency_records

-- what a post with a key that has a record answers
abbrev pub retry : Bool → ℕ → Action Posted
retry true id = in_tx (load_posted id)
retry false id = λ db. (err key_reused, db)

begin_record :
    (actor : ℕ) (op key h : String) (db : Db) (r : IdempotencyRecord)
    → str_eq key "" ≡ false
    → find_by (in_scope actor op key) db.idempotency_records ≡ some r
    → begin actor op key h db ≡ claim_from actor op key h (some r) db
unfolding begin get_idempotency_record gets
begin_record actor op key h db r named found = rw named (
    >>=-ok (gets (λ d. find_by (in_scope actor op key) d.idempotency_records)) _ db db _ refl
    ∙ ap (λ o. claim_from actor op key h o db) found)

claim_from-same :
    (actor : ℕ) (op key h : String) (db : Db) (r : IdempotencyRecord)
    → str_eq r.request_hash h ≡ true
    → claim_from actor op key h (some r) db ≡ ok (replay_claim r, db)
unfolding claim_from pure
claim_from-same actor op key h db r e = rw e refl

claim_from-other :
    (actor : ℕ) (op key h : String) (db : Db) (r : IdempotencyRecord)
    → str_eq r.request_hash h ≡ false
    → claim_from actor op key h (some r) db ≡ err key_reused
unfolding claim_from fail
claim_from-other actor op key h db r e = rw e refl

-- the transaction of a post whose key has a record
module _ (env : Env) (actor batch_id : ℕ) (params : PostParams) (now : Option Instant) (db : Db)
    (r : IdempotencyRecord) (named : str_eq params.idempotency_key "" ≡ false)
    (found : find_by (in_scope actor op_batch_post params.idempotency_key) db.idempotency_records
      ≡ some r) where
  begun :
      begin actor op_batch_post params.idempotency_key (post_hash env batch_id params) db
      ≡ claim_from actor op_batch_post params.idempotency_key
          (post_hash env batch_id params)
          (some r)
          db
  begun =
      begin_record actor op_batch_post params.idempotency_key (post_hash env batch_id params) db r
        named found

  body_retry :
      settle (post_body env actor batch_id params now db) db
      ≡ retry (str_eq r.request_hash (post_hash env batch_id params)) (id_of r.resource_id) db
  unfolding post_body post_claimed in_tx
  body_retry = elim (Bool-cases (str_eq r.request_hash (post_hash env batch_id params))) [
    | inl same ↦ rw same (
        ap (λ x. settle x db)
          (>>=-ok (begin actor op_batch_post params.idempotency_key (post_hash env batch_id params))
            (post_claimed env actor batch_id params now) db db (replay_claim r)
            (begun
              ∙ claim_from-same actor op_batch_post params.idempotency_key
                  (post_hash env batch_id params) db r same)))
    | inr other ↦ rw other (
        ap (λ x. settle x db)
          (>>=-err
            (begin actor op_batch_post params.idempotency_key (post_hash env batch_id params))
            (post_claimed env actor batch_id params now) db key_reused
            (begun
              ∙ claim_from-other actor op_batch_post params.idempotency_key
                  (post_hash env batch_id params) db r other)))
  ]

-- a retry changes no table
retry-Same : (same : Bool) (id : ℕ) → Leads Same (retry same id)
retry-Same true id =
    Leads-in_tx Same Same-IsHistory (load_posted id) (load_posted-Follows Same Same-IsHistory id)
retry-Same false id = record { at = λ db. refl }

-- Where a caller may post and sends a confirmed post with a key that already has a record, the
-- request is answered by reading back the batch of that record if the hash of the request is the
-- recorded one, and is refused as a reuse of the key otherwise; either way no table changes.
pub post-retry :
    (env : Env) (p : Option Principal) (batch_id : ℕ) (params : PostParams) (now : Option Instant)
    (db : Db) (r : IdempotencyRecord)
    → authorize p "payment.post" ≡ ok tt
    → params.confirm ≡ true
    → str_eq params.idempotency_key "" ≡ false
    → key_record p params db ≡ some r
    → (post env p batch_id params now db
        ≡ retry (str_eq r.request_hash (post_hash env batch_id params)) (id_of r.resource_id) db)
      × ((post env p batch_id params now db).1 ≡ db)
unfolding post after in_tx post_body post_claimed
post-retry env p batch_id params now db r allowed confirmed named found =
    let same = str_eq r.request_hash (post_hash env batch_id params) in
    let answer : post env p batch_id params now db ≡ retry same (id_of r.resource_id) db =
      rw (allowed, confirmed, named)
        (body_retry env (user_id_of p) batch_id params now db r named found) in
    (
      answer,
      ap (λ (x : Result Posted × Db). x.1) answer ∙ (retry-Same same (id_of r.resource_id)).at db,
    )
