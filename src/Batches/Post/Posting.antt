-- ===== src/Batches/Post/Posting.antt =====
-- Posting a batch: what a successful `postTx` has written and answers.
use bcars_portal.Base.{
  ℕ, ◌+◌, String, ◌≡◌, ◌≢◌, refl, sym, ap, ap₂, ◌∙◌, true, Option, some, List, [], ◌∷◌, ◌++◌, map,
  arith, order_by, find_by, exists_by, update_where, Option-cases, inl, inr,
}
use bcars_portal.Base.ListLaws.{find_by-true}
use bcars_portal.Base.FindLaws.{exists_by-find_by-some}
use bcars_portal.Outcome.{ok}
use bcars_portal.Store.Rows.{Payment, PaymentBatch, PaymentBatchEntry, state_posted}
use bcars_portal.Store.Tx.{Db, Instant, ◌>>=◌, next_id, pure, gets, or_clock, or_stale}
use bcars_portal.Store.BatchQueries.{
  get_payment_batch, find_batch, mark_payment_batch_posted, open_at,
}
use bcars_portal.Store.EntryQueries.{
  list_payment_batch_entries, entries_of, by_sequence, get_payment_batch_totals,
}
use bcars_portal.Store.Follows.{Follows, Follows-one, >>=-eq-ok, pure-eq-ok, gets-eq-ok}
use bcars_portal.Idem.{Env}
use bcars_portal.Batches.Types.{Batch, Posted, assemble, payment_from_row, entries_if}
use bcars_portal.Batches.Reads.{
  assemble-Follows, post_checks-Follows, require_state-Follows, hook-Follows,
}
use bcars_portal.Batches.Post.{
  Rows, post_checks, require_state, require_entries, check_entries, hook, post_entries, post_tx,
}
use bcars_portal.Batches.Post.Effect.{
  payment_rows, Same, Same-IsHistory, OnlyLedger, post_entries-eq-ok, post_entries-OnlyLedger,
}

-- the rows of a batch in the order in which they are posted
abbrev pub draft : ℕ → Db → List PaymentBatchEntry
draft batch_id db = order_by by_sequence (entries_of batch_id db)

-- the payments that posting a batch appends
abbrev pub posted_payments : ℕ → ℕ → Instant → Db → List Payment
posted_payments actor batch_id t db =
    payment_rows actor batch_id t.iso_timestamp db.clock.iso_timestamp
      (next_id (λ p. p.id) db.payments) (draft batch_id db)

-- the batch as it is stored once it is posted
abbrev pub posted_batch : ℕ → String → String → PaymentBatch → PaymentBatch
posted_batch actor posted_at updated_at b = record {
  id = b.id;
  label = b.label;
  state = state_posted;
  default_amount_cents = b.default_amount_cents;
  default_paid_through = b.default_paid_through;
  opened_by = b.opened_by;
  opened_at = b.opened_at;
  posted_by = some actor;
  posted_at = some posted_at;
  abandoned_by = b.abandoned_by;
  abandoned_at = b.abandoned_at;
  abandon_reason = b.abandon_reason;
  version = b.version + 1;
  created_at = b.created_at;
  updated_at = updated_at;
  worksheet_run_id = b.worksheet_run_id;
}

-- the stored batches with the open batch of an id and version posted
abbrev pub posted_batches : ℕ → ℕ → ℕ → String → Db → List PaymentBatch
posted_batches actor batch_id version posted_at db =
    update_where (open_at batch_id version) (posted_batch actor posted_at db.clock.iso_timestamp)
      db.payment_batches

pub record Posts (actor batch_id version : ℕ) (t : Instant) (db db' : Db) (out : Posted)
    : Type 0 where
  pub filled : draft batch_id db ≢ []
  pub payments : db'.payments ≡ db.payments ++ posted_payments actor batch_id t db
  pub answer : out.payments ≡ map payment_from_row (posted_payments actor batch_id t db)
  pub entries : db'.payment_batch_entries ≡ db.payment_batch_entries
  pub corrections : db'.payment_corrections ≡ db.payment_corrections
  pub batches : db'.payment_batches ≡ posted_batches actor batch_id version t.iso_timestamp db
  pub was_open : exists_by (open_at batch_id version) db.payment_batches ≡ true
  pub batch_id_kept : out.batch.id ≡ batch_id
  pub state : out.batch.state ≡ state_posted
  pub version_next : out.batch.version ≡ version + 1

pub record Checked (batch_id : ℕ) (db : Db) (entries : List PaymentBatchEntry) : Type 0 where
  pub rows : entries ≡ draft batch_id db
  pub filled : entries ≢ []

require_entries-eq-ok :
    (es : List PaymentBatchEntry) (db db' : Db) (u : Unit {0})
    → require_entries es db ≡ ok (u, db')
    → es ≢ []
unfolding require_entries ◌>>=◌
require_entries-eq-ok [] db db' u e = λ q. cc e
require_entries-eq-ok (x ∷ es) db db' u e = λ q. cc q

get_batch-Same : (id : ℕ) → Follows Same (get_payment_batch id)
unfolding get_payment_batch
get_batch-Same id = Follows-one Same Same-IsHistory (find_batch id)

list-eq-ok :
    (id : ℕ) (a b : Db) (l : List PaymentBatchEntry)
    → list_payment_batch_entries id a ≡ ok (l, b)
    → l ≡ draft id a
unfolding list_payment_batch_entries gets
list-eq-ok id a b l e = cc e

post_checks-eq-ok :
    (batch_id : ℕ) (db db' : Db) (es : List PaymentBatchEntry)
    → post_checks batch_id db ≡ ok (es, db')
    → Checked batch_id db es
unfolding post_checks pure
post_checks-eq-ok batch_id db db' es h =
    let (b, s1, hb, h1) = >>=-eq-ok (get_payment_batch batch_id) _ db db' es h in
    let (u, s2, hu, h2) = >>=-eq-ok (require_state b) _ s1 db' es h1 in
    let (l, s3, hl, h3) = >>=-eq-ok (list_payment_batch_entries batch_id) _ s2 db' es h2 in
    let (v, s4, hv, h4) = >>=-eq-ok (require_entries l) _ s3 db' es h3 in
    let (w, s5, hw, h5) = >>=-eq-ok (check_entries l) _ s4 db' es h4 in
    let same1 : s1 ≡ db = (get_batch-Same batch_id).at db s1 b hb in
    let same2 : s2 ≡ s1 = (require_state-Follows Same Same-IsHistory b).at s1 s2 u hu in
    let listed : l ≡ draft batch_id s2 = list-eq-ok batch_id s2 s3 l hl in
    let full = require_entries-eq-ok l s3 s4 v hv in
    record {
      rows = cc (
        h5,
        listed,
        ap (λ (d : Db). draft batch_id d) same1,
        ap (λ (d : Db). draft batch_id d) same2,
      );
      filled = λ q. full (cc (h5, q));
    }

pub record Marked (actor : ℕ) (posted_at : String) (batch_id version : ℕ) (db db' : Db)
    (b : PaymentBatch) : Type 0 where
  pub batches : db'.payment_batches ≡ posted_batches actor batch_id version posted_at db
  pub was_open : exists_by (open_at batch_id version) db.payment_batches ≡ true
  pub same_id : b.id ≡ batch_id
  pub state : b.state ≡ state_posted
  pub version_next : b.version ≡ version + 1
  pub payments : db'.payments ≡ db.payments
  pub entries : db'.payment_batch_entries ≡ db.payment_batch_entries
  pub corrections : db'.payment_corrections ≡ db.payment_corrections

pub mark-eq-ok :
    (actor : ℕ) (posted_at : String) (batch_id version : ℕ) (db db' : Db) (b : PaymentBatch)
    → or_stale (mark_payment_batch_posted actor posted_at batch_id version) db ≡ ok (b, db')
    → Marked actor posted_at batch_id version db db' b
unfolding or_stale mark_payment_batch_posted
mark-eq-ok actor posted_at batch_id version db db' b h =
    elim (Option-cases (find_by (open_at batch_id version) db.payment_batches)) [
      | inl missing ↦ ground arith
      | inr (a, found) ↦
          let passes = find_by-true (open_at batch_id version) db.payment_batches a found in
          record {
            batches = ground (arith, found);
            was_open = exists_by-find_by-some (open_at batch_id version) db.payment_batches a found;
            same_id = ground (arith, passes, found);
            state = ground (arith, found);
            version_next = ground (arith, passes, found);
            payments = ground (arith, found);
            entries = ground (arith, found);
            corrections = ground (arith, found);
          }
    ]

pub record Assembled (row : PaymentBatch) (b : Batch) : Type 0 where
  pub same_id : b.id ≡ row.id
  pub state : b.state ≡ row.state
  pub same_version : b.version ≡ row.version

assemble-eq-ok :
    (row : PaymentBatch) (db db' : Db) (b : Batch)
    → assemble row true db ≡ ok (b, db')
    → Assembled row b
unfolding assemble pure
assemble-eq-ok row db db' b h =
    let (totals, s1, ht, h1) = >>=-eq-ok (get_payment_batch_totals row.id) _ db db' b h in
    let (es, s2, he, h2) = >>=-eq-ok (entries_if true row.id) _ s1 db' b h1 in
    record { same_id = cc h2; state = cc h2; same_version = cc h2 }

rows-eq :
    (actor batch_id : ℕ) (db s : Db) (u t : Instant) (es : List PaymentBatchEntry)
    → s ≡ db
    → t ≡ u
    → es ≡ draft batch_id db
    → payment_rows actor batch_id t.iso_timestamp s.clock.iso_timestamp
        (next_id (λ p. p.id) s.payments)
        es
      ≡ posted_payments actor batch_id u db
rows-eq actor batch_id db s u t es p q r = rw (p, q, r) refl

posted-row : Batch → Rows → Posted
posted-row o rows = record { batch = o; payments = rows.0; coverage = rows.1 }

module _ (actor batch_id version : ℕ) (u t : Instant) (db s2 s3 s4 s5 s6 db' : Db) where
  -- the parts of a successful post, put together
  assemble-Posts :
      (es : List PaymentBatchEntry) (rows : Rows) (b : PaymentBatch) (o : Batch) (out : Posted)
      → Checked batch_id db es
      → s2 ≡ db
      → t ≡ u
      → let new =
          payment_rows actor batch_id t.iso_timestamp s2.clock.iso_timestamp
            (next_id (λ p. p.id) s2.payments)
            es in
        (s3.payments ≡ s2.payments ++ new) × (rows.0 ≡ map payment_from_row new)
        → OnlyLedger s2 s3
        → s4 ≡ s3
        → Marked actor t.iso_timestamp batch_id version s4 s5 b
        → s6 ≡ s5
        → Assembled b o
        → (posted-row o rows ≡ out) × (s6 ≡ db')
        → Posts actor batch_id version u db db' out
  unfolding posted-row
  assemble-Posts es rows b o out checked base time wrote frame same4 marked same6 shape answer =
      let new = rows-eq actor batch_id db s2 u t es base time checked.rows in
      record {
        filled = λ q. checked.filled (checked.rows ∙ q);
        payments =
            ap (λ (d : Db). d.payments) (sym answer.1 ∙ same6)
            ∙ marked.payments
            ∙ ap (λ (d : Db). d.payments) same4
            ∙ wrote.0
            ∙ ap₂ ◌++◌ (ap (λ (d : Db). d.payments) base) new;
        answer =
            ap (λ (x : Posted). x.payments) (sym answer.0)
            ∙ wrote.1
            ∙ ap (map payment_from_row) new;
        entries =
            ap (λ (d : Db). d.payment_batch_entries) (sym answer.1 ∙ same6)
            ∙ marked.entries
            ∙ ap (λ (d : Db). d.payment_batch_entries) same4
            ∙ frame.entries
            ∙ ap (λ (d : Db). d.payment_batch_entries) base;
        corrections =
            ap (λ (d : Db). d.payment_corrections) (sym answer.1 ∙ same6)
            ∙ marked.corrections
            ∙ ap (λ (d : Db). d.payment_corrections) same4
            ∙ frame.corrections
            ∙ ap (λ (d : Db). d.payment_corrections) base;
        batches =
            ap (λ (d : Db). d.payment_batches) (sym answer.1 ∙ same6)
            ∙ marked.batches
            ∙ ap₂
                (λ (at : String) (now : String).
                  update_where (open_at batch_id version) (posted_batch actor at now)
                    s4.payment_batches)
                (ap (λ (i : Instant). i.iso_timestamp) time)
                (ap (λ (d : Db). d.clock.iso_timestamp) same4
                  ∙ ap (λ (i : Instant). i.iso_timestamp)
                      (frame.clock ∙ ap (λ (d : Db). d.clock) base))
            ∙ ap
                (update_where (open_at batch_id version)
                  (posted_batch actor u.iso_timestamp db.clock.iso_timestamp))
                (ap (λ (d : Db). d.payment_batches) same4
                  ∙ frame.batches
                  ∙ ap (λ (d : Db). d.payment_batches) base);
        was_open =
            ap (exists_by (open_at batch_id version)) (
              sym (
                ap (λ (d : Db). d.payment_batches) same4
                ∙ frame.batches
                ∙ ap (λ (d : Db). d.payment_batches) base))
            ∙ marked.was_open;
        batch_id_kept =
            ap (λ (x : Posted). x.batch.id) (sym answer.0) ∙ shape.same_id ∙ marked.same_id;
        state = ap (λ (x : Posted). x.batch.state) (sym answer.0) ∙ shape.state ∙ marked.state;
        version_next =
            ap (λ (x : Posted). x.batch.version) (sym answer.0)
            ∙ shape.same_version
            ∙ marked.version_next;
      }

-- A post that succeeds appends one payment for each row of the draft, in the order of the
-- sequences, and leaves the draft and the corrections as they are. The batch was open at the version;
-- in the table it is now posted, by the actor, at the time of the post and at the next version, with
-- every other value of its row and every other batch as before. The answer has the payments, and the
-- batch as posted at that version.
pub post_tx-eq-ok :
    (env : Env) (actor batch_id version : ℕ) (now : Option Instant) (db db' : Db) (out : Posted)
    → post_tx env actor batch_id version now db ≡ ok (out, db')
    → Posts actor batch_id version (or_clock now db) db db' out
unfolding post_tx posted-row
post_tx-eq-ok env actor batch_id version now db db' out h =
    let (es, s1, he, h1) = >>=-eq-ok (post_checks batch_id) _ db db' out h in
    let (t, s2, ht, h2) = >>=-eq-ok (gets (or_clock now)) _ s1 db' out h1 in
    let (rows, s3, hr, h3) =
      >>=-eq-ok (post_entries actor batch_id t.iso_timestamp es []) _ s2 db' out h2 in
    let (u, s4, hu, h4) = >>=-eq-ok (hook env.fail_before_commit) _ s3 db' out h3 in
    let (b, s5, hb, h5) =
      >>=-eq-ok (or_stale (mark_payment_batch_posted actor t.iso_timestamp batch_id version)) _ s4
        db' out h4 in
    let (o, s6, ho, h6) = >>=-eq-ok (assemble b true) _ s5 db' out h5 in
    let checked = post_checks-eq-ok batch_id db s1 es he in
    let same1 : s1 ≡ db = (post_checks-Follows Same Same-IsHistory batch_id).at db s1 es he in
    let clocked = gets-eq-ok (or_clock now) t s1 s2 ht in
    let base : s2 ≡ db = clocked.1 ∙ same1 in
    let time : t ≡ or_clock now db = clocked.0 ∙ ap (or_clock now) same1 in
    let wrote = post_entries-eq-ok actor batch_id t.iso_timestamp es [] s2 s3 rows hr in
    let frame = (post_entries-OnlyLedger actor batch_id t.iso_timestamp es []).at s2 s3 rows hr in
    let same4 : s4 ≡ s3 = (hook-Follows Same Same-IsHistory env.fail_before_commit).at s3 s4 u hu in
    let marked = mark-eq-ok actor t.iso_timestamp batch_id version s4 s5 b hb in
    let same6 : s6 ≡ s5 = (assemble-Follows Same Same-IsHistory b true).at s5 s6 o ho in
    let shape = assemble-eq-ok b s5 s6 o ho in
    assemble-Posts actor batch_id version (or_clock now db) t db s2 s3 s4 s5 s6 db' es rows b o out
      checked base time wrote frame same4 marked same6 shape
      (pure-eq-ok (posted-row o rows) out s6 db' h6)
