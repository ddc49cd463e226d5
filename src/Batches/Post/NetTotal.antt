-- ===== src/Batches/Post/NetTotal.antt =====
-- The money of a post: the ledger's net total against the total of the draft.
use bcars_portal.Base.{ℕ, suc, String, ◌≡◌, ◌∙◌, refl, sym, ap, Option, List, [], ◌∷◌}
use bcars_portal.Base.Int.{ℤ, pos, ◌+ℤ◌, int_laws}
use bcars_portal.Base.ListLaws.{fold, fold-order_by}
use bcars_portal.Outcome.{ok}
use bcars_portal.Store.Rows.{PaymentBatchEntry}
use bcars_portal.Store.Tx.{Db, Instant, or_clock, next_id}
use bcars_portal.Store.EntryQueries.{sum_cents, entries_of, by_sequence, totals_of}
use bcars_portal.Idem.{Env}
use bcars_portal.Batches.Types.{Posted}
use bcars_portal.Batches.Post.{post_tx}
use bcars_portal.Batches.Post.Effect.{payment_rows}
use bcars_portal.Batches.Post.Posting.{posted_payments, draft, post_tx-eq-ok}
use bcars_portal.Batches.Correct.Effect.{net, sum_cents-append}

abbrev amount : PaymentBatchEntry → ℤ
amount e = e.amount_cents

-- the payments carry the amounts of their rows
net-payment_rows :
    (actor batch_id : ℕ) (entered_at created_at : String) (n : ℕ) (es : List PaymentBatchEntry)
    → net (payment_rows actor batch_id entered_at created_at n es) ≡ sum_cents amount es
unfolding sum_cents
net-payment_rows actor batch_id entered_at created_at n [] = refl
net-payment_rows actor batch_id entered_at created_at n (e ∷ es) =
    ap (◌+ℤ◌ e.amount_cents) (net-payment_rows actor batch_id entered_at created_at (suc n) es)

sum_cents-fold : (es : List PaymentBatchEntry) → sum_cents amount es ≡ fold amount ◌+ℤ◌ (pos 0) es
unfolding sum_cents
sum_cents-fold [] = refl
sum_cents-fold (e ∷ es) = ap (◌+ℤ◌ e.amount_cents) (sum_cents-fold es)

+ℤ_swap : (a b c : ℤ) → a +ℤ (b +ℤ c) ≡ b +ℤ (a +ℤ c)
+ℤ_swap a b c = omega int_laws

-- sorting the rows leaves their sum
sum_cents-draft :
    (batch_id : ℕ) (db : Db)
    → sum_cents amount (draft batch_id db) ≡ sum_cents amount (entries_of batch_id db)
sum_cents-draft batch_id db =
    sum_cents-fold (draft batch_id db)
    ∙ fold-order_by amount ◌+ℤ◌ (pos 0) +ℤ_swap by_sequence (entries_of batch_id db)
    ∙ sym (sum_cents-fold (entries_of batch_id db))

-- A post that succeeds raises the net total of the ledger by the net total that the draft showed.
pub post_tx-net :
    (env : Env) (actor batch_id version : ℕ) (now : Option Instant) (db db' : Db) (out : Posted)
    → post_tx env actor batch_id version now db ≡ ok (out, db')
    → net db'.payments ≡ net db.payments +ℤ (totals_of (entries_of batch_id db)).net_total_cents
unfolding totals_of
post_tx-net env actor batch_id version now db db' out h =
    let posts = post_tx-eq-ok env actor batch_id version now db db' out h in
    let new = posted_payments actor batch_id (or_clock now db) db in
    ap net posts.payments
    ∙ sum_cents-append db.payments new
    ∙ ap (◌+ℤ◌ (net db.payments)) (
        net-payment_rows actor batch_id (or_clock now db).iso_timestamp db.clock.iso_timestamp
          (next_id (λ p. p.id) db.payments) (draft batch_id db)
        ∙ sum_cents-draft batch_id db)
