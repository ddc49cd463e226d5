-- ===== src/Requests.antt =====
-- The writing requests of the treasury as data, and a history of them. The HTTP handlers
-- (internal/httpapi) call one operation each.
pub mod History
pub mod Tests
use bcars_portal.Base.{ℕ, String, Option, List, [], ◌∷◌}
use bcars_portal.Base.Int.{ℤ}
use bcars_portal.Authz.{Principal}
use bcars_portal.Store.Tx.{Db, Instant}
use bcars_portal.Idem.{Env}
use bcars_portal.Batches.Input.{EntryInput}
use bcars_portal.Batches.Draft.{OpenParams, UpdateParams, open_batch, update_batch, abandon_batch}
use bcars_portal.Batches.Entries.{add_entry, update_entry, delete_entry}
use bcars_portal.Batches.Post.{PostParams, SingleParams, post, post_single_payment}
use bcars_portal.Batches.Correct.{CorrectParams, correct_payment}
use bcars_portal.Dues.{adjust_coverage, set_rate}

pub data Request : Type 0 where
  open_request : OpenParams → Request
  update_request : ℕ → UpdateParams → Request
  abandon_request : ℕ → String → ℕ → Request
  add_entry_request : ℕ → EntryInput → String → Request
  update_entry_request : ℕ → ℕ → EntryInput → ℕ → Request
  delete_entry_request : ℕ → ℕ → ℕ → Request
  post_request : ℕ → PostParams → Request
  single_payment_request : SingleParams → Request
  correct_request : ℕ → CorrectParams → Request
  adjust_coverage_request : ℕ → String → String → Request
  set_rate_request : ℕ → ℤ → String → ℕ → Request

-- the tables after one request of a caller, whatever it was answered
unfoldable pub handle : Env → Option Principal → Option Instant → Request → Db → Db
handle env p now (open_request params) db = (open_batch env p params now db).1
handle env p now (update_request id params) db = (update_batch p id params db).1
handle env p now (abandon_request id reason version) db =
    (abandon_batch p id reason version now db).1
handle env p now (add_entry_request id e key) db = (add_entry env p id e key db).1
handle env p now (update_entry_request id entry e version) db =
    (update_entry p id entry e version db).1
handle env p now (delete_entry_request id entry version) db = (delete_entry p id entry version db).1
handle env p now (post_request id params) db = (post env p id params now db).1
handle env p now (single_payment_request params) db = (post_single_payment env p params now db).1
handle env p now (correct_request id params) db = (correct_payment env p id params now db).1
handle env p now (adjust_coverage_request id paid_through reason) db =
    (adjust_coverage p id paid_through reason now db).1
handle env p now (set_rate_request year amount note version) db =
    (set_rate p year amount note version now db).1

-- a caller, the time that the request carries, and the request
abbrev pub Call : Type 0
Call = Option Principal × Option Instant × Request

-- the tables after a sequence of requests; between two of them the clock may move
unfoldable pub run : Env → List (Instant × Call) → Db → Db
run env [] db = db
run env ((clock, (p, now, r)) ∷ calls) db =
    run env calls (handle env p now r (record db { clock = clock }))
