-- ===== src/ChangeRequests/Operations.antt =====
-- The writing operations on change requests as data, and a sequence of them. The handlers of
-- internal/httpapi and internal/web call one operation each.
use bcars_portal.Base.{ℕ, String, Option, List, [], ◌∷◌}
use bcars_portal.Authz.{Principal}
use bcars_portal.Idem.{Env}
use bcars_portal.Store.Tx.{Db, Instant}
use bcars_portal.ChangeRequests.Validation.{CreateParams}
use bcars_portal.ChangeRequests.Intake.{create_request}
use bcars_portal.ChangeRequests.Status.{TriageParams, triage, ResolveParams, resolve, withdraw}
use bcars_portal.ChangeRequests.Review.{DecideParams, decide_item}

pub data Operation : Type 0 where
  create_operation : CreateParams → String → Operation
  triage_operation : ℕ → TriageParams → Operation
  resolve_operation : ℕ → ResolveParams → Operation
  withdraw_operation : ℕ → Operation
  decide_operation : ℕ → ℕ → DecideParams → Operation

-- the tables after one operation of a caller, whatever it was answered
unfoldable pub perform : Env → Option Principal → Instant → Operation → Db → Db
perform env p now (create_operation params key) db = (create_request env p params key now db).1
perform env p now (triage_operation id params) db = (triage p id params now db).1
perform env p now (resolve_operation id params) db = (resolve p id params now db).1
perform env p now (withdraw_operation id) db = (withdraw p id now db).1
perform env p now (decide_operation id item params) db = (decide_item env p id item params now db).1

-- the tables after a sequence of operations, each with its caller and its time
unfoldable pub perform_all : Env → List (Option Principal × Instant × Operation) → Db → Db
perform_all env [] db = db
perform_all env ((p, now, op) ∷ rest) db =
    perform_all env rest (perform env p now op (record db { clock = now }))
