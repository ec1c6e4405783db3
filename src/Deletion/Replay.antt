-- ===== src/Deletion/Replay.antt =====
-- A command of the owner that is sent again: src/infrastructure/db/owner-deletion.ts.
use echohoard.Base.{List, String, [], err, find, nat_eq, ok, some, true, ℕ, ◌∷◌, ◌≡◌}
use echohoard.Deletion.{DeletionAudit, DeletionRequest, DeletionResult, DeletionTables}
use echohoard.Deletion.Commands.{Executed, delete_in_transaction, is_audit_of, replay_result}

pub record Command : Type 0 where
  pub audit_id : String
  pub at : ℕ
  pub request : DeletionRequest

abbrev pub tables_of : DeletionTables → Executed → DeletionTables
tables_of db (ok (after, result)) = after
tables_of db (err e) = db

-- The tables after commands, those that fail included.
unfoldable pub run_commands : List Command → DeletionTables → DeletionTables
run_commands [] db = db
run_commands (c ∷ cs) db =
    run_commands cs (tables_of db (delete_in_transaction c.audit_id c.at c.request db))

-- The audit answers the request with the result.
IsAnswered : DeletionRequest → DeletionResult → DeletionTables → Type 0
IsAnswered r result db =
    (a : DeletionAudit) × (find (is_audit_of r) db.audits ≡ some a)
    × (replay_result r a ≡ ok result)

abbrev pub replay_of : DeletionResult → DeletionResult
replay_of result = record result { idempotent = true }
