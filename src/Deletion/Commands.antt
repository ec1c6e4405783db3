-- ===== src/Deletion/Commands.antt =====
-- src/infrastructure/db/owner-deletion.ts: `PrismaOwnerDeletionPersistence.execute`.
use echohoard.Base.{
  Bool, List, Option, Result, String, err, false, filter, find, if◌then◌else◌, is_some_of, length,
  map, nat_eq, none, ok, require, some, string_eq, true, ℕ, ◌&&◌, ◌+◌, ◌==◌, ◌>>=◌, ◌>>◌, ◌∷◌,
}
use echohoard.Numbers.{Number, is_number}
use echohoard.Deletion.{
  DeletionAudit, DeletionError, DeletionRequest, DeletionResult, DeletionTables, Entity, conflict,
  not_in_archive, other_command,
}

-- `findAudit`
abbrev pub is_audit_of : DeletionRequest → DeletionAudit → Bool
is_audit_of r a = a.archive_id == r.archive_id && a.idempotency_key == r.idempotency_key

-- `resultFromAudit`
abbrev pub result_of_audit : DeletionRequest → DeletionAudit → DeletionResult
result_of_audit r a = record {
  archive_id = r.archive_id;
  entity_kind = a.entity_kind;
  entity_id = a.entity_id;
  action = a.action;
  owner_deleted = a.action == "delete";
  version = a.resulting_version;
  cascade_count = a.cascade_count;
  idempotent = true;
  audit_id = a.id;
}

-- `replayResult`
unfoldable pub replay_result : DeletionRequest → DeletionAudit → Result DeletionError DeletionResult
replay_result r a = do
  require
      (a.entity_kind == r.entity_kind
        && a.entity_id == r.entity_id
        && a.action == r.action
        && a.actor == r.actor
        && a.reason == r.reason)
      other_command
  ok (result_of_audit r a)

abbrev pub is_entity : DeletionRequest → Entity → Bool
is_entity r e =
    e.entity_kind == r.entity_kind && e.archive_id == r.archive_id && e.id == r.entity_id

-- `lockState`
abbrev pub lock_state : DeletionRequest → List Entity → Option Entity
lock_state r = find (is_entity r)

-- `countMessages`
abbrev pub count_messages : DeletionRequest → List Entity → ℕ
count_messages r es = length (
    filter
      (λ (e : Entity).
        e.entity_kind == "message"
        && e.archive_id == r.archive_id
        && is_some_of e.conversation_id r.entity_id)
      es)

abbrev pub cascade_of : DeletionRequest → List Entity → ℕ
cascade_of r es = if r.entity_kind == "conversation" then count_messages r es else 0

abbrev pub is_expected_version : Option Number → ℕ → Bool
is_expected_version none version = true
is_expected_version (some n) version = is_number version n

abbrev pub conflict_of : Option Number → ℕ → DeletionError
conflict_of none version = not_in_archive
conflict_of (some n) version = conflict n version

abbrev pub time_of : ℕ → DeletionRequest → ℕ
time_of now r = elim r.requested_at [ none ↦ now | some t ↦ t ]

abbrev pub when : {A : Type 0} → Bool → A → Option A
when true a = some a
when false a = none

-- The update of the row.
abbrev pub deleted_entity : ℕ → DeletionRequest → ℕ → Entity → Entity
deleted_entity now r version e = record e {
  owner_deleted = r.action == "delete";
  owner_deleted_at = when (r.action == "delete") (time_of now r);
  owner_deleted_by = when (r.action == "delete") r.actor;
  owner_deletion_reason = when (r.action == "delete") r.reason;
  owner_deletion_version = version;
}

abbrev pub deletion_audit : String → ℕ → DeletionRequest → ℕ → ℕ → DeletionAudit
deletion_audit id now r version cascade = record {
  id = id;
  archive_id = r.archive_id;
  entity_kind = r.entity_kind;
  entity_id = r.entity_id;
  action = r.action;
  actor = r.actor;
  reason = r.reason;
  idempotency_key = r.idempotency_key;
  expected_version = r.expected_version;
  resulting_version = version;
  cascade_count = cascade;
  occurred_at = time_of now r;
}

abbrev pub Executed : Type 0
Executed = Result DeletionError (DeletionTables × DeletionResult)

abbrev pub replayed : DeletionRequest → DeletionTables → DeletionAudit → Executed
replayed r db a = do result ← replay_result r a; ok (db, result)

abbrev pub change_entity :
    String → ℕ → DeletionRequest → DeletionTables → Entity → DeletionTables × DeletionResult
change_entity id now r db e =
    let version = e.owner_deletion_version + 1 in
    let audit = deletion_audit id now r version (cascade_of r db.entities) in
    (
      record {
        entities =
            map (λ x. if is_entity r x then deleted_entity now r version x else x) db.entities;
        audits = audit ∷ db.audits;
      },
      record (result_of_audit r audit) { idempotent = false },
    )

abbrev pub delete_found : String → ℕ → DeletionRequest → DeletionTables → Option Entity → Executed
delete_found id now r db none = err not_in_archive
delete_found id now r db (some e) =
    if is_expected_version r.expected_version e.owner_deletion_version
    then ok (change_entity id now r db e)
    else err (conflict_of r.expected_version e.owner_deletion_version)

abbrev pub delete_once :
    String → ℕ → DeletionRequest → DeletionTables → Option DeletionAudit → Executed
delete_once id now r db (some a) = replayed r db a
delete_once id now r db none = delete_found id now r db (lock_state r db.entities)

-- The transaction of `execute`.
unfoldable pub delete_in_transaction : String → ℕ → DeletionRequest → DeletionTables → Executed
delete_in_transaction id now r db = delete_once id now r db (find (is_audit_of r) db.audits)

abbrev pub or_replayed :
    DeletionRequest → DeletionTables → Executed → Option DeletionAudit → Executed
or_replayed r late (ok x) found = ok x
or_replayed r late (err e) none = err e
or_replayed r late (err e) (some a) = replayed r late a

abbrev pub execute_found :
    String
    → ℕ
    → DeletionRequest
    → DeletionTables
    → DeletionTables
    → DeletionTables
    → Option DeletionAudit
    → Executed
execute_found id now r early db late (some a) = replayed r early a
execute_found id now r early db late none =
    or_replayed r late (delete_in_transaction id now r db) (find (is_audit_of r) late.audits)

-- `execute`: it looks for an audit before the transaction and, where that throws, after it; the tables
-- may be others each time.
unfoldable pub execute_deletion :
    String → ℕ → DeletionRequest → DeletionTables → DeletionTables → DeletionTables → Executed
execute_deletion id now r early db late =
    execute_found id now r early db late (find (is_audit_of r) early.audits)
