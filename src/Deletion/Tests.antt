-- ===== src/Deletion/Tests.antt =====
-- A conversation that its owner deletes, and the theorem about deletion at it.
use echohoard.Base.{List, String, [], false, none, ◌∷◌}
use echohoard.Deletion.{DeletionRequest, DeletionResult, DeletionTables, Entity}
use echohoard.Deletion.Commands.{change_entity}
use echohoard.Deletion.Replay.{Command}

abbrev chat : Entity
chat = record {
  entity_kind = "conversation";
  archive_id = "archive";
  id = "chat";
  owner_deleted = false;
  owner_deleted_at = none;
  owner_deleted_by = none;
  owner_deletion_reason = none;
  owner_deletion_version = 0;
  conversation_id = none;
}

abbrev tables : DeletionTables
tables = record { entities = chat ∷ []; audits = [] }

abbrev request_to : String → String → DeletionRequest
request_to action key = record {
  archive_id = "archive";
  entity_kind = "conversation";
  entity_id = "chat";
  action = action;
  actor = "owner";
  reason = "private";
  idempotency_key = key;
  expected_version = none;
  requested_at = none;
}

abbrev deleted : DeletionTables × DeletionResult
deleted = change_entity "audit-1" 10 (request_to "delete" "first") tables chat

-- The conversation is restored before the deletion is sent again.
abbrev restores : List Command
restores = record { audit_id = "audit-2"; at = 20; request = request_to "restore" "second" } ∷ []
