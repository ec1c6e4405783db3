-- ===== src/Deletion.antt =====
-- src/application/owner-deletion.ts and src/infrastructure/db/owner-deletion.ts: the owner deletes and
-- restores conversations, messages and attachments. Kinds and actions are checked as texts.
use echohoard.Base.{
  Bool, List, Option, Result, String, false, is_blank, nat_eq, none, not, require, some, string_eq,
  true, ℕ, ◌%◌, ◌&&◌, ◌+◌, ◌==◌, ◌>>=◌, ◌>>◌, ◌||◌,
}
use echohoard.Numbers.{Number, finite}
pub mod Commands
pub mod Replay
mod Tests

pub data DeletionError : Type 0 where
  field_required : String → DeletionError
  kind_invalid action_invalid version_invalid : DeletionError
  not_in_archive other_command : DeletionError
  conflict : Number → ℕ → DeletionError

pub record DeletionRequest : Type 0 where
  pub archive_id : String
  pub entity_kind : String
  pub entity_id : String
  pub action : String
  pub actor : String
  pub reason : String
  pub idempotency_key : String
  pub expected_version : Option Number
  pub requested_at : Option ℕ

pub record DeletionResult : Type 0 where
  pub archive_id : String
  pub entity_kind : String
  pub entity_id : String
  pub action : String
  pub owner_deleted : Bool
  pub version : ℕ
  pub cascade_count : ℕ
  pub idempotent : Bool
  pub audit_id : String

-- A row of one of the three tables, which `entity_kind` names.
pub record Entity : Type 0 where
  pub entity_kind : String
  pub archive_id : String
  pub id : String
  pub owner_deleted : Bool
  pub owner_deleted_at : Option ℕ
  pub owner_deleted_by : Option String
  pub owner_deletion_reason : Option String
  pub owner_deletion_version : ℕ
  pub conversation_id : Option String

pub record DeletionAudit : Type 0 where
  pub id : String
  pub archive_id : String
  pub entity_kind : String
  pub entity_id : String
  pub action : String
  pub actor : String
  pub reason : String
  pub idempotency_key : String
  pub expected_version : Option Number
  pub resulting_version : ℕ
  pub cascade_count : ℕ
  pub occurred_at : ℕ

pub record DeletionTables : Type 0 where
  pub entities : List Entity
  pub audits : List DeletionAudit

-- `value >= 0` of an integer.
abbrev is_natural : Option Number → Bool
is_natural none = true
is_natural (some (finite s n d)) = n % (d + 1) == 0 && (not s || n == 0)
is_natural (some _) = false

-- `validate`; the fields in the order in which the interface names them.
unfoldable pub validate_deletion : DeletionRequest → Result DeletionError Unit
validate_deletion r = do
  require (not (is_blank r.archive_id)) (field_required "archiveId")
  require (not (is_blank r.entity_kind)) (field_required "entityKind")
  require (not (is_blank r.entity_id)) (field_required "entityId")
  require (not (is_blank r.action)) (field_required "action")
  require (not (is_blank r.actor)) (field_required "actor")
  require (not (is_blank r.reason)) (field_required "reason")
  require (not (is_blank r.idempotency_key)) (field_required "idempotencyKey")
  require
      (r.entity_kind == "conversation"
        || r.entity_kind == "message"
        || r.entity_kind == "attachment")
      kind_invalid
  require (r.action == "delete" || r.action == "restore") action_invalid
  require (is_natural r.expected_version) version_invalid
