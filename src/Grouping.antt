-- ===== src/Grouping.antt =====
-- src/application/conversation-grouping.ts: the requests of owners to merge conversations of sources into
-- one group and to take them apart again, and their validation.
use echohoard.Base.{
  Bool, List, Option, Result, String, [], any, false, is_blank, is_empty, nat_eq, none, not,
  require, some, string_eq, true, ℕ, ◌==◌, ◌>>=◌, ◌>>◌, ◌||◌, ◌∷◌,
}
use echohoard.Numbers.{Number, safe_integer}
use echohoard.Privacy.{Tables}
pub mod Commands
pub mod Reversal
mod Tests

pub data GroupingAction : Type 0 where
  merge unmerge : GroupingAction

pub data GroupingError : Type 0 where
  required : String → GroupingError
  version_invalid no_sources not_unique authorization_required audit_required : GroupingError
  unavailable locked_group stale_version audit_invalid selection_differs left_group : GroupingError
  other_action other_command duplicate_key : GroupingError

-- A field that may be absent, and `null` where it is there.
pub record GroupingRequest : Type 0 where
  pub archive_id : String
  pub target_conversation_id : String
  pub source_conversation_ids : List String
  pub expected_version : Number
  pub actor : String
  pub reason : String
  pub idempotency_key : String
  pub owner_title : Option (Option String)
  pub owner_avatar : Option (Option String)
  pub audit_id : Option String
  pub requested_at : Option ℕ
  pub authorized_conversation_ids : List String

pub record GroupingResult : Type 0 where
  pub archive_id : String
  pub target_conversation_id : String
  pub action : GroupingAction
  pub source_conversation_ids : List String
  pub version : ℕ
  pub audit_id : String
  pub idempotent : Bool

-- A row of "ConversationMergeAudit".
pub record MergeAudit : Type 0 where
  pub id : String
  pub archive_id : String
  pub target_conversation_id : String
  pub action : GroupingAction
  pub source_conversation_ids : List String
  pub previous_groups : List (String × String)
  pub resulting_version : ℕ
  pub expected_version : Number
  pub actor : String
  pub reason : String
  pub idempotency_key : String
  pub requested_at : ℕ

pub record GroupingTables : Type 0 where
  pub tables : Tables
  pub audits : List MergeAudit

abbrev pub is_one_of : List String → String → Bool
is_one_of ids id = any (λ i. i == id) ids

-- `ids.size !== length`
abbrev pub has_repeats : List String → Bool
has_repeats [] = false
has_repeats (i ∷ ids) = is_one_of ids i || has_repeats ids

abbrev is_version : Option (Bool × ℕ) → Bool
is_version none = false
is_version (some (negative, n)) = not negative

abbrev is_blank_field : Option String → Bool
is_blank_field none = false
is_blank_field (some s) = is_blank s

abbrev is_missing : GroupingAction → Option String → Bool
is_missing merge id = false
is_missing unmerge none = true
is_missing unmerge (some id) = is_empty id

abbrev pub has_no_ids : List String → Bool
has_no_ids [] = true
has_no_ids (i ∷ ids) = false

-- `validateRequest`; the fields in the order in which the interface names them.
unfoldable pub validate_grouping_request :
    GroupingAction → GroupingRequest → Result GroupingError Unit
validate_grouping_request action r = do
  require (not (is_blank r.archive_id)) (required "archiveId")
  require (not (is_blank r.target_conversation_id)) (required "targetConversationId")
  require (is_version (safe_integer r.expected_version)) version_invalid
  require (not (is_blank r.actor)) (required "actor")
  require (not (is_blank r.reason)) (required "reason")
  require (not (is_blank r.idempotency_key)) (required "idempotencyKey")
  require (not (is_blank_field r.audit_id)) (required "auditId")
  require (not (has_no_ids r.source_conversation_ids)) no_sources
  require
      (not (
        has_repeats r.source_conversation_ids
        || is_one_of r.source_conversation_ids r.target_conversation_id))
      not_unique
  require (not (is_missing action r.audit_id)) audit_required
  require (not (any is_blank r.authorized_conversation_ids)) authorization_required
