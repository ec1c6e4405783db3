-- ===== src/Privacy/Policy.antt =====
-- src/application/conversation-privacy.ts, and `PrismaConversationPrivacyPersistence.updatePolicy` of
-- src/infrastructure/db/prisma-persistence.ts, which runs as one transaction.
use echohoard.Base.{
  Bool, List, Option, Result, String, [], as_result, false, find, if◌then◌else◌, is_blank, map,
  nat_eq, none, not, ok, require, some, string_eq, true, truthy, ℕ, ◌&&◌, ◌++◌, ◌==◌, ◌>>=◌, ◌>>◌,
  ◌||◌, ◌∷◌,
}
use echohoard.Reads.Requests.{default_to}
use echohoard.Privacy.{Conversation, Tables}

pub data PrivacyError : Type 0 where
  id_required : String → PrivacyError
  no_field invalid_visibility invalid_mcp_access other_scope not_found : PrivacyError
  invalid_stored_visibility invalid_stored_mcp_access : PrivacyError

pub record PrivacyPolicy : Type 0 where
  pub archive_id : String
  pub conversation_id : String
  pub ui_visibility : String
  pub mcp_access : String
  pub source_lock_metadata : Option String

pub record UpdatePrivacyRequest : Type 0 where
  pub archive_id : String
  pub conversation_id : String
  pub actor_id : String
  pub ui_visibility : Option String
  pub mcp_access : Option String
  pub requested_at : Option ℕ

pub data PrivacyAction : Type 0 where
  set_ui_visibility set_mcp_access : PrivacyAction

-- What `conversationPrivacyAudit.create` is given; the row's id is made by the database.
pub record PrivacyAudit : Type 0 where
  pub archive_id : String
  pub conversation_id : String
  pub actor_id : String
  pub action : PrivacyAction
  pub created_at : Option ℕ

abbrev pub is_ui_visibility : String → Bool
is_ui_visibility v = v == "normal" || v == "hidden" || v == "locked"

abbrev pub is_mcp_access : String → Bool
is_mcp_access v = v == "allowed" || v == "denied"

abbrev pub require_id : String → String → Result PrivacyError Unit
require_id v name = require (not (is_blank v)) (id_required name)

abbrev pub holds_for : (String → Bool) → Option String → Bool
holds_for p none = true
holds_for p (some v) = p v

abbrev pub has_field : Option String → Option String → Bool
has_field none none = false
has_field _ _ = true

unfoldable pub validate_privacy_request : UpdatePrivacyRequest → Result PrivacyError Unit
validate_privacy_request r = do
  require_id r.archive_id "archiveId"
  require_id r.conversation_id "conversationId"
  require_id r.actor_id "actorId"
  require (has_field r.ui_visibility r.mcp_access) no_field
  require (holds_for is_ui_visibility r.ui_visibility) invalid_visibility
  require (holds_for is_mcp_access r.mcp_access) invalid_mcp_access

unfoldable pub validate_policy : PrivacyPolicy → Result PrivacyError Unit
validate_policy p = do
  require_id p.archive_id "archiveId"
  require_id p.conversation_id "conversationId"
  require (is_ui_visibility p.ui_visibility) invalid_visibility
  require (is_mcp_access p.mcp_access) invalid_mcp_access

-- `transitionConversationPrivacy`; an empty value counts as none.
unfoldable pub transition_conversation_privacy :
    PrivacyPolicy → UpdatePrivacyRequest → Result PrivacyError PrivacyPolicy
transition_conversation_privacy current r = do
  validate_policy current
  validate_privacy_request r
  require (current.archive_id == r.archive_id && current.conversation_id == r.conversation_id)
      other_scope
  ok (record current {
    ui_visibility = default_to current.ui_visibility (truthy r.ui_visibility);
    mcp_access = default_to current.mcp_access (truthy r.mcp_access);
  })

-- `privacyPolicy` of a row.
unfoldable pub privacy_policy : Conversation → Result PrivacyError PrivacyPolicy
privacy_policy row = do
  require (is_ui_visibility row.ui_visibility) invalid_stored_visibility
  require (is_mcp_access row.mcp_access) invalid_stored_mcp_access
  ok (record {
    archive_id = row.archive_id;
    conversation_id = row.id;
    ui_visibility = row.ui_visibility;
    mcp_access = row.mcp_access;
    source_lock_metadata = row.source_lock_metadata;
  })

abbrev pub is_conversation : String → String → Conversation → Bool
is_conversation archive id row = row.archive_id == archive && row.id == id

-- `findPolicy`
unfoldable pub find_policy : String → String → Tables → Result PrivacyError (Option PrivacyPolicy)
find_policy archive id db = elim (find (is_conversation archive id) db.conversations) [
  | none ↦ ok none
  | some row ↦ do p ← privacy_policy row; ok (some p)
]

abbrev pub audit_of : UpdatePrivacyRequest → PrivacyAction → PrivacyAudit
audit_of r action = record {
  archive_id = r.archive_id;
  conversation_id = r.conversation_id;
  actor_id = r.actor_id;
  action = action;
  created_at = r.requested_at;
}

abbrev pub audits_of : UpdatePrivacyRequest → PrivacyPolicy → PrivacyPolicy → List PrivacyAudit
audits_of r current next =
    (if next.ui_visibility == current.ui_visibility then [] else audit_of r set_ui_visibility ∷ [])
    ++ (if next.mcp_access == current.mcp_access then [] else audit_of r set_mcp_access ∷ [])

abbrev pub store_policy : PrivacyPolicy → Conversation → Conversation
store_policy next row = record row {
  ui_visibility = next.ui_visibility;
  mcp_access = next.mcp_access;
}

abbrev pub update_row : UpdatePrivacyRequest → PrivacyPolicy → List Conversation → List Conversation
update_row r next = map (λ row.
    if is_conversation r.archive_id r.conversation_id row then store_policy next row else row)

-- `updatePolicy`: the tables with the new policy, the policy, and the audits to add.
unfoldable pub update_policy :
    UpdatePrivacyRequest → Tables → Result PrivacyError (Tables × PrivacyPolicy × List PrivacyAudit)
update_policy r db = do
  row ← as_result not_found (find (is_conversation r.archive_id r.conversation_id) db.conversations)
  current ← privacy_policy row
  next ← transition_conversation_privacy current r
  updated ← privacy_policy (store_policy next row)
  ok (
    record db { conversations = update_row r next db.conversations },
    updated,
    audits_of r current next,
  )

-- `UpdateConversationPrivacyService.execute`
unfoldable pub execute_update :
    UpdatePrivacyRequest → Tables → Result PrivacyError (Tables × PrivacyPolicy × List PrivacyAudit)
execute_update r db = do validate_privacy_request r; update_policy r db
