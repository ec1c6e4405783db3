-- ===== src/Privacy.antt =====
-- The tables behind who may see a conversation: src/infrastructure/db/ui-privacy.ts,
-- src/infrastructure/db/conversation-grouping.ts and the policies of
-- src/infrastructure/db/prisma-persistence.ts.
use echohoard.Base.{Bool, List, Option, String, ℕ}
pub mod Policy
pub mod Predicates
pub mod Shown
pub mod Withheld
mod Tests

-- The columns of a conversation that its policy and its group depend on.
pub record Conversation : Type 0 where
  pub archive_id : String
  pub id : String
  pub ui_visibility : String
  pub mcp_access : String
  pub source_lock_metadata : Option String
  pub materialized : Bool
  pub grouping_version : ℕ
  pub grouping_locked : Bool
  pub owner_title : Option String
  pub owner_avatar : Option String

pub record SourceConversation : Type 0 where
  pub archive_id : String
  pub id : String
  pub unified_conversation_id : String

pub record Message : Type 0 where
  pub archive_id : String
  pub conversation_id : String
  pub source_conversation_id : Option String
  pub sender_id : Option String
  pub materialized : Bool

pub record Participant : Type 0 where
  pub archive_id : String
  pub conversation_id : String
  pub source_conversation_id : Option String
  pub person_id : String

pub record Tables : Type 0 where
  pub conversations : List Conversation
  pub sources : List SourceConversation
  pub messages : List Message
  pub participants : List Participant
