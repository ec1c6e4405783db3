-- ===== src/Reads/Rows.antt =====
-- src/application/reads.ts: the rows of the store, its port, and the contexts of reads. The store
-- answers through a port; `key` is the digest of a read context. `date_parse` gives the milliseconds
-- from the epoch, with their sign, or nothing, and `iso` is `toISOString`.
use echohoard.Base.{Bool, List, Option, Result, String, ℕ}
use echohoard.Numbers.{Number}
use echohoard.Reads.Requests.{ReadAccess, ReadError, UiReadMode}
use echohoard.Reads.Cursors.{CursorCodec, CursorValue}

-- The context of a search: the access to the tools is not part of it.
pub record SearchContext : Type 0 where
  pub query : String
  pub unified_conversation_id : Option String
  pub source_account_id : Option String
  pub person_id : Option String
  pub sender_direction : Option String
  pub from : Option String
  pub to : Option String
  pub media_type : Option String
  pub fuzzy_name : Option String
  pub fuzzy_text : Option String
  pub ui_mode : UiReadMode
  pub authorized_conversation_ids : List String

-- What `readContextKey` digests: each constructor is one set of names.
pub data ReadContext : Type 0 where
  list_context : Option String → ReadAccess → ReadContext
  access_context : ReadAccess → ReadContext
  media_context : Option String → Option String → Option String → ReadAccess → ReadContext
  timeline_context : Option String → Option String → ReadAccess → ReadContext
  search_context : SearchContext → ReadContext

-- `{ ...(position ? { after } : {}), limit, direction, ...access }` of a query to the store.
pub record StoreQuery : Type 0 where
  pub archive_id : String
  pub limit : ℕ
  pub direction : String
  pub after : Option (List CursorValue)
  pub access : ReadAccess

pub record ConversationPersistenceRow : Type 0 where
  pub id : String
  pub title : Option String
  pub participant_count : ℕ
  pub last_message_at : Option String
  pub created_at : String
  pub source_count : Option ℕ

pub record ConversationRead : Type 0 where
  pub id : String
  pub title : String
  pub participant_count : ℕ
  pub last_message_at : Option String
  pub source_count : Option ℕ

pub record PersonPersistenceRow : Type 0 where
  pub id : String
  pub display_name : Option String
  pub identity_count : ℕ

pub record PersonRead : Type 0 where
  pub id : String
  pub display_name : String
  pub identity_count : ℕ

pub record MediaPersistenceRow : Type 0 where
  pub id : String
  pub message_id : String
  pub cursor_id : String
  pub mime_type : Option String
  pub availability : String
  pub byte_size : Option Number
  pub width : Option Number
  pub height : Option Number
  pub duration_ms : Option Number
  pub created_at : String

pub record TimelinePersistenceRow : Type 0 where
  pub id : String
  pub kind : String
  pub occurred_at : String
  pub cursor_id : String
  pub conversation_id : Option String

-- A score is the text of a number, as the store gives it in `scoreKey`.
pub record SearchPersistenceRow : Type 0 where
  pub id : String
  pub score : Number
  pub score_key : String
  pub sort_sent_at_null : Bool
  pub sort_sent_at : String
  pub conversation_id : Option String

-- The filters of a query for media.
pub record MediaFilter : Type 0 where
  pub message_id : Option String
  pub attachment_id : Option String
  pub media_type : Option String

-- The filters of a search, as the store is given them.
pub record SearchFilter : Type 0 where
  pub query : String
  pub conversation_id : Option String
  pub source_account_id : Option String
  pub person_id : Option String
  pub sender_direction : Option String
  pub from : Option String
  pub to : Option String
  pub media_type : Option String
  pub fuzzy_name : Option String
  pub fuzzy_text : Option String

pub record ReadPort : Type 0 where
  pub list_conversations :
      StoreQuery → Option String → Result ReadError (List ConversationPersistenceRow)
  pub list_people : StoreQuery → Option String → Result ReadError (List PersonPersistenceRow)
  pub list_media : Option (StoreQuery → MediaFilter → Result ReadError (List MediaPersistenceRow))
  pub list_timeline :
      Option (
        StoreQuery → Option String → Option String → Result ReadError (List TimelinePersistenceRow))
  pub search_messages : StoreQuery → SearchFilter → Result ReadError (List SearchPersistenceRow)

pub record ReadService : Type 0 where
  pub codec : CursorCodec
  pub key : ReadContext → String
  pub date_parse : String → Option (Bool × ℕ)
  pub iso : Bool × ℕ → String
  pub port : ReadPort
