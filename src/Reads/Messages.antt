-- ===== src/Reads/Messages.antt =====
-- src/application/reads.ts: `ArchiveReadService.listMessages`. What hangs on a message is passed on as it
-- is: its types are parameters.
use echohoard.Base.{
  Bool, List, Option, Result, String, [], false, if◌then◌else◌, is_blank, none, not, require, some,
  truthy, ℕ, ◌>>=◌, ◌>>◌, ◌∷◌,
}
use echohoard.Reads.Requests.{
  PageRequest, ReadError, default_to, invalid_request, messages, read_access, sent_at_id,
  validate_page_request,
}
use echohoard.Reads.Cursors.{CursorValue, text}
use echohoard.Reads.Pages.{ReadPage, read_page}
use echohoard.Reads.Rows.{ReadService, StoreQuery, access_context}
use echohoard.Reads.Services.{reading, store_query}

module _ (Attachment Metadata Reply Revision Reaction Provenance : Type 0) where
  pub record MessagePersistenceRow : Type 0 where
    pub id : String
    pub conversation_id : String
    pub sender_person_id : Option String
    pub sent_at : Option String
    pub sort_sent_at : String
    pub text : Option String
    pub attachment_count : ℕ
    pub attachments : Option (List Attachment)
    pub direction : Option String
    pub message_type : Option String
    pub metadata : Option Metadata
    pub reply_to : Option Reply
    pub revisions : Option (List Revision)
    pub reactions : Option (List Reaction)
    pub provenance : Option Provenance
    pub source_count : Option ℕ
    pub source_deleted : Option Bool
    pub source_deleted_at : Option String
    pub source_deletion_kind : Option String
    pub content_unavailable : Option Bool

  pub record MessageRead : Type 0 where
    pub id : String
    pub conversation_id : String
    pub sender_person_id : Option String
    pub sent_at : String
    pub text : Option String
    pub attachment_count : ℕ
    pub attachments : List Attachment
    pub direction : String
    pub message_type : String
    pub metadata : Option Metadata
    pub reply_to : Option Reply
    pub revisions : List Revision
    pub reactions : List Reaction
    pub provenance : Option Provenance
    pub source_count : Option ℕ
    pub source_deleted : Bool
    pub content_unavailable : Option Bool
    pub source_deleted_at : Option String
    pub source_deletion_kind : Option String

  abbrev pub message_read : MessagePersistenceRow → MessageRead
  message_read r = record {
    id = r.id;
    conversation_id = r.conversation_id;
    sender_person_id = truthy r.sender_person_id;
    sent_at = default_to "" r.sent_at;
    text = r.text;
    attachment_count = r.attachment_count;
    attachments = default_to [] r.attachments;
    direction = default_to "unknown" r.direction;
    message_type = default_to "unsupported" r.message_type;
    metadata = r.metadata;
    reply_to = r.reply_to;
    revisions = default_to [] r.revisions;
    reactions = default_to [] r.reactions;
    provenance = r.provenance;
    source_count = r.source_count;
    source_deleted = default_to false r.source_deleted;
    content_unavailable =
        if default_to false r.source_deleted
        then some (default_to false r.content_unavailable)
        else none;
    source_deleted_at = truthy r.source_deleted_at;
    source_deletion_kind = truthy r.source_deletion_kind;
  }

  abbrev pub message_position : MessagePersistenceRow → List CursorValue
  message_position r = text (r.sort_sent_at) ∷ text (r.id) ∷ []

  pub record MessageWindowQuery : Type 0 where
    pub request : PageRequest
    pub conversation_id : String

  -- `list` is the store's; the cursor is for the one conversation.
  unfoldable pub list_messages :
      ReadService
      → (StoreQuery → String → Result ReadError (List MessagePersistenceRow))
      → ℕ
      → MessageWindowQuery
      → Result ReadError (ReadPage MessageRead)
  list_messages s list now q = do
    request ← validate_page_request q.request
    access ← read_access q.request.mcp_access q.request.ui_access
    require (not (is_blank q.conversation_id)) (invalid_request "conversationId is required")
    let r =
        reading request messages (some q.conversation_id) sent_at_id (s.key (access_context access))
    read_page message_read message_position s.codec now r
        (λ after limit. list (store_query request access after limit) q.conversation_id)
