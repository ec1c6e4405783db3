-- ===== src/Reads/Services.antt =====
-- src/application/reads.ts: `ArchiveReadService`, the lists of conversations and people.
use echohoard.Base.{List, Option, Result, String, [], none, some, truthy, ℕ, ◌++◌, ◌>>=◌, ◌∷◌}
use echohoard.Reads.Requests.{
  PageRequest, ReadAccess, ReadError, ReadKind, ReadSort, ValidatedPageRequest, conversations,
  created_at_id, default_to, display_name_id, people, read_access, validate_page_request,
}
use echohoard.Reads.Cursors.{CursorValue, null, number, text}
use echohoard.Reads.Codec.{whole}
use echohoard.Reads.Pages.{ReadPage, Reading, read_page}
use echohoard.Reads.Rows.{
  ConversationPersistenceRow, ConversationRead, PersonPersistenceRow, PersonRead, ReadService,
  StoreQuery, list_context,
}

pub record ListQuery : Type 0 where
  pub request : PageRequest
  pub search : Option String

abbrev pub reading : ValidatedPageRequest → ReadKind → Option String → ReadSort → String → Reading
reading request kind resource sort key = record {
  request = request;
  read_kind = kind;
  resource_id = resource;
  sort = sort;
  filter_key = key;
}

abbrev pub store_query :
    ValidatedPageRequest → ReadAccess → Option (List CursorValue) → ℕ → StoreQuery
store_query request access after limit = record {
  archive_id = request.archive_id;
  limit = limit;
  direction = request.direction;
  after = after;
  access = access;
}

abbrev pub conversation_read : ConversationPersistenceRow → ConversationRead
conversation_read r = record {
  id = r.id;
  title = default_to "" r.title;
  participant_count = r.participant_count;
  last_message_at = truthy r.last_message_at;
  source_count = r.source_count;
}

abbrev pub conversation_position : ConversationPersistenceRow → List CursorValue
conversation_position r = text r.created_at ∷ text r.id ∷ []

abbrev pub person_read : PersonPersistenceRow → PersonRead
person_read r = record {
  id = r.id;
  display_name = default_to "" r.display_name;
  identity_count = r.identity_count;
}

abbrev pub name_rank : Option String → List CursorValue
name_rank none = number (whole 1) ∷ null ∷ []
name_rank (some n) = number (whole 0) ∷ text n ∷ []

abbrev pub person_position : PersonPersistenceRow → List CursorValue
person_position r = name_rank r.display_name ++ (text r.id ∷ [])

module _ (s : ReadService) where
  unfoldable pub list_conversations : ℕ → ListQuery → Result ReadError (ReadPage ConversationRead)
  list_conversations now q = do
    request ← validate_page_request q.request
    access ← read_access q.request.mcp_access q.request.ui_access
    let r = reading request conversations none created_at_id (s.key (list_context q.search access))
    read_page conversation_read conversation_position s.codec now r (λ after limit.
        s.port.list_conversations (store_query request access after limit) (truthy q.search))

  unfoldable pub list_people : ℕ → ListQuery → Result ReadError (ReadPage PersonRead)
  list_people now q = do
    request ← validate_page_request q.request
    access ← read_access q.request.mcp_access q.request.ui_access
    let r = reading request people none display_name_id (s.key (list_context q.search access))
    read_page person_read person_position s.codec now r (λ after limit.
        s.port.list_people (store_query request access after limit) (truthy q.search))
