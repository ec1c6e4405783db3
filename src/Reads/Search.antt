-- ===== src/Reads/Search.antt =====
-- src/application/reads.ts: `ArchiveReadService.search`.
use Prim.Native.Char.{code}
use echohoard.Base.{
  Bool, List, Option, Result, String, [], codes, err, false, if◌then◌else◌, is_blank, is_empty,
  is_space, ltb, max, nat_eq, none, not, ok, require, some, string_eq, true, truthy, utf16_units, ℕ,
  ◌&&◌, ◌==◌, ◌>>=◌, ◌>>◌, ◌||◌, ◌∷◌,
}
use echohoard.Numbers.{Number, is_number}
use echohoard.Reads.Requests.{
  PageRequest, ReadAccess, ReadError, default_to, invalid_cursor, invalid_request, read_access,
  search, search_score_id, validate_page_request,
}
use echohoard.Reads.Cursors.{CursorValue, is_full_text, null, number, text}
use echohoard.Reads.Codec.{whole}
use echohoard.Reads.Pages.{ReadPage, read_page}
use echohoard.Reads.Rows.{
  ReadService, SearchContext, SearchFilter, SearchPersistenceRow, StoreQuery, search_context,
}
use echohoard.Reads.Services.{reading, store_query}
use echohoard.Reads.Events.{is_reversed, nonzero, or_other, parse_read_date}

pub record SearchQuery : Type 0 where
  pub request : PageRequest
  pub query : Option String
  pub conversation_id : Option String
  pub unified_conversation_id : Option String
  pub person_id : Option String
  pub source_account_id : Option String
  pub sender_direction : Option String
  pub from : Option String
  pub to : Option String
  pub media_type : Option String
  pub fuzzy_name : Option String
  pub fuzzy_text : Option String
  pub name : Option String
  pub text_alias : Option String

pub record SearchResultRead : Type 0 where
  pub id : String
  pub score : Number
  pub conversation_id : Option String
  pub sent_at : Option String

-- `trim`
abbrev trim_start : String → String
trim_start String.[] = String.[]
trim_start (String.◌∷◌ c s) =
    let rest = trim_start s in if is_space (code c) then rest else String.◌∷◌ c s

abbrev trim_end : String → String
trim_end String.[] = String.[]
trim_end (String.◌∷◌ c s) =
    let rest = trim_end s in
    if is_empty rest && is_space (code c) then String.[] else String.◌∷◌ c rest

abbrev pub trim : String → String
trim s = trim_end (trim_start s)

-- `value.length > max`
abbrev pub is_too_long : ℕ → Option String → Bool
is_too_long max none = false
is_too_long max (some s) = ltb max (utf16_units (codes s))

abbrev pub is_invalid_id : Option String → Bool
is_invalid_id none = false
is_invalid_id (some s) = is_blank s || ltb 200 (utf16_units (codes s))

abbrev pub is_sender_direction : Option String → Bool
is_sender_direction none = true
is_sender_direction (some d) = d == "sent" || d == "received" || d == "unknown"

-- `isSearchMediaType` of a value that is there.
abbrev pub is_search_media_type : Option String → Bool
is_search_media_type none = true
is_search_media_type (some m) =
    m == "image" || m == "video" || m == "audio" || m == "document" || m == "other"

abbrev pub fuzzy_name_of : SearchQuery → Option String
fuzzy_name_of q = or_other q.fuzzy_name q.name

abbrev pub fuzzy_text_of : SearchQuery → Option String
fuzzy_text_of q = or_other q.fuzzy_text q.text_alias

abbrev pub unified_id_of : SearchQuery → Option String
unified_id_of q = or_other q.unified_conversation_id q.conversation_id

unfoldable pub validate_search_filters : ReadService → SearchQuery → Result ReadError Unit
validate_search_filters s q = do
  require (not (is_too_long 5000 q.query)) (invalid_request "query is too long")
  require (not (is_too_long 200 (fuzzy_name_of q))) (invalid_request "fuzzyName is too long")
  require (not (is_too_long 200 (fuzzy_text_of q))) (invalid_request "fuzzyText is too long")
  require (not (is_invalid_id q.conversation_id)) (invalid_request "conversationId is invalid")
  require (not (is_invalid_id q.person_id)) (invalid_request "personId is invalid")
  require (not (is_invalid_id q.source_account_id)) (invalid_request "sourceAccountId is invalid")
  require (is_sender_direction q.sender_direction) (invalid_request "senderDirection is invalid")
  require (is_search_media_type q.media_type) (invalid_request "mediaType is invalid")
  from ← parse_read_date s q.from "from is invalid"
  to ← parse_read_date s q.to "to is invalid"
  require (not (is_reversed (nonzero from) (nonzero to))) (invalid_request "from must be before to")

abbrev is_absent : Option String → Bool
is_absent none = true
is_absent (some s) = false

-- The search that asks for nothing: its page is empty.
abbrev pub is_empty_search : SearchQuery → Bool
is_empty_search q =
    is_empty (trim (default_to "" q.query))
    && is_absent (fuzzy_name_of q)
    && is_absent (fuzzy_text_of q)
    && is_absent (unified_id_of q)
    && is_absent q.person_id
    && is_absent q.source_account_id
    && is_absent q.sender_direction
    && is_absent q.from
    && is_absent q.to
    && is_absent q.media_type

-- The sort key of a time that may be missing.
abbrev pub search_sent_at : CursorValue → CursorValue → Bool
search_sent_at (number a) null = is_number 1 a
search_sent_at (number a) (text t) = is_number 0 a && not (is_empty t)
search_sent_at _ _ = false

-- `searchCursorValues`
unfoldable pub search_cursor_values :
    Option (List CursorValue) → Result ReadError (Option (List CursorValue))
search_cursor_values none = ok none
search_cursor_values (some (a ∷ b ∷ c ∷ d ∷ rest)) =
    if is_full_text a && is_full_text d && search_sent_at b c
    then ok (some (a ∷ b ∷ c ∷ d ∷ []))
    else err invalid_cursor
search_cursor_values (some _) = err invalid_cursor

abbrev pub search_read : SearchPersistenceRow → SearchResultRead
search_read r = record {
  id = r.id;
  score = r.score;
  conversation_id = truthy r.conversation_id;
  sent_at = if r.sort_sent_at_null then none else some r.sort_sent_at;
}

abbrev pub search_position : SearchPersistenceRow → List CursorValue
search_position r =
    text r.score_key
    ∷ number (whole (if r.sort_sent_at_null then 1 else 0))
    ∷ (if r.sort_sent_at_null then null else text r.sort_sent_at)
    ∷ text r.id
    ∷ []

module _ (s : ReadService) where
  -- `new Date(value).toISOString()` of a date that is there.
  abbrev pub iso_date : Option String → Option String
  iso_date none = none
  iso_date (some t) = elim (s.date_parse t) [ none ↦ none | some d ↦ some (s.iso d) ]

  abbrev pub search_context_of : SearchQuery → ReadAccess → SearchContext
  search_context_of q access = record {
    query = trim (default_to "" q.query);
    unified_conversation_id = unified_id_of q;
    source_account_id = q.source_account_id;
    person_id = q.person_id;
    sender_direction = q.sender_direction;
    from = iso_date q.from;
    to = iso_date q.to;
    media_type = q.media_type;
    fuzzy_name = fuzzy_name_of q;
    fuzzy_text = fuzzy_text_of q;
    ui_mode = access.ui_mode;
    authorized_conversation_ids = access.authorized_conversation_ids;
  }

  abbrev pub search_filter : SearchQuery → SearchFilter
  search_filter q = record {
    query = trim (default_to "" q.query);
    conversation_id = truthy (unified_id_of q);
    source_account_id = truthy q.source_account_id;
    person_id = truthy q.person_id;
    sender_direction = truthy q.sender_direction;
    from = iso_date (truthy q.from);
    to = iso_date (truthy q.to);
    media_type = truthy q.media_type;
    fuzzy_name = truthy (fuzzy_name_of q);
    fuzzy_text = truthy (fuzzy_text_of q);
  }

  -- A page of rows comes from the store, but for the search that asks for nothing.
  abbrev pub search_rows : SearchQuery → StoreQuery → Result ReadError (List SearchPersistenceRow)
  search_rows q query =
      if is_empty_search q then ok [] else s.port.search_messages query (search_filter q)

  unfoldable pub search_archive : ℕ → SearchQuery → Result ReadError (ReadPage SearchResultRead)
  search_archive now q = do
    request ← validate_page_request q.request
    access ← read_access q.request.mcp_access q.request.ui_access
    validate_search_filters s q
    let key = s.key (search_context (search_context_of q access))
    let r = reading request search (unified_id_of q) search_score_id key
    read_page search_read search_position s.codec now r (λ after limit. do
      position ← search_cursor_values after
      search_rows q (store_query request access position limit))
