-- ===== src/Reads/Events.antt =====
-- src/application/reads.ts: `ArchiveReadService`, media and the timeline.
use Prim.Native.Char.{code}
use echohoard.Base.{
  Bool, Option, Result, String, [], as_result, err, false, if◌then◌else◌, is_empty, ltb, nat_eq,
  none, not, ok, require, some, string_eq, true, truthy, ℕ, ◌==◌, ◌>>=◌, ◌>>◌, ◌||◌, ◌∷◌,
}
use echohoard.Numbers.{Number, safe_integer}
use echohoard.Reads.Requests.{
  PageRequest, ReadError, created_at_id, invalid_request, media, occurred_at_kind_id, read_access,
  timeline, unavailable, validate_page_request,
}
use echohoard.Reads.Cursors.{text}
use echohoard.Reads.Pages.{ReadPage, read_page}
use echohoard.Reads.Rows.{
  MediaPersistenceRow, ReadService, TimelinePersistenceRow, media_context, timeline_context,
}
use echohoard.Reads.Services.{reading, store_query}

pub record MediaRead : Type 0 where
  pub id : String
  pub message_id : String
  pub media_type : String
  pub availability : String
  pub mime_type : Option String
  pub byte_size : Option ℕ
  pub width : Option ℕ
  pub height : Option ℕ
  pub duration_ms : Option ℕ

pub record TimelineRead : Type 0 where
  pub id : String
  pub kind : String
  pub occurred_at : String
  pub conversation_id : Option String

-- `mediaAvailability`
abbrev pub media_availability : String → String
media_availability a =
    if a == "available" || a == "unsafe" || a == "unresolved" then a else "missing"

-- The part before the first slash.
abbrev before_slash : String → String
before_slash String.[] = String.[]
before_slash (String.◌∷◌ c s) =
    let rest = before_slash s in if code c == 47 then String.[] else String.◌∷◌ c rest

-- `mediaType`; `lower` is `toLowerCase`.
abbrev pub media_type_of : (String → String) → Option String → String
media_type_of lower none = "other"
media_type_of lower (some m) =
    if is_empty m
    then "other"
    else let category = lower (before_slash m) in
      if category == "image" || category == "video" || category == "audio"
      then category
      else "document"

abbrev natural_or_zero : Option (Bool × ℕ) → ℕ
natural_or_zero none = 0
natural_or_zero (some (negative, n)) = if negative then 0 else n

-- `safeOptionalCount` of a value that is there.
abbrev pub safe_optional_count : Option Number → Option ℕ
safe_optional_count none = none
safe_optional_count (some a) = some (natural_or_zero (safe_integer a))

abbrev pub media_read : (String → String) → MediaPersistenceRow → MediaRead
media_read lower r = record {
  id = r.id;
  message_id = r.message_id;
  media_type = media_type_of lower r.mime_type;
  availability = media_availability r.availability;
  mime_type = truthy r.mime_type;
  byte_size = safe_optional_count r.byte_size;
  width = safe_optional_count r.width;
  height = safe_optional_count r.height;
  duration_ms = safe_optional_count r.duration_ms;
}

pub record MediaListQuery : Type 0 where
  pub request : PageRequest
  pub message_id : Option String
  pub attachment_id : Option String
  pub media_type : Option String

pub record TimelineQuery : Type 0 where
  pub request : PageRequest
  pub from : Option String
  pub to : Option String

-- `a ?? b`
abbrev pub or_other : {A : Type 0} → Option A → Option A → Option A
or_other none b = b
or_other (some a) b = some a

-- `parseReadDate` and `parseSearchDate`
abbrev pub parse_read_date :
    ReadService → Option String → String → Result ReadError (Option (Bool × ℕ))
parse_read_date s none name = ok none
parse_read_date s (some t) name = elim (s.date_parse t) [
  | none ↦ err (invalid_request name)
  | some d ↦ ok (some d)
]

-- A time of zero counts as none, as `from ? ... : {}` does.
abbrev pub nonzero : Option (Bool × ℕ) → Option (Bool × ℕ)
nonzero none = none
nonzero (some (negative, n)) = if n == 0 then none else some (negative, n)

-- `a > b` of two times.
abbrev pub is_later : Bool × ℕ → Bool × ℕ → Bool
is_later (false, a) (false, b) = ltb b a
is_later (false, a) (true, b) = ltb 0 a || ltb 0 b
is_later (true, a) (false, b) = false
is_later (true, a) (true, b) = ltb a b

-- `from && to && from > to`
abbrev pub is_reversed : Option (Bool × ℕ) → Option (Bool × ℕ) → Bool
is_reversed (some a) (some b) = is_later a b
is_reversed _ _ = false

module _ (s : ReadService) where
  unfoldable pub list_media :
      (String → String) → ℕ → MediaListQuery → Result ReadError (ReadPage MediaRead)
  list_media lower now q = do
    request ← validate_page_request q.request
    access ← read_access q.request.mcp_access q.request.ui_access
    let key = s.key (media_context q.message_id q.attachment_id q.media_type access)
    let r = reading request media (or_other q.message_id q.attachment_id) created_at_id key
    read_page (media_read lower)
        (λ (m : MediaPersistenceRow). text m.created_at ∷ text m.cursor_id ∷ []) s.codec now r
        (λ after limit. do
          list ← as_result unavailable s.port.list_media
          list (store_query request access after limit) (record {
            message_id = truthy q.message_id;
            attachment_id = truthy q.attachment_id;
            media_type = truthy q.media_type;
          }))

  abbrev pub iso_of : Option (Bool × ℕ) → Option String
  iso_of none = none
  iso_of (some d) = some (s.iso d)

  unfoldable pub list_timeline : ℕ → TimelineQuery → Result ReadError (ReadPage TimelineRead)
  list_timeline now q = do
    request ← validate_page_request q.request
    access ← read_access q.request.mcp_access q.request.ui_access
    from ← parse_read_date s q.from "from is invalid"
    to ← parse_read_date s q.to "to is invalid"
    require (not (is_reversed (nonzero from) (nonzero to)))
        (invalid_request "from must be before to")
    let key = s.key (timeline_context (iso_of from) (iso_of to) access)
    let r = reading request timeline none occurred_at_kind_id key
    read_page
        (λ (t : TimelinePersistenceRow). record {
          id = t.id;
          kind = t.kind;
          occurred_at = t.occurred_at;
          conversation_id = truthy t.conversation_id;
        })
        (λ (t : TimelinePersistenceRow). text t.occurred_at ∷ text t.kind ∷ text t.cursor_id ∷ [])
        s.codec now r
        (λ after limit. do
          list ← as_result unavailable s.port.list_timeline
          list (store_query request access after limit) (iso_of (nonzero from))
              (iso_of (nonzero to)))
