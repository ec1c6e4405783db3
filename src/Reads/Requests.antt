-- ===== src/Reads/Requests.antt =====
-- src/application/reads.ts: the requests for a page, and what a reader may see. A cursor is a list of
-- UTF-16 code units.
use echohoard.Base.{
  Bool, List, Option, Result, String, [], any, as_result, false, if◌then◌else◌, is_blank, is_empty,
  leb, length, nat_eq, none, not, ok, require, some, string_eq, true, ℕ, ◌&&◌, ◌==◌, ◌>>=◌, ◌>>◌,
  ◌||◌, ◌∷◌,
}
use echohoard.Numbers.{Number, safe_integer}

pub data ReadError : Type 0 where
  invalid_request : String → ReadError
  invalid_cursor cursor_scope type_error unavailable : ReadError

pub data ReadKind : Type 0 where
  conversations people messages media timeline search : ReadKind

pub data ReadSort : Type 0 where
  created_at_id sent_at_id display_name_id occurred_at_kind_id search_score_id : ReadSort

pub data UiReadMode : Type 0 where
  ordinary hidden locked : UiReadMode

pub record UiReadAccess : Type 0 where
  pub mode : Option String
  pub authorized_conversation_ids : Option (List String)

pub record PageRequest : Type 0 where
  pub archive_id : String
  pub limit : Option Number
  pub cursor : Option (List ℕ)
  pub direction : Option String
  pub ui_access : Option UiReadAccess
  pub mcp_access : Option String

pub record ValidatedPageRequest : Type 0 where
  pub archive_id : String
  pub limit : ℕ
  pub cursor : Option (List ℕ)
  pub direction : String

pub record ReadAccess : Type 0 where
  pub ui_mode : UiReadMode
  pub authorized_conversation_ids : List String
  pub mcp_access : Bool

abbrev pub default_to : {A : Type 0} → A → Option A → A
default_to a none = a
default_to a (some b) = b

-- An integer from 1 to 100.
abbrev valid_limit : Option (Bool × ℕ) → Option ℕ
valid_limit none = none
valid_limit (some (negative, n)) = if not negative && leb 1 n && leb n 100 then some n else none

-- `input.limit ?? DEFAULT_READ_LIMIT`
abbrev pub limit_of : Option Number → Option ℕ
limit_of none = some 50
limit_of (some a) = valid_limit (safe_integer a)

-- `input.direction && input.direction !== "forward" && input.direction !== "backward"`, negated.
abbrev pub valid_direction : Option String → Bool
valid_direction none = true
valid_direction (some d) = is_empty d || d == "forward" || d == "backward"

abbrev pub no_units : List ℕ → Bool
no_units [] = true
no_units (c ∷ cs) = false

abbrev pub short_cursor : Option (List ℕ) → Bool
short_cursor none = true
short_cursor (some c) = leb (length c) 2048

-- `input.cursor ? { cursor: input.cursor } : {}`
abbrev pub given_cursor : Option (List ℕ) → Option (List ℕ)
given_cursor none = none
given_cursor (some c) = if no_units c then none else some c

unfoldable pub validate_page_request : PageRequest → Result ReadError ValidatedPageRequest
validate_page_request q = do
  require (not (is_blank q.archive_id)) (invalid_request "archiveId is required")
  limit ← as_result (invalid_request "limit must be an integer from 1 to 100") (limit_of q.limit)
  require (valid_direction q.direction) (invalid_request "direction is invalid")
  require (short_cursor q.cursor) invalid_cursor
  ok (record {
    archive_id = q.archive_id;
    limit = limit;
    cursor = given_cursor q.cursor;
    direction = default_to "forward" q.direction;
  })

abbrev mode_of : String → Option UiReadMode
mode_of m =
    if m == "ordinary"
    then some ordinary
    else if m == "hidden"
    then some hidden
    else if m == "locked"
    then some locked
    else none

-- What a request for the web delivery may see.
abbrev pub ui_read_access : UiReadAccess → Result ReadError ReadAccess
ui_read_access a = do
  mode ←
      as_result (invalid_request "ui read mode is invalid") (mode_of (default_to "ordinary" a.mode))
  require (not (any is_blank (default_to [] a.authorized_conversation_ids)))
      (invalid_request "conversation authorization is invalid")
  ok (record {
    ui_mode = mode;
    authorized_conversation_ids = default_to [] a.authorized_conversation_ids;
    mcp_access = false;
  })

abbrev absent : {A : Type 0} → Option A → Bool
absent none = true
absent (some a) = false

-- `readAccess`
unfoldable pub read_access : Option String → Option UiReadAccess → Result ReadError ReadAccess
read_access (some mcp) ui = do
  require (mcp == "allowed" && absent ui) (invalid_request "read access scope is invalid")
  ok (record { ui_mode = ordinary; authorized_conversation_ids = []; mcp_access = true })
read_access none none = ui_read_access (record { mode = none; authorized_conversation_ids = none })
read_access none (some a) = ui_read_access a
