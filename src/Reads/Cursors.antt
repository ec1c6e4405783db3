-- ===== src/Reads/Cursors.antt =====
-- src/application/reads.ts: `CursorCodec` and the shapes of cursor positions. `pack` is base64url of
-- JSON.stringify, `unpack` its way back through JSON.parse, and `hmac` the signature in base64url;
-- the last is plain ASCII, so that its bytes are compared as its units.
use echohoard.Base.{
  Bool, List, Option, String, [], false, if◌then◌else◌, is_empty, nat_eq, none, not, some,
  string_eq, true, ℕ, ◌&&◌, ◌==◌, ◌||◌, ◌∷◌,
}
use echohoard.Numbers.{Number, is_finite, is_number}
use echohoard.Reads.Requests.{
  ReadKind, ReadSort, conversations, created_at_id, display_name_id, media, messages, no_units,
  occurred_at_kind_id, people, search, search_score_id, sent_at_id, timeline,
}

pub data CursorValue : Type 0 where
  null : CursorValue
  boolean : Bool → CursorValue
  number : Number → CursorValue
  text : String → CursorValue

-- A member of a parsed array: `nested` is an array or an object.
pub data Item : Type 0 where
  scalar : CursorValue → Item
  nested : Item

-- A field of a parsed object.
pub data Field : Type 0 where
  value : Item → Field
  values : List Item → Field

-- What JSON.parse gives: `other` is a number, a text, a Boolean or an array.
pub data Parsed : Type 0 where
  fields : List (String × Field) → Parsed
  null_value other : Parsed

pub record CursorPosition : Type 0 where
  pub read_kind : ReadKind
  pub resource_id : Option Field
  pub sort : ReadSort
  pub values : List CursorValue
  pub filter_key : String
  pub direction : String

pub record CursorExpectation : Type 0 where
  pub read_kind : ReadKind
  pub direction : String
  pub resource_id : Option String
  pub filter_key : String

pub record CursorCodec : Type 0 where
  pub hmac : List ℕ → List ℕ
  pub pack : List (String × Field) → List ℕ
  pub unpack : List ℕ → Option Parsed
  pub ttl_milliseconds : ℕ

abbrev pub kind_text : ReadKind → String
kind_text conversations = "conversations"
kind_text people = "people"
kind_text messages = "messages"
kind_text media = "media"
kind_text timeline = "timeline"
kind_text search = "search"

-- `isReadKind`
abbrev pub kind_of : String → Option ReadKind
kind_of k =
    if k == "conversations"
    then some conversations
    else if k == "people"
    then some people
    else if k == "messages"
    then some messages
    else if k == "media"
    then some media
    else if k == "timeline"
    then some timeline
    else if k == "search"
    then some search
    else none

abbrev pub sort_text : ReadSort → String
sort_text created_at_id = "createdAt,id"
sort_text sent_at_id = "sentAt,id"
sort_text display_name_id = "displayNameNull,displayName,id"
sort_text occurred_at_kind_id = "occurredAt,kind,id"
sort_text search_score_id = "searchScore,sentAtNull,sentAt,id"

-- `isSort`
abbrev pub sort_of : String → Option ReadSort
sort_of s =
    if s == "createdAt,id"
    then some created_at_id
    else if s == "sentAt,id"
    then some sent_at_id
    else if s == "displayNameNull,displayName,id"
    then some display_name_id
    else if s == "occurredAt,kind,id"
    then some occurred_at_kind_id
    else if s == "searchScore,sentAtNull,sentAt,id"
    then some search_score_id
    else none

abbrev pub is_text : CursorValue → Bool
is_text (text s) = true
is_text _ = false

-- `(rank === 0 && typeof v === "string") || (rank === 1 && v === null)`
abbrev pub ranked : CursorValue → CursorValue → Bool
ranked (number a) (text s) = is_number 0 a
ranked (number a) null = is_number 1 a
ranked _ _ = false

abbrev pub is_event_kind : CursorValue → Bool
is_event_kind (text s) = s == "message" || s == "media"
is_event_kind _ = false

abbrev pub is_full_text : CursorValue → Bool
is_full_text (text s) = not (is_empty s)
is_full_text _ = false

unfoldable pub is_cursor_tuple : ReadSort → List CursorValue → Bool
is_cursor_tuple created_at_id (a ∷ b ∷ []) = is_text a && is_text b
is_cursor_tuple sent_at_id (a ∷ b ∷ []) = is_text a && is_text b
is_cursor_tuple display_name_id (a ∷ b ∷ c ∷ []) = ranked a b && is_text c
is_cursor_tuple occurred_at_kind_id (a ∷ b ∷ c ∷ []) = is_text a && is_event_kind b && is_text c
is_cursor_tuple search_score_id (a ∷ b ∷ c ∷ d ∷ []) = is_full_text a && ranked b c && is_text d
is_cursor_tuple _ _ = false

-- `isCursorValue` of a member of an array.
abbrev pub cursor_value : Item → Option CursorValue
cursor_value (scalar (number a)) = if is_finite a then some (number a) else none
cursor_value (scalar v) = some v
cursor_value nested = none

abbrev pub cons_value : Option CursorValue → Option (List CursorValue) → Option (List CursorValue)
cons_value (some v) (some vs) = some (v ∷ vs)
cons_value _ _ = none

unfoldable pub cursor_values : List Item → Option (List CursorValue)
cursor_values [] = some []
cursor_values (i ∷ items) = cons_value (cursor_value i) (cursor_values items)

abbrev pub field : String → List (String × Field) → Option Field
field name [] = none
field name ((key, f) ∷ rest) = if key == name then some f else field name rest

abbrev pub text_field : Option Field → Option String
text_field (some (value (scalar (text s)))) = some s
text_field _ = none

abbrev pub number_field : Option Field → Option Number
number_field (some (value (scalar (number a)))) = some a
number_field _ = none

abbrev pub array_field : Option Field → Option (List Item)
array_field (some (values items)) = some items
array_field _ = none

-- `cursor.split(".")`
unfoldable pub split_dots : List ℕ → List (List ℕ)
split_dots [] = [] ∷ []
split_dots (c ∷ cs) =
    let rest = split_dots cs in
    if c == 46 then [] ∷ rest else elim rest [ [] ↦ (c ∷ []) ∷ [] | p ∷ ps ↦ (c ∷ p) ∷ ps ]

-- `const [body, signature, extra]` with a body, a signature and no extra text.
abbrev pub body_and_signature : List (List ℕ) → Option (List ℕ × List ℕ)
body_and_signature (body ∷ signature ∷ []) =
    if no_units body || no_units signature then none else some (body, signature)
body_and_signature (body ∷ signature ∷ extra ∷ rest) =
    if no_units body || no_units signature || not (no_units extra)
    then none
    else some (body, signature)
body_and_signature _ = none
