-- ===== src/Reads/Codec.antt =====
-- src/application/reads.ts: `CursorCodec.encode` and `CursorCodec.decode`.
use echohoard.Base.{
  Bool, List, Option, Result, String, [], as_result, err, false, if◌then◌else◌, is_blank, is_empty,
  is_some_of, leb, length, ltb, map, nat_eq, none, not, ok, require, same_units, some, string_eq,
  true, truthy, ℕ, ◌&&◌, ◌++◌, ◌+◌, ◌==◌, ◌>>=◌, ◌>>◌, ◌||◌, ◌∷◌,
}
use echohoard.Numbers.{Number, finite, is_number, safe_integer}
use echohoard.Reads.Requests.{
  ReadError, ReadKind, ReadSort, cursor_scope, default_to, invalid_cursor, no_units, type_error,
}
use echohoard.Reads.Cursors.{
  CursorCodec, CursorExpectation, CursorPosition, CursorValue, Field, Parsed, array_field,
  body_and_signature, cursor_values, field, fields, is_cursor_tuple, kind_of, kind_text, null_value,
  number, number_field, other, scalar, sort_of, sort_text, split_dots, text, text_field, value,
  values,
}

pub record CursorInput : Type 0 where
  pub archive_id : String
  pub direction : String
  pub read_kind : ReadKind
  pub resource_id : Option String
  pub sort : ReadSort
  pub values : List CursorValue
  pub filter_key : String

abbrev pub is_direction : String → Bool
is_direction d = d == "forward" || d == "backward"

abbrev pub whole : ℕ → Number
whole n = finite false n 0

abbrev pub resource_field : Option String → List (String × Field)
resource_field none = []
resource_field (some r) = ("resourceId", value (scalar (text r))) ∷ []

-- The payload that `encode` signs.
unfoldable pub payload_fields : ℕ → ℕ → CursorInput → List (String × Field)
payload_fields ttl now i =
    ("version", value (scalar (number (whole 1))))
    ∷ ("archiveId", value (scalar (text i.archive_id)))
    ∷ ("direction", value (scalar (text i.direction)))
    ∷ ("readKind", value (scalar (text (kind_text i.read_kind))))
    ∷ ("sort", value (scalar (text (sort_text i.sort))))
    ∷ ("values", values (map scalar i.values))
    ∷ ("issuedAt", value (scalar (number (whole now))))
    ∷ ("expiresAt", value (scalar (number (whole (now + ttl)))))
    ∷ (resource_field i.resource_id ++ (("filterKey", value (scalar (text i.filter_key))) ∷ []))

-- What `encode` asks of its input; the kind and the sort are of their types.
unfoldable pub is_encodable : CursorInput → Bool
is_encodable i =
    not (is_blank i.archive_id)
    && is_cursor_tuple i.sort i.values
    && not (is_empty i.filter_key)
    && is_direction i.direction

abbrev pub signed_cursor : CursorCodec → List ℕ → List ℕ
signed_cursor c body = body ++ (46 ∷ c.hmac body)

unfoldable pub encode_cursor : CursorCodec → ℕ → CursorInput → Result ReadError (List ℕ)
encode_cursor c now i = do
  require (is_encodable i) invalid_cursor
  let cursor = signed_cursor c (c.pack (payload_fields c.ttl_milliseconds now i))
  require (leb (length cursor) 2048) invalid_cursor
  ok cursor

-- `payload` as an object; a property of another value is `undefined`, and that of `null` throws.
abbrev pub object_fields : Parsed → Result ReadError (List (String × Field))
object_fields (fields fs) = ok fs
object_fields null_value = err type_error
object_fields other = ok []

-- `this.now() >= payload.expiresAt`, negated, of a safe integer.
abbrev pub is_before : ℕ → Bool × ℕ → Bool
is_before now (negative, n) = not negative && ltb now n

abbrev pub is_one : Option Number → Bool
is_one none = false
is_one (some a) = is_number 1 a

abbrev pub integer_field : Option Number → Option (Bool × ℕ)
integer_field none = none
integer_field (some a) = safe_integer a

abbrev pub has_direction : Option String → Bool
has_direction none = false
has_direction (some d) = is_direction d

abbrev pub and_then : {A B : Type 0} → Option A → (A → Option B) → Option B
and_then none f = none
and_then (some a) f = f a

-- What the checks on the payload ask of its fields.
abbrev pub is_payload : ℕ → List (String × Field) → ReadSort → List CursorValue → Bool × ℕ → Bool
is_payload now fs sort vs expires =
    is_one (number_field (field "version" fs))
    && has_direction (text_field (field "direction" fs))
    && is_cursor_tuple sort vs
    && is_before now expires

unfoldable pub position_from :
    ℕ
    → List (String × Field)
    → Option ReadKind
    → Option ReadSort
    → Option (List CursorValue)
    → Option String
    → Option (Bool × ℕ)
    → Option (Bool × ℕ)
    → Result ReadError CursorPosition
position_from now fs (some kind) (some sort) (some vs) (some key) (some issued) (some expires) =
    if is_payload now fs sort vs expires
    then ok (record {
      read_kind = kind;
      resource_id = field "resourceId" fs;
      sort = sort;
      values = vs;
      filter_key = key;
      direction = default_to "" (text_field (field "direction" fs));
    })
    else err invalid_cursor
position_from now fs _ _ _ _ _ _ = err invalid_cursor

-- The checks on the payload, which fail with one error.
unfoldable pub read_position : ℕ → List (String × Field) → Result ReadError CursorPosition
read_position now fs =
    position_from now fs (and_then (text_field (field "readKind" fs)) kind_of)
      (and_then (text_field (field "sort" fs)) sort_of)
      (and_then (array_field (field "values" fs)) cursor_values)
      (truthy (text_field (field "filterKey" fs)))
      (integer_field (number_field (field "issuedAt" fs)))
      (integer_field (number_field (field "expiresAt" fs)))

abbrev pub is_resource : Option Field → Option String → Bool
is_resource none none = true
is_resource (some (value (scalar (text r)))) (some s) = r == s
is_resource _ _ = false

abbrev pub is_expected : Option CursorExpectation → CursorPosition → Bool
is_expected none p = true
is_expected (some e) p =
    kind_text p.read_kind == kind_text e.read_kind
    && p.direction == e.direction
    && is_resource p.resource_id e.resource_id
    && p.filter_key == e.filter_key

unfoldable pub decode_cursor :
    CursorCodec → ℕ → List ℕ → String → Option CursorExpectation → Result ReadError CursorPosition
decode_cursor c now cursor archive expected = do
  require (not (no_units cursor) && leb (length cursor) 2048) invalid_cursor
  parts ← as_result invalid_cursor (body_and_signature (split_dots cursor))
  require (same_units parts.1 (c.hmac parts.0)) invalid_cursor
  parsed ← as_result invalid_cursor (c.unpack parts.0)
  fs ← object_fields parsed
  position ← read_position now fs
  require (is_some_of (text_field (field "archiveId" fs)) archive) cursor_scope
  require (is_expected expected position) invalid_cursor
  ok position
