-- ===== src/Reads/Tests.antt =====
-- Two conversations with a limit of one row for a page, and the theorems about reads at them.
use Prim.Native.String.{String}
use echohoard.Base.{
  Any, Bool, Bool-cases, List, Option, [], ap, arith, codes, false, if◌then◌else◌, inl, inr,
  is_blank, is_empty, length, none, ok, refl, same_units, some, subst, suc, sym, zero, ℕ, ◌∷◌, ◌≡◌,
}
use echohoard.Reads.Requests.{ValidatedPageRequest, conversations, created_at_id}
use echohoard.Reads.Cursors.{
  CursorCodec, Field, Item, array_field, field, fields, is_cursor_tuple, scalar, text,
}
use echohoard.Reads.Codec.{CursorInput, decode_cursor, encode_cursor, is_encodable, payload_fields}
use echohoard.Reads.Authentic.{IsAuthentic, decode_cursor-IsAuthentic}
use echohoard.Reads.RoundTrip.{IsFaithful, IsReadBack, decode-encode_cursor, position_of}
use echohoard.Reads.Pages.{Reading, cursor_input, expectation}
use echohoard.Reads.Walk.{IsReadable, read_all}
use echohoard.Reads.Keyset.{IsCast, SortedRow, read_all-ordered, row_position, rows_after}

-- A text of so many characters.
abbrev repeated : ℕ → String
repeated zero = String.[]
repeated (suc n) = String.◌∷◌ "a" (repeated n)

abbrev length_of : String → ℕ
length_of s = length (codes s)

length_of-repeated : (n : ℕ) → length_of (repeated n) ≡ n
length_of-repeated zero = refl
length_of-repeated (suc n) = ap suc (length_of-repeated n)

abbrev forward_request : ValidatedPageRequest
forward_request = record { archive_id = "archive"; limit = 1; cursor = none; direction = "forward" }

abbrev all_conversations : Reading
all_conversations = record {
  request = forward_request;
  read_kind = conversations;
  resource_id = none;
  sort = created_at_id;
  filter_key = "all";
}

abbrev first_row : SortedRow ℕ
first_row = record { created_at = 0; id = 1; row = 10 }

abbrev second_row : SortedRow ℕ
second_row = record { created_at = 1; id = 0; row = 20 }

abbrev two_rows : List (SortedRow ℕ)
two_rows = first_row ∷ second_row ∷ []

abbrev row_number : SortedRow ℕ → ℕ
row_number r = r.row

abbrev input_of : SortedRow ℕ → CursorInput
input_of r =
    cursor_input all_conversations (text (repeated r.created_at) ∷ text (repeated r.id) ∷ [])

abbrev payload_of : SortedRow ℕ → List (String × Field)
payload_of r = payload_fields 100 5 (input_of r)

abbrev is_first : Option (List Item) → Bool
is_first (some (scalar (text t) ∷ rest)) = is_empty t
is_first _ = false

abbrev body_of : Bool → List ℕ
body_of first = if first then 1 ∷ [] else 2 ∷ []

-- A codec that tells the two positions apart.
abbrev two_bodies : CursorCodec
two_bodies = record {
  hmac = λ body. 7 ∷ [];
  pack = λ fs. body_of (is_first (array_field (field "values" fs)));
  unpack =
      λ u. some (fields (payload_of (if same_units u (1 ∷ []) then first_row else second_row)));
  ttl_milliseconds = 100;
}

two_bodies-IsFaithful : IsFaithful two_bodies
two_bodies-IsFaithful = record {
  pack_plain = λ fs. elim (Bool-cases (is_first (array_field (field "values" fs)))) [
    | inl h ↦ rw h (refl, tt)
    | inr h ↦ rw h (refl, tt)
  ];
  pack_full = λ fs. elim (Bool-cases (is_first (array_field (field "values" fs)))) [
    | inl h ↦ rw h refl
    | inr h ↦ rw h refl
  ];
  hmac_plain = λ body. (refl, tt);
  hmac_full = λ body. refl;
}

abbrev first_cursor : List ℕ
first_cursor = 1 ∷ 46 ∷ 7 ∷ []

first_cursor-encoded : encode_cursor two_bodies 5 (input_of first_row) ≡ ok first_cursor
unfolding encode_cursor is_encodable payload_fields is_cursor_tuple is_blank
first_cursor-encoded = refl

second_cursor-encoded : encode_cursor two_bodies 5 (input_of second_row) ≡ ok (2 ∷ 46 ∷ 7 ∷ [])
unfolding encode_cursor is_encodable payload_fields is_cursor_tuple is_blank
second_cursor-encoded = refl

first-IsReadBack : IsReadBack two_bodies 5 (input_of first_row)
unfolding payload_fields
first-IsReadBack = refl

second-IsReadBack : IsReadBack two_bodies 5 (input_of second_row)
unfolding payload_fields
second-IsReadBack = refl

first_cursor-decoded :
    decode_cursor two_bodies 60 first_cursor "archive" (some (expectation all_conversations))
    ≡ ok (position_of (input_of first_row))
first_cursor-decoded =
    decode-encode_cursor two_bodies 5 60 (input_of first_row) first_cursor two_bodies-IsFaithful
      first-IsReadBack (omega arith) (omega arith) first_cursor-encoded

decode-encode_cursor_example :
    decode_cursor two_bodies 60 first_cursor "archive" (some (expectation all_conversations))
    ≡ ok (position_of (input_of first_row))
decode-encode_cursor_example =
    decode-encode_cursor two_bodies 5 60 (input_of first_row) first_cursor two_bodies-IsFaithful
      first-IsReadBack (omega arith) (omega arith) first_cursor-encoded

decode_cursor-IsAuthentic_example :
    IsAuthentic two_bodies 60 first_cursor "archive"
      (some (expectation all_conversations))
      (position_of (input_of first_row))
decode_cursor-IsAuthentic_example =
    decode_cursor-IsAuthentic two_bodies 60 first_cursor "archive"
      (some (expectation all_conversations)) (position_of (input_of first_row)) first_cursor-decoded

lengths-IsCast : IsCast length_of length_of repeated repeated
lengths-IsCast = record { times = length_of-repeated; ids = length_of-repeated }

member-case :
    (P : SortedRow ℕ → Type 0)
    → P first_row
    → P second_row
    → (r : SortedRow ℕ) → Any (λ x. r ≡ x) two_rows
    → P r
member-case P p q r (inl e) = subst P (sym e) p
member-case P p q r (inr (inl e)) = subst P (sym e) q
member-case P p q r (inr (inr h)) = elim h [ ]

two_rows-IsReadable :
    IsReadable row_number
      (row_position repeated repeated)
      two_bodies
      (λ n. 5)
      all_conversations
      (rows_after length_of length_of false two_rows)
      two_rows
two_rows-IsReadable = record {
  faithful = two_bodies-IsFaithful;
  positive = omega arith;
  cursors = λ n.
      member-case (λ r. (cursor : List ℕ) × (encode_cursor two_bodies 5 (input_of r) ≡ ok cursor))
        (first_cursor, first_cursor-encoded) (2 ∷ 46 ∷ 7 ∷ [], second_cursor-encoded);
  read_back = λ n.
      member-case (λ r. IsReadBack two_bodies 5 (input_of r)) first-IsReadBack second-IsReadBack;
  in_time = λ n. omega arith;
  safe = λ n. omega arith;
}

read_all-ordered_example :
    read_all row_number
      (row_position repeated repeated)
      two_bodies
      (λ n. 5)
      all_conversations
      (rows_after length_of length_of false two_rows)
      3
      0
      none
    ≡ ok (some (10 ∷ 20 ∷ []))
read_all-ordered_example =
    read_all-ordered row_number length_of length_of repeated repeated two_bodies (λ n. 5)
      all_conversations false two_rows 3 lengths-IsCast ((refl, tt), (tt, tt)) two_rows-IsReadable
      (omega arith)
