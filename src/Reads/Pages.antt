-- ===== src/Reads/Pages.antt =====
-- src/application/reads.ts: what the list operations of `ArchiveReadService` share, from the cursor of
-- the request to the page with the next cursor.
use echohoard.Base.{
  Bool, List, Option, Result, String, last, length, ltb, map, nat_eq, none, ok, require, some,
  string_eq, take, true, ℕ, ◌+◌, ◌==◌, ◌>>=◌, ◌>>◌,
}
use echohoard.Reads.Requests.{ReadError, ReadKind, ReadSort, ValidatedPageRequest, invalid_cursor}
use echohoard.Reads.Cursors.{CursorCodec, CursorExpectation, CursorValue, sort_text}
use echohoard.Reads.Codec.{CursorInput, decode_cursor, encode_cursor}

pub record ReadPage (Item : Type 0) : Type 0 where
  pub items : List Item
  pub next_cursor : Option (List ℕ)
  pub has_more : Bool

-- What an operation reads: `filter_key` is the digest of its whole context.
pub record Reading : Type 0 where
  pub request : ValidatedPageRequest
  pub read_kind : ReadKind
  pub resource_id : Option String
  pub sort : ReadSort
  pub filter_key : String

abbrev pub expectation : Reading → CursorExpectation
expectation s = record {
  read_kind = s.read_kind;
  direction = s.request.direction;
  resource_id = s.resource_id;
  filter_key = s.filter_key;
}

-- The position of the request's cursor, which is of the operation's own sort.
unfoldable pub start_position :
    CursorCodec → ℕ → Reading → Option (List ℕ) → Result ReadError (Option (List CursorValue))
start_position c now s none = ok none
start_position c now s (some cursor) = do
  p ← decode_cursor c now cursor s.request.archive_id (some (expectation s))
  require (sort_text p.sort == sort_text s.sort) invalid_cursor
  ok (some p.values)

abbrev pub cursor_input : Reading → List CursorValue → CursorInput
cursor_input s vs = record {
  archive_id = s.request.archive_id;
  direction = s.request.direction;
  read_kind = s.read_kind;
  resource_id = s.resource_id;
  sort = s.sort;
  values = vs;
  filter_key = s.filter_key;
}

module _ {Row Item : Type 0} (item : Row → Item) (position : Row → List CursorValue) where
  -- `page`, with the last row that is shown.
  unfoldable pub page :
      CursorCodec → ℕ → Reading → List Item → Bool → Option Row → Result ReadError (ReadPage Item)
  page c now s items true (some r) = do
    cursor ← encode_cursor c now (cursor_input s (position r))
    ok (record { items = items; next_cursor = some cursor; has_more = true })
  page c now s items more _ = ok (record { items = items; next_cursor = none; has_more = more })

  -- An operation from its rows on: one row more than the limit tells whether there are more.
  unfoldable pub page_of : CursorCodec → ℕ → Reading → List Row → Result ReadError (ReadPage Item)
  page_of c now s rows =
      let shown = take s.request.limit rows in
      page c now s (map item shown) (ltb s.request.limit (length rows)) (last shown)

  -- An operation on the rows that `fetch` gives after a position, with the limit that it is given.
  unfoldable pub read_page :
      CursorCodec
      → ℕ
      → Reading
      → (Option (List CursorValue) → ℕ → Result ReadError (List Row))
      → Result ReadError (ReadPage Item)
  read_page c now s fetch = do
    after ← start_position c now s s.request.cursor
    rows ← fetch after (s.request.limit + 1)
    page_of c now s rows
