-- ===== src/Reads/Walk.antt =====
-- A reader who follows the next cursors: src/application/reads.ts.
use echohoard.Base.{
  Any, Bool-cases, IsSuffix, List, Option, Result, ap, arith, drop, false, inl, inr, last,
  last-take, length, length-drop, length-take, ltb, map, none, ok, refl, some, string_eq, suc,
  suffix-Any, suffix_refl, suffix_tail, suffix_trans, take, take-drop, take-take, take_all, true,
  zero, ℕ, ◌++◌, ◌+◌, ◌<◌, ◌>>=◌, ◌^◌, ◌∷◌, ◌≡◌, ◌≤◌,
}
use echohoard.Reads.Requests.{ReadError}
use echohoard.Reads.Cursors.{CursorCodec, CursorValue, sort_text}
use echohoard.Reads.Codec.{encode_cursor}
use echohoard.Reads.RoundTrip.{IsFaithful, IsReadBack, decode-encode_cursor}
use echohoard.Reads.Pages.{Reading, cursor_input, page, page_of, read_page, start_position}

-- The same operation with another cursor in the request.
abbrev pub at_cursor : Reading → Option (List ℕ) → Reading
at_cursor s cursor = record s { request = record s.request { cursor = cursor } }

abbrev pub add_items : {Item : Type 0} → List Item → Option (List Item) → Option (List Item)
add_items items none = none
add_items items (some rest) = some (items ++ rest)

module _ {Row Item : Type 0} (item : Row → Item) (position : Row → List CursorValue)
    (c : CursorCodec) (clock : ℕ → ℕ) (s : Reading)
    (fetch : Option (List CursorValue) → ℕ → Result ReadError (List Row)) where
  -- What a reader does: page after page, the n-th at the clock's n-th time, until there is no next
  -- cursor; `none` is a reader that gives up.
  unfoldable pub read_all : ℕ → ℕ → Option (List ℕ) → Result ReadError (Option (List Item))
  read_all zero n cursor = ok none
  read_all (suc fuel) n cursor = do
    p ← read_page item position c (clock n) (at_cursor s cursor) fetch
    elim p.next_cursor [
      | none ↦ ok (some p.items)
      | some next ↦ do rest ← read_all fuel (suc n) (some next); ok (add_items p.items rest)
    ]

  -- The store gives the rows in one order: all of them from the start, those after a row from its
  -- position.
  pub record IsKeyset (rows : List Row) : Type 0 where
    pub from_start : fetch none (s.request.limit + 1) ≡ ok (take (s.request.limit + 1) rows)
    pub from_row :
        (r : Row) (post : List Row)
        → IsSuffix (r ∷ post) rows
        → fetch (some (position r)) (s.request.limit + 1) ≡ ok (take (s.request.limit + 1) post)

  -- Each row has a cursor, and each page is asked for before its cursor is over.
  pub record IsReadable (rows : List Row) : Type 0 where
    pub faithful : IsFaithful c
    pub positive : 0 < s.request.limit
    pub cursors :
        (n : ℕ) (r : Row)
        → Any (λ x. r ≡ x) rows
        → (cursor : List ℕ) × (encode_cursor c (clock n) (cursor_input s (position r)) ≡ ok cursor)
    pub read_back :
        (n : ℕ) (r : Row)
        → Any (λ x. r ≡ x) rows
        → IsReadBack c (clock n) (cursor_input s (position r))
    pub in_time : (n : ℕ) → clock (suc n) < clock n + c.ttl_milliseconds
    pub safe : (n : ℕ) → clock n + c.ttl_milliseconds < 2 ^ 53

  module _ (rows : List Row) (keyset : IsKeyset rows) (readable : IsReadable rows) where
    -- The cursor leads to the rows that are left.
    abbrev LeadsTo : ℕ → Option (List ℕ) → List Row → Type 0
    LeadsTo n cursor left =
        (after : Option (List CursorValue)) × (start_position c (clock n) (at_cursor s cursor)
            cursor
          ≡ ok after)
        × (fetch after (s.request.limit + 1) ≡ ok (take (s.request.limit + 1) left))

    next-LeadsTo :
        (n : ℕ) (r : Row) (post : List Row) (cursor : List ℕ)
        → IsSuffix (r ∷ post) rows
        → encode_cursor c (clock n) (cursor_input s (position r)) ≡ ok cursor
        → LeadsTo (suc n) (some cursor) post
    unfolding start_position
    next-LeadsTo n r post cursor there made = (
      some (position r),
      rw
          (decode-encode_cursor c (clock n) (clock (suc n)) (cursor_input s (position r)) cursor
            readable.faithful (readable.read_back n r (suffix-Any r post rows there))
            (readable.in_time n) (readable.safe n) made)
          (rw ((string_eq.same_iff (sort_text s.sort) (sort_text s.sort)).1 refl) refl),
      keyset.from_row r post there,
    )

    page_last :
        (now : ℕ) (cursor : Option (List ℕ)) (left : List Row)
        → length left ≤ s.request.limit
        → page_of item position c now (at_cursor s cursor) (take (s.request.limit + 1) left)
          ≡ ok (record { items = map item left; next_cursor = none; has_more = false })
    unfolding page_of page
    page_last now cursor left h =
        let few : ltb s.request.limit (length left) ≡ false = ground (arith, h) in
        rw (take_all (s.request.limit + 1) left (omega arith), take_all s.request.limit left h, few)
          refl

    page_more :
        (now : ℕ) (at : Option (List ℕ)) (left : List Row) (r : Row) (cursor : List ℕ)
        → s.request.limit < length left
        → last (take s.request.limit left) ≡ some r
        → encode_cursor c now (cursor_input s (position r)) ≡ ok cursor
        → page_of item position c now (at_cursor s at) (take (s.request.limit + 1) left)
          ≡ ok (record {
            items = map item (take s.request.limit left);
            next_cursor = some cursor;
            has_more = true;
          })
    unfolding page_of page
    page_more now at left r cursor h shown made =
        let many : ltb s.request.limit (length (take (s.request.limit + 1) left)) ≡ true =
          ground (arith, length-take (s.request.limit + 1) left, h) in
        rw (take-take s.request.limit left, shown, many) (rw made refl)

    read_from :
        (fuel n : ℕ) (cursor : Option (List ℕ)) (left : List Row)
        → length left < fuel
        → IsSuffix left rows
        → LeadsTo n cursor left
        → read_all fuel n cursor ≡ ok (some (map item left))
    unfolding read_all read_page
    read_from zero n cursor left f there lead = absurd (omega arith)
    read_from (suc fuel) n cursor left f there (after, started, fetched) =
        elim (Bool-cases (ltb s.request.limit (length left))) [
          | inr few ↦
              rw (started, fetched, page_last (clock n) cursor left (ground (arith, few))) refl
          | inl many ↦
              let more : s.request.limit < length left = ground (arith, many) in
              let (r, shown, suffix) = last-take s.request.limit left readable.positive more in
              let there' = suffix_trans (r ∷ drop s.request.limit left) left rows suffix there in
              let (next, made) =
                readable.cursors n r (suffix-Any r (drop s.request.limit left) rows there') in
              let rest =
                read_from fuel (suc n) (some next) (drop s.request.limit left)
                  (omega (arith, length-drop s.request.limit left, readable.positive))
                  (suffix_tail r (drop s.request.limit left) rows there')
                  (next-LeadsTo n r (drop s.request.limit left) next there' made) in
              rw (started, fetched, page_more (clock n) cursor left r next more shown made)
                (rw rest (ap (λ x. ok (some x)) (take-drop item s.request.limit left)))
        ]

    -- A reader who follows the next cursors from the first page on, each before it is over, comes to
    -- the end and is shown every row exactly once and in order, whatever the limit of a page.
    pub read_all_complete :
        (fuel : ℕ) → length rows < fuel → read_all fuel 0 none ≡ ok (some (map item rows))
    unfolding start_position
    read_all_complete fuel f =
        read_from fuel 0 none rows f (suffix_refl rows) (none, refl, keyset.from_start)
