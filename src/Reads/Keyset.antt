-- ===== src/Reads/Keyset.antt =====
-- src/infrastructure/db/prisma-persistence.ts: where `listConversations` and `listMedia` go on after a
-- cursor, `conversationCursor` and `mediaCursor`. Rows are ordered by a time and the number that a UUID
-- stands for; `time_of` and `id_of` are the casts of PostgreSQL.
use echohoard.Base.{
  All, Bool, IsSuffix, List, Option, Result, String, [], ap, arith, err, false, filter,
  if◌then◌else◌, inl, inr, length, ltb, map, nat_eq, none, ok, refl, some, string_eq, subst, take,
  true, ℕ, ◌&&◌, ◌+◌, ◌<◌, ◌==◌, ◌>>=◌, ◌||◌, ◌∙◌, ◌∷◌, ◌≡◌,
}
use echohoard.Reads.Requests.{ReadError, unavailable}
use echohoard.Reads.Pages.{Reading}
use echohoard.Reads.Walk.{IsKeyset, IsReadable, read_all, read_all_complete}
use echohoard.Reads.Cursors.{CursorCodec, CursorValue, text}

pub record SortedRow (R : Type 0) : Type 0 where
  pub created_at : ℕ
  pub id : ℕ
  pub row : R

module _ (backward : Bool) where
  -- `ORDER BY "createdAt", id`, ascending or descending.
  abbrev pub comes_before : ℕ → ℕ → ℕ → ℕ → Bool
  comes_before t i u j =
      if backward then ltb u t || (u == t && ltb j i) else ltb t u || (t == u && ltb i j)

module _ {R : Type 0} (time_of id_of : String → ℕ) where
  -- The condition on a row, from the values of a position: both must be texts.
  unfoldable pub conversation_cursor :
      Bool → Option (List CursorValue) → Result ReadError (SortedRow R → Bool)
  conversation_cursor backward none = ok (λ r. true)
  conversation_cursor backward (some (text t ∷ text i ∷ rest)) =
      ok (λ r. comes_before backward (time_of t) (id_of i) r.created_at r.id)
  conversation_cursor backward (some _) = err unavailable

  -- The statement on the rows that it may show, in its order: the condition, then the limit.
  unfoldable pub rows_after :
      Bool
      → List (SortedRow R)
      → Option (List CursorValue)
      → ℕ
      → Result ReadError (List (SortedRow R))
  rows_after backward rows after limit = do
    condition ← conversation_cursor backward after
    ok (take limit (filter condition rows))

filter_all : {A : Type 0} (p : A → Bool) (xs : List A) → All (λ x. p x ≡ true) xs → filter p xs ≡ xs
filter_all p [] h = refl
filter_all p (x ∷ xs) h = rw (h.0) (ap (λ r. x ∷ r) (filter_all p xs h.1))

comes_before_asym :
    (backward : Bool) (t i u j : ℕ)
    → comes_before backward t i u j ≡ true
    → comes_before backward u j t i ≡ false
comes_before_asym true t i u j h = ground (arith, h)
comes_before_asym false t i u j h = ground (arith, h)

comes_before_irrefl : (backward : Bool) (t i : ℕ) → comes_before backward t i t i ≡ false
comes_before_irrefl true t i = ground arith
comes_before_irrefl false t i = ground arith

module _ {R : Type 0} where
  -- The rows stand in the order of the statement.
  abbrev pub IsOrdered : Bool → List (SortedRow R) → Type 0
  IsOrdered backward [] = Unit
  IsOrdered backward (r ∷ rows) =
      All (λ (q : SortedRow R). comes_before backward r.created_at r.id q.created_at q.id ≡ true)
        rows
      × IsOrdered backward rows

  abbrev after_row : Bool → SortedRow R → SortedRow R → Bool
  after_row backward r q = comes_before backward r.created_at r.id q.created_at q.id

  All-suffix :
      (P : SortedRow R → Type 0) (r : SortedRow R) (post rows : List (SortedRow R))
      → All P rows
      → IsSuffix (r ∷ post) rows
      → P r
  All-suffix P r post [] h k = cc k
  All-suffix P r post (x ∷ rows) h (inl e) = subst P (let same : x ≡ r = cc e in same) h.0
  All-suffix P r post (x ∷ rows) h (inr k) = All-suffix P r post rows h.1 k

  -- What comes after a row of an ordered list is the rest of the list.
  pub filter-after :
      (backward : Bool) (r : SortedRow R) (post rows : List (SortedRow R))
      → IsOrdered backward rows
      → IsSuffix (r ∷ post) rows
      → filter (after_row backward r) rows ≡ post
  filter-after backward r post [] o k = cc k
  filter-after backward r post (x ∷ rows) o (inl e) =
      let same : x ≡ r = cc e in
      let others : rows ≡ post = cc e in
      subst (λ y. filter (after_row backward y) (x ∷ rows) ≡ post) same
        (rw (comes_before_irrefl backward x.created_at x.id)
          (filter_all (after_row backward x) rows o.0 ∙ others))
  filter-after backward r post (x ∷ rows) o (inr k) =
      let later = All-suffix (λ q. after_row backward x q ≡ true) r post rows o.0 k in
      rw (comes_before_asym backward x.created_at x.id r.created_at r.id later)
        (filter-after backward r post rows o.1 k)

-- The position of a row: its time and its id as texts.
abbrev pub row_position :
    {R : Type 0} → (ℕ → String) → (ℕ → String) → SortedRow R → List CursorValue
row_position time_text id_text r = text (time_text r.created_at) ∷ text (id_text r.id) ∷ []

-- The casts read the texts back.
pub record IsCast (time_of id_of : String → ℕ) (time_text id_text : ℕ → String) : Type 0 where
  pub times : (t : ℕ) → time_of (time_text t) ≡ t
  pub ids : (i : ℕ) → id_of (id_text i) ≡ i

module _ {R Item : Type 0} (item : SortedRow R → Item) (time_of id_of : String → ℕ)
    (time_text id_text : ℕ → String) (c : CursorCodec) (clock : ℕ → ℕ) (s : Reading)
    (backward : Bool) where
  -- The statement goes on right after the row of the cursor.
  pub rows_after-IsKeyset :
      (rows : List (SortedRow R))
      → IsCast time_of id_of time_text id_text
      → IsOrdered backward rows
      → IsKeyset item
          (row_position time_text id_text)
          c
          clock
          s
          (rows_after time_of id_of backward rows)
          rows
  unfolding rows_after conversation_cursor
  rows_after-IsKeyset rows cast ordered = record {
    from_start = ap (λ l. ok (take (s.request.limit + 1) l)) (filter_true rows);
    from_row = λ r post there.
        rw (cast.times r.created_at, cast.ids r.id)
          (ap (λ l. ok (take (s.request.limit + 1) l))
            (filter-after backward r post rows ordered there));
  }
    where
      filter_true : (xs : List (SortedRow R)) → filter (λ r. true) xs ≡ xs
      filter_true [] = refl
      filter_true (x ∷ xs) = ap (λ l. x ∷ l) (filter_true xs)

  -- Reading all conversations, or all media, page by page shows every row that the statement may show
  -- exactly once, in its order, forward or backward, whatever the limit of a page.
  pub read_all-ordered :
      (rows : List (SortedRow R)) (fuel : ℕ)
      → IsCast time_of id_of time_text id_text
      → IsOrdered backward rows
      → IsReadable item
          (row_position time_text id_text)
          c
          clock
          s
          (rows_after time_of id_of backward rows)
          rows
      → length rows < fuel
      → read_all item
          (row_position time_text id_text)
          c
          clock
          s
          (rows_after time_of id_of backward rows)
          fuel
          0
          none
        ≡ ok (some (map item rows))
  read_all-ordered rows fuel cast ordered readable enough =
      read_all_complete item (row_position time_text id_text) c clock s
        (rows_after time_of id_of backward rows) rows (rows_after-IsKeyset rows cast ordered)
        readable fuel enough
