-- ===== src/Reads/Authentic.antt =====
-- Which cursors are followed: src/application/reads.ts.
use echohoard.Base.{
  Bool, Bool-cases, List, Option, Option-cases, Result, Result-cases, String, [], ap, arith, eq_iff,
  false, inl, inr, is_some_of, leb, length, nat_eq, none, not, ok, refl, require, same_units, some,
  string_eq, subst, sym, true, ℕ, ◌&&◌, ◌<◌, ◌>>=◌, ◌>>◌, ◌∙◌, ◌∷◌, ◌≡◌, ◌≤◌,
}
use echohoard.Reads.Cursors.{
  CursorCodec, CursorExpectation, CursorPosition, CursorValue, Field, Parsed, body_and_signature,
  field, fields, is_cursor_tuple, null_value, number_field, other, split_dots, text_field,
}
use echohoard.Reads.Codec.{
  decode_cursor, integer_field, is_before, is_expected, is_payload, object_fields, position_from,
  read_position,
}
use echohoard.Reads.Requests.{
  ReadError, ReadKind, ReadSort, cursor_scope, default_to, invalid_cursor, no_units,
}

same_units-eq : (xs ys : List ℕ) → same_units xs ys ≡ true → xs ≡ ys
same_units-eq [] [] h = refl
same_units-eq [] (y ∷ ys) h = cc
same_units-eq (x ∷ xs) [] h = cc
same_units-eq (x ∷ xs) (y ∷ ys) h =
    let rest = same_units-eq xs ys (ground arith) in
    let first = (nat_eq.same_iff x y).0 (ground arith) in rw (first, rest) refl

is_some_of-some : (o : Option String) (a : String) → is_some_of o a ≡ true → o ≡ some a
is_some_of-some none a h = cc
is_some_of-some (some b) a h = ap some ((eq_iff b a).0 h)

-- The time until which the payload is valid.
pub record IsFresh (now : ℕ) (fs : List (String × Field)) : Type 0 where
  pub until : ℕ
  pub at_field : integer_field (number_field (field "expiresAt" fs)) ≡ some (false, until)
  pub later : now < until

is_before-lt : (now : ℕ) (e : Bool × ℕ) → is_before now e ≡ true → (e ≡ (false, e.1)) × (now < e.1)
is_before-lt now (true, n) h = cc
is_before-lt now (false, n) h = (refl, ground arith)

module _ (now : ℕ) (fs : List (String × Field)) (p : CursorPosition) where
  -- Why the payload gives the position.
  pub record IsRead (e : Option (Bool × ℕ)) : Type 0 where
    pub until : ℕ
    pub unexpired : e ≡ some (false, until)
    pub later : now < until
    pub shaped : is_cursor_tuple p.sort p.values ≡ true
    pub resource : p.resource_id ≡ field "resourceId" fs

  is_payload-IsRead :
      (kind : ReadKind) (sort : ReadSort) (vs : List CursorValue) (key : String) (i e : Bool × ℕ)
      → position_from now fs (some kind) (some sort) (some vs) (some key) (some i) (some e) ≡ ok p
      → IsRead (some e)
  unfolding position_from
  is_payload-IsRead kind sort vs key i e h = elim (Bool-cases (is_payload now fs sort vs e)) [
    | inr bad ↦ cc (rw bad at h)
    | inl good ↦
        let (natural, later) = is_before-lt now e (ground (arith, good)) in
        let same : (record {
          read_kind = kind;
          resource_id = field "resourceId" fs;
          sort = sort;
          values = vs;
          filter_key = key;
          direction = default_to "" (text_field (field "direction" fs));
        })
            ≡ p =
          cc (rw good at h) in
        record {
          until = e.1;
          unexpired = ap some natural;
          later = later;
          shaped =
              subst (λ (q : CursorPosition). is_cursor_tuple q.sort q.values ≡ true) same
                (ground (arith, good));
          resource = ap (λ (q : CursorPosition). q.resource_id) (sym same);
        }
  ]

  position_from-IsRead :
      (k : Option ReadKind) (s : Option ReadSort) (v : Option (List CursorValue))
      (key : Option String) (i e : Option (Bool × ℕ))
      → position_from now fs k s v key i e ≡ ok p
      → IsRead e
  unfolding position_from
  position_from-IsRead none s v key i e h = cc h
  position_from-IsRead (some k) none v key i e h = cc h
  position_from-IsRead (some k) (some s) none key i e h = cc h
  position_from-IsRead (some k) (some s) (some v) none i e h = cc h
  position_from-IsRead (some k) (some s) (some v) (some key) none e h = cc h
  position_from-IsRead (some k) (some s) (some v) (some key) (some i) none h = cc h
  position_from-IsRead (some k) (some s) (some v) (some key) (some i) (some e) h =
      is_payload-IsRead k s v key i e h

module _ (c : CursorCodec) (now : ℕ) (cursor : List ℕ) (archive : String)
    (expected : Option CursorExpectation) (p : CursorPosition) where
  -- Why a cursor is followed.
  pub record IsAuthentic : Type 0 where
    pub body : List ℕ
    pub payload : List (String × Field)
    pub short : length cursor ≤ 2048
    pub signed : body_and_signature (split_dots cursor) ≡ some (body, c.hmac body)
    pub unpacked : c.unpack body ≡ some (fields payload)
    pub archived : text_field (field "archiveId" payload) ≡ some archive
    pub fresh : IsRead now payload p (integer_field (number_field (field "expiresAt" payload)))
    pub wanted : is_expected expected p ≡ true

  -- What is left of `decode` once the payload is there.
  abbrev from_fields : List (String × Field) → Result ReadError CursorPosition
  from_fields fs = do
    position ← read_position now fs
    require (is_some_of (text_field (field "archiveId" fs)) archive) cursor_scope
    require (is_expected expected position) invalid_cursor
    ok position

  from_fields-parts :
      (fs : List (String × Field))
      → from_fields fs ≡ ok p
      → (text_field (field "archiveId" fs) ≡ some archive)
        × IsRead now fs p (integer_field (number_field (field "expiresAt" fs)))
        × (is_expected expected p ≡ true)
  unfolding read_position
  from_fields-parts fs h = elim (Result-cases (read_position now fs)) [
    | inr (e, bad) ↦ cc (rw bad at h)
    | inl (q, read) ↦ elim (Bool-cases (is_some_of (text_field (field "archiveId" fs)) archive)) [
      | inr elsewhere ↦ cc (rw (read, elsewhere) at h)
      | inl here ↦ elim (Bool-cases (is_expected expected q)) [
        | inr unwanted ↦ cc (rw (read, here, unwanted) at h)
        | inl wanted ↦
            let same : q ≡ p = cc (rw (read, here, wanted) at h) in
            (
              is_some_of-some _ archive here,
              position_from-IsRead now fs p _ _ _ _ _ _ (read ∙ ap ok same),
              subst (λ x. is_expected expected x ≡ true) same wanted,
            )
      ]
    ]
  ]

  parsed-parts :
      (parsed : Parsed)
      → (object_fields parsed >>= from_fields) ≡ ok p
      → (fs : List (String × Field)) × (parsed ≡ fields fs) × (from_fields fs ≡ ok p)
  unfolding read_position position_from
  parsed-parts (fields fs) h = (fs, refl, h)
  parsed-parts null_value h = cc h
  parsed-parts other h = cc h

  -- A cursor is followed only if the codec's own signature stands behind its body, the body names
  -- this archive, is not over yet and fits its sort, and where the reader expects a kind, a
  -- direction, a resource and a filter, the position is for those.
  pub decode_cursor-IsAuthentic : decode_cursor c now cursor archive expected ≡ ok p → IsAuthentic
  unfolding decode_cursor
  decode_cursor-IsAuthentic h =
      elim (Bool-cases (not (no_units cursor) && leb (length cursor) 2048)) [
        | inr bad ↦ cc (rw bad at h)
        | inl short ↦ elim (Option-cases (body_and_signature (split_dots cursor))) [
          | inl none_there ↦ cc (rw (short, none_there) at h)
          | inr (parts, split) ↦ elim (Bool-cases (same_units parts.1 (c.hmac parts.0))) [
            | inr forged ↦ cc (rw (short, split, forged) at h)
            | inl signed ↦ elim (Option-cases (c.unpack parts.0)) [
              | inl garbled ↦ cc (rw (short, split, signed, garbled) at h)
              | inr (parsed, unpacked) ↦
                  let (fs, is_object, rest) =
                    parsed-parts parsed (rw (short, split, signed, unpacked) at h) in
                  let (archived, fresh, wanted) = from_fields-parts fs rest in
                  record {
                    body = parts.0;
                    payload = fs;
                    short = ground (arith, short);
                    signed =
                        split ∙ ap (λ (s : List ℕ). some (parts.0, s)) (same_units-eq _ _ signed);
                    unpacked = unpacked ∙ ap some is_object;
                    archived = archived;
                    fresh = fresh;
                    wanted = wanted;
                  }
            ]
          ]
        ]
      ]
