-- ===== src/Reads/RoundTrip.antt =====
-- A cursor that is decoded again: src/application/reads.ts.
use echohoard.Base.{
  All, Bool, Bool-cases, List, Option, String, [], ap, arith, false, inl, inr, is_empty, is_some_of,
  leb, length, nat_eq, none, ok, refl, same_units, some, string_eq, sym, true, truthy, ℕ, ◌++◌, ◌+◌,
  ◌<◌, ◌==◌, ◌^◌, ◌∙◌, ◌∷◌, ◌≡◌, ◌≤◌,
}
use echohoard.Reads.Requests.{ReadKind, ReadSort, no_units}
use echohoard.Reads.Cursors.{
  CursorCodec, CursorExpectation, CursorPosition, CursorValue, Field, body_and_signature, field,
  fields, is_cursor_tuple, kind_text, scalar, split_dots, text, text_field, value,
}
use echohoard.Reads.Plain.{kind_back, sort_back, tuple-AllPlain, values_back}
use echohoard.Reads.Codec.{
  CursorInput, decode_cursor, encode_cursor, integer_field, is_direction, is_encodable, is_expected,
  is_payload, is_resource, payload_fields, position_from, read_position, resource_field,
  signed_cursor, whole,
}

abbrev HasNoDot : List ℕ → Type 0
HasNoDot = All (λ u. (u == 46) ≡ false)

-- What base64url and JSON do for the cursors: both texts are in the alphabet of base64url, which has
-- no dot, and neither is empty.
pub record IsFaithful (c : CursorCodec) : Type 0 where
  pub pack_plain : (fs : List (String × Field)) → HasNoDot (c.pack fs)
  pub pack_full : (fs : List (String × Field)) → no_units (c.pack fs) ≡ false
  pub hmac_plain : (body : List ℕ) → HasNoDot (c.hmac body)
  pub hmac_full : (body : List ℕ) → no_units (c.hmac body) ≡ false

-- The payload of the position is read back as it was written.
abbrev pub IsReadBack : CursorCodec → ℕ → CursorInput → Type 0
IsReadBack c now i =
    c.unpack (c.pack (payload_fields c.ttl_milliseconds now i))
    ≡ some (fields (payload_fields c.ttl_milliseconds now i))

split_plain : (xs : List ℕ) → HasNoDot xs → split_dots xs ≡ (xs ∷ [])
unfolding split_dots
split_plain [] h = refl
split_plain (x ∷ xs) h = rw (h.0, split_plain xs h.1) refl

split_signed :
    (xs ys : List ℕ) → HasNoDot xs → HasNoDot ys → split_dots (xs ++ (46 ∷ ys)) ≡ (xs ∷ ys ∷ [])
unfolding split_dots
split_signed [] ys h k = rw (split_plain ys k) refl
split_signed (x ∷ xs) ys h k = rw (h.0, split_signed xs ys h.1 k) refl

same_units_refl : (xs : List ℕ) → same_units xs xs ≡ true
same_units_refl [] = refl
same_units_refl (x ∷ xs) = rw ((nat_eq.same_iff x x).1 refl) (same_units_refl xs)

append_full : (xs ys : List ℕ) → no_units xs ≡ false → no_units (xs ++ ys) ≡ false
append_full [] ys h = cc
append_full (x ∷ xs) ys h = refl

-- The position that a cursor stands for.
abbrev pub position_of : CursorInput → CursorPosition
position_of i = record {
  read_kind = i.read_kind;
  resource_id = field "resourceId" (resource_field i.resource_id);
  sort = i.sort;
  values = i.values;
  filter_key = i.filter_key;
  direction = i.direction;
}

-- The expectation that fits an input.
abbrev pub expectation_of : CursorInput → CursorExpectation
expectation_of i = record {
  read_kind = i.read_kind;
  direction = i.direction;
  resource_id = i.resource_id;
  filter_key = i.filter_key;
}

module _ (c : CursorCodec) (faithful : IsFaithful c) (now later : ℕ) (i : CursorInput)
    (back : IsReadBack c now i) (encodable : is_encodable i ≡ true)
    (in_time : later < now + c.ttl_milliseconds) (safe : now + c.ttl_milliseconds < 2 ^ 53) where
  abbrev written : List (String × Field)
  written = payload_fields c.ttl_milliseconds now i

  parts_agree :
      (fs : List (String × Field)) (k k' : Option ReadKind) (s s' : Option ReadSort)
      (v v' : Option (List CursorValue)) (key key' : Option String) (n n' e e' : Option (Bool × ℕ))
      → k ≡ k'
      → s ≡ s'
      → v ≡ v'
      → key ≡ key'
      → n ≡ n'
      → e ≡ e'
      → position_from later fs k s v key n e ≡ position_from later fs k' s' v' key' n' e'
  parts_agree fs k k' s s' v v' key key' n n' e e' h1 h2 h3 h4 h5 h6 = cc (h1, h2, h3, h4, h5, h6)

  encodable_parts :
      (is_cursor_tuple i.sort i.values ≡ true)
      × (is_empty i.filter_key ≡ false)
      × (is_direction i.direction ≡ true)
  unfolding is_encodable
  encodable_parts =
      (ground (arith, encodable), ground (arith, encodable), ground (arith, encodable))

  integer_back : (n : ℕ) → n < 2 ^ 53 → integer_field (some (whole n)) ≡ some (false, n)
  integer_back n h = ground arith

  key_back :
      (r : Option String)
      → truthy (
          text_field (
            field "filterKey"
              (resource_field r ++ (("filterKey", value (scalar (text i.filter_key))) ∷ []))))
        ≡ some i.filter_key
  key_back none = rw (encodable_parts.1) refl
  key_back (some r) = rw (encodable_parts.1) refl

  resource_back :
      (r : Option String)
      → field "resourceId"
          (resource_field r ++ (("filterKey", value (scalar (text i.filter_key))) ∷ []))
        ≡ field "resourceId" (resource_field r)
  resource_back none = refl
  resource_back (some r) = refl

  checks_back : is_payload later written i.sort i.values (false, now + c.ttl_milliseconds) ≡ true
  unfolding payload_fields
  checks_back = rw (encodable_parts.2, encodable_parts.0) (ground (arith, in_time))

  position_good :
      position_from later written
        (some i.read_kind)
        (some i.sort)
        (some i.values)
        (some i.filter_key)
        (some (false, now))
        (some (false, now + c.ttl_milliseconds))
      ≡ ok (position_of i)
  unfolding position_from payload_fields
  position_good =
      rw checks_back
        (ap (λ r. ok (record (position_of i) { resource_id = r })) (resource_back i.resource_id))

  read_position_back : read_position later written ≡ ok (position_of i)
  unfolding read_position payload_fields
  read_position_back =
      parts_agree written _ _ _ _ _ _ _ _ _ _ _ _ (kind_back i.read_kind) (sort_back i.sort)
        (values_back i.values (tuple-AllPlain i.sort i.values encodable_parts.0))
        (key_back i.resource_id) (integer_back now (omega arith)) (integer_back _ safe)
      ∙ position_good

  same_text : (s : String) → (s == s) ≡ true
  same_text s = (string_eq.same_iff s s).1 refl

  resource_fits : (r : Option String) → is_resource (field "resourceId" (resource_field r)) r ≡ true
  resource_fits none = refl
  resource_fits (some r) = same_text r

  expectation_fits : is_expected (some (expectation_of i)) (position_of i) ≡ true
  expectation_fits =
      rw
        (
          same_text (kind_text i.read_kind),
          same_text i.direction,
          resource_fits i.resource_id,
          same_text i.filter_key,
        )
        refl

  archive_back : is_some_of (text_field (field "archiveId" written)) i.archive_id ≡ true
  unfolding payload_fields
  archive_back = same_text i.archive_id

  parts_back :
      (body : List ℕ)
      → HasNoDot body
      → no_units body ≡ false
      → body_and_signature (split_dots (signed_cursor c body)) ≡ some (body, c.hmac body)
  parts_back body plain full =
      rw (split_signed body (c.hmac body) plain (faithful.hmac_plain body))
        (rw (full, faithful.hmac_full body) refl)

  decode_signed :
      length (signed_cursor c (c.pack written)) ≤ 2048
      → decode_cursor c later
          (signed_cursor c (c.pack written))
          i.archive_id
          (some (expectation_of i))
        ≡ ok (position_of i)
  unfolding decode_cursor
  decode_signed short =
      let full =
        append_full (c.pack written) (46 ∷ c.hmac (c.pack written)) (faithful.pack_full written) in
      let fits : leb (length (signed_cursor c (c.pack written))) 2048 ≡ true =
        ground (arith, short) in
      rw (full, fits, parts_back _ (faithful.pack_plain written) (faithful.pack_full written))
        (rw (same_units_refl (c.hmac (c.pack written)), back)
          (rw (read_position_back, archive_back, expectation_fits) refl))

-- A cursor that `encode` gives is decoded, before its time is over, to the very position that it was
-- made for, by the same archive, kind, direction, resource and filter; given what JSON and base64url
-- do, and times that are safe integers.
pub decode-encode_cursor :
    (c : CursorCodec) (now later : ℕ) (i : CursorInput) (cursor : List ℕ)
    → IsFaithful c
    → IsReadBack c now i
    → later < now + c.ttl_milliseconds
    → now + c.ttl_milliseconds < 2 ^ 53
    → encode_cursor c now i ≡ ok cursor
    → decode_cursor c later cursor i.archive_id (some (expectation_of i)) ≡ ok (position_of i)
unfolding encode_cursor
decode-encode_cursor c now later i cursor faithful back in_time safe h =
    elim (Bool-cases (is_encodable i)) [
      | inr bad ↦ cc (rw bad at h)
      | inl encodable ↦
          let body = c.pack (payload_fields c.ttl_milliseconds now i) in
          elim (Bool-cases (leb (length (signed_cursor c body)) 2048)) [
            | inr long ↦ cc (rw (encodable, long) at h)
            | inl short ↦
                let same : signed_cursor c body ≡ cursor = cc (rw (encodable, short) at h) in
                ap (λ x. decode_cursor c later x i.archive_id (some (expectation_of i))) (sym same)
                ∙ decode_signed c faithful now later i back encodable in_time safe
                    (ground (arith, short))
          ]
    ]
