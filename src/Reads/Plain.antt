-- ===== src/Reads/Plain.antt =====
-- Kinds, sorts and values of positions are read back as they were written: src/application/reads.ts.
use echohoard.Base.{All, List, [], ap, arith, map, refl, some, true, ◌&&◌, ◌∙◌, ◌∷◌, ◌≡◌}
use echohoard.Numbers.{finite, infinite, nan}
use echohoard.Reads.Requests.{
  ReadKind, ReadSort, conversations, created_at_id, display_name_id, media, messages,
  occurred_at_kind_id, people, search, search_score_id, sent_at_id, timeline,
}
use echohoard.Reads.Cursors.{
  CursorValue, boolean, cons_value, cursor_value, cursor_values, is_cursor_tuple, is_event_kind,
  is_full_text, is_text, kind_of, kind_text, null, number, ranked, scalar, sort_of, sort_text, text,
}

pub kind_back : (k : ReadKind) → kind_of (kind_text k) ≡ some k
kind_back conversations = refl
kind_back people = refl
kind_back messages = refl
kind_back media = refl
kind_back timeline = refl
kind_back search = refl

pub sort_back : (s : ReadSort) → sort_of (sort_text s) ≡ some s
sort_back created_at_id = refl
sort_back sent_at_id = refl
sort_back display_name_id = refl
sort_back occurred_at_kind_id = refl
sort_back search_score_id = refl

-- Each value of a position is one that is read back from an array.
abbrev pub IsPlain : CursorValue → Type 0
IsPlain v = cursor_value (scalar v) ≡ some v

text-IsPlain : (v : CursorValue) → is_text v ≡ true → IsPlain v
text-IsPlain null h = cc
text-IsPlain (boolean b) h = cc
text-IsPlain (number a) h = cc
text-IsPlain (text s) h = refl

ranked-IsPlain : (v w : CursorValue) → ranked v w ≡ true → IsPlain v × IsPlain w
ranked-IsPlain (number nan) (text s) h = cc
ranked-IsPlain (number (infinite b)) (text s) h = cc
ranked-IsPlain (number (finite b n d)) (text s) h = (refl, refl)
ranked-IsPlain (number nan) null h = cc
ranked-IsPlain (number (infinite b)) null h = cc
ranked-IsPlain (number (finite b n d)) null h = (refl, refl)
ranked-IsPlain v w h = cc h

abbrev pub AllPlain : List CursorValue → Type 0
AllPlain = All IsPlain

event-IsPlain : (v : CursorValue) → is_event_kind v ≡ true → IsPlain v
event-IsPlain (text s) h = refl
event-IsPlain v h = cc h

full-IsPlain : (v : CursorValue) → is_full_text v ≡ true → IsPlain v
full-IsPlain (text s) h = refl
full-IsPlain v h = cc h

pair-AllPlain : (a b : CursorValue) → (is_text a && is_text b) ≡ true → AllPlain (a ∷ b ∷ [])
pair-AllPlain a b h = (text-IsPlain a (ground (arith, h)), (text-IsPlain b (ground (arith, h)), tt))

pub tuple-AllPlain :
    (s : ReadSort) (vs : List CursorValue) → is_cursor_tuple s vs ≡ true → AllPlain vs
unfolding is_cursor_tuple
tuple-AllPlain created_at_id (a ∷ b ∷ []) h = pair-AllPlain a b h
tuple-AllPlain sent_at_id (a ∷ b ∷ []) h = pair-AllPlain a b h
tuple-AllPlain display_name_id (a ∷ b ∷ c ∷ []) h =
    let (p, q) = ranked-IsPlain a b (ground (arith, h)) in
    (p, (q, (text-IsPlain c (ground (arith, h)), tt)))
tuple-AllPlain occurred_at_kind_id (a ∷ b ∷ c ∷ []) h = (
  text-IsPlain a (ground (arith, h)),
  (event-IsPlain b (ground (arith, h)), (text-IsPlain c (ground (arith, h)), tt)),
)
tuple-AllPlain search_score_id (a ∷ b ∷ c ∷ d ∷ []) h =
    let (p, q) = ranked-IsPlain b c (ground (arith, h)) in
    (full-IsPlain a (ground (arith, h)), (p, (q, (text-IsPlain d (ground (arith, h)), tt))))
tuple-AllPlain s vs h = cc h

pub values_back : (vs : List CursorValue) → AllPlain vs → cursor_values (map scalar vs) ≡ some vs
unfolding cursor_values
values_back [] h = refl
values_back (v ∷ vs) h =
    ap (λ o. cons_value o (cursor_values (map scalar vs))) h.0
    ∙ ap (cons_value (some v)) (values_back vs h.1)
