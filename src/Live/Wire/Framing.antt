-- ===== src/Live/Wire/Framing.antt =====
-- What a signature leaves open: src/application/live-event-intake.ts, `signLiveEvent`.
use echohoard.Base.{List, String, [], ap, codes, refl, sym, ℕ, ◌++◌, ◌∙◌, ◌∷◌, ◌≡◌}
use echohoard.Live.Wire.{decimal, encode, signed_bytes, utf8, utf8_bytes}

append_assoc : {A : Type 0} (xs ys zs : List A) → ((xs ++ ys) ++ zs) ≡ (xs ++ (ys ++ zs))
append_assoc [] ys zs = refl
append_assoc (x ∷ xs) ys zs = ap (λ r. x ∷ r) (append_assoc xs ys zs)

encode-append : (xs ys : List ℕ) → encode (xs ++ ys) ≡ (encode xs ++ encode ys)
unfolding encode
encode-append [] ys = refl
encode-append (c ∷ cs) ys =
    rw (encode-append cs ys) (sym (append_assoc (utf8_bytes c) (encode cs) (encode ys)))

-- The signed bytes do not tell the account key from the body: where an account key goes on after
-- another one with a dot and more text, a signature made for it is also one for the shorter key, of
-- the body with that text and a dot in front.
pub signed_bytes-ambiguous :
    (body : List ℕ) (timestamp : ℕ) (short long more : String)
    → codes long ≡ (codes short ++ (46 ∷ codes more))
    → signed_bytes body timestamp long ≡ signed_bytes (utf8 more ++ (46 ∷ body)) timestamp short
unfolding signed_bytes utf8 encode
signed_bytes-ambiguous body timestamp short long more h =
    ap (λ (x : List ℕ). decimal 12 timestamp ++ (46 ∷ (x ++ (46 ∷ body))))
      (ap encode h ∙ encode-append (codes short) (46 ∷ codes more))
    ∙ ap (λ (x : List ℕ). decimal 12 timestamp ++ (46 ∷ x))
        (append_assoc (encode (codes short)) (46 ∷ encode (codes more)) (46 ∷ body))
