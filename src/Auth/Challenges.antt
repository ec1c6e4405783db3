-- ===== src/Auth/Challenges.antt =====
-- A challenge serves once: src/infrastructure/auth/unlocks.ts.
use echohoard.Base.{
  All, Bool, Bool-cases, List, String, [], arith, false, filter, find, inl, inr, map, none, refl, ℕ,
  ◌∷◌, ◌≡◌, ◌≤◌,
}
use echohoard.Auth.Database.{ChallengeRow, Database}
use echohoard.Auth.Unlocks.{consume_challenge, consume_row, find_challenge, is_open}

find-none : {A : Type 0} (p : A → Bool) (xs : List A) → All (λ x. p x ≡ false) xs → find p xs ≡ none
find-none p [] h = refl
find-none p (x ∷ xs) h = rw (h.0) (find-none p xs h.1)

filter-none :
    {A : Type 0} (p : A → Bool) (xs : List A) → All (λ x. p x ≡ false) xs → filter p xs ≡ []
filter-none p [] h = refl
filter-none p (x ∷ xs) h = rw (h.0) (filter-none p xs h.1)

module _ (hash : String → String) (runtime state token : String) where
  consume_row-closed :
      (now later : ℕ) (c : ChallengeRow)
      → now ≤ later
      → is_open hash runtime state token later (consume_row hash runtime state token now c) ≡ false
  consume_row-closed now later c le = elim (Bool-cases (is_open hash runtime state token now c)) [
    | inl open_now ↦ rw open_now (ground arith)
    | inr closed ↦ rw closed (ground arith)
  ]

  consumed-closed :
      (now later : ℕ) (rows : List ChallengeRow)
      → now ≤ later
      → All
          (λ c. is_open hash runtime state token later c ≡ false)
          (map (consume_row hash runtime state token now) rows)
  consumed-closed now later [] le = tt
  consumed-closed now later (c ∷ rows) le =
      (consume_row-closed now later c le, consumed-closed now later rows le)

  -- After a challenge was consumed, by its state and session, it is not found and not consumed again
  -- at any later time, whether or not the first attempt found it.
  pub consume-once :
      (now later : ℕ) (db : Database)
      → now ≤ later
      → let used = (consume_challenge hash runtime state token now db).0 in
        (find_challenge hash runtime state token later used ≡ none)
        × ((consume_challenge hash runtime state token later used).1 ≡ false)
  unfolding find_challenge consume_challenge
  consume-once now later db le =
      let closed = consumed-closed now later db.challenges le in
      (find-none _ _ closed, rw (filter-none _ _ closed) refl)
