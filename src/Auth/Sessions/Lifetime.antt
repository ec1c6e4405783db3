-- ===== src/Auth/Sessions/Lifetime.antt =====
-- How long a session lasts: src/infrastructure/auth/sessions.ts.
use echohoard.Base.{
  All, Bool, Bool-cases, List, Option, Option-cases, String, [], arith, eq_iff, false, filter, find,
  if◌then◌else◌, inl, inr, is_empty, ltb, map, nat_eq, none, some, string_eq, subst, sym, true, ℕ,
  ◌*◌, ◌+◌, ◌==◌, ◌∙◌, ◌∷◌, ◌≡◌, ◌≢◌,
}
use echohoard.Auth.Database.{Database, Principal, SessionRow, delete_oldest, is_null}
use echohoard.Auth.Sessions.{
  cleanup_sessions, create_session, get_session, revoke_row, revoke_session, session_of,
}

-- What may happen to the table of sessions.
pub data SessionStep : Type 0 where
  creates : ℕ → Principal → ℕ → String → SessionStep
  revokes : Option String → SessionStep
  cleans : ℕ → SessionStep

some-eq : {q r : SessionRow} → some q ≡ some r → q ≡ r
some-eq e = cc

module _ (hash : String → String) where
  unfoldable pub session_step : ℕ → SessionStep → Database → Database
  session_step now (creates ttl p id token) db = create_session hash ttl p id token now db
  session_step now (revokes token) db = revoke_session hash token now db
  session_step now (cleans limit) db = (cleanup_sessions limit now db).0

  unfoldable pub session_run : List (ℕ × SessionStep) → Database → Database
  session_run [] db = db
  session_run ((now, step) ∷ later) db = session_run later (session_step now step db)

  -- A session that was just created is found by its token until its time is over, and not from then
  -- on, whatever other sessions there are.
  pub get-create :
      (ttl id now later : ℕ) (p : Principal) (token : String) (db : Database)
      → is_empty token ≡ false
      → get_session hash (some token) later (create_session hash ttl p id token now db)
        ≡ (if ltb later (now + ttl * 1000) then some p else none)
  unfolding get_session create_session
  get-create ttl id now later p token db named = ground (arith, eq_iff (hash token) (hash token))

  -- Every session with the token's digest is revoked.
  abbrev pub IsRevoked : String → List SessionRow → Type 0
  IsRevoked token =
      All (λ (r : SessionRow). r.token_hash ≡ hash token → is_null r.revoked_at ≡ false)

  revoke-IsRevoked :
      (token : String) (now : ℕ) (rows : List SessionRow)
      → IsRevoked token (map (revoke_row hash token now) rows)
  revoke-IsRevoked token now [] = tt
  revoke-IsRevoked token now (r ∷ rows) =
      (ground (arith, eq_iff r.token_hash (hash token)), revoke-IsRevoked token now rows)

  revoke_row-keeps :
      (other : String) (now : ℕ) (r : SessionRow)
      → ((revoke_row hash other now r).token_hash ≡ r.token_hash)
        × (is_null r.revoked_at ≡ false → is_null (revoke_row hash other now r).revoked_at ≡ false)
  revoke_row-keeps other now r = (ground arith, λ h. ground arith)

  map-IsRevoked :
      (token other : String) (now : ℕ) (rows : List SessionRow)
      → IsRevoked token rows
      → IsRevoked token (map (revoke_row hash other now) rows)
  map-IsRevoked token other now [] h = tt
  map-IsRevoked token other now (r ∷ rows) h =
      let k = revoke_row-keeps other now r in
      ((λ e. k.1 (h.0 (sym k.0 ∙ e))), map-IsRevoked token other now rows h.1)

  filter-IsRevoked :
      (token : String) (p : SessionRow → Bool) (rows : List SessionRow)
      → IsRevoked token rows
      → IsRevoked token (filter p rows)
  filter-IsRevoked token p [] h = tt
  filter-IsRevoked token p (r ∷ rows) h = elim (Bool-cases (p r)) [
    | inl stays ↦ rw stays (h.0, filter-IsRevoked token p rows h.1)
    | inr goes ↦ rw goes (filter-IsRevoked token p rows h.1)
  ]

  found-IsRevoked :
      (token : String) (rows : List SessionRow) (r : SessionRow)
      → IsRevoked token rows
      → find (λ q. q.token_hash == hash token) rows ≡ some r
      → is_null r.revoked_at ≡ false
  found-IsRevoked token [] r h e = cc
  found-IsRevoked token (q ∷ rows) r h e = elim (Bool-cases (q.token_hash == hash token)) [
    | inl hit ↦
        subst (λ (x : SessionRow). is_null x.revoked_at ≡ false) (some-eq (rw hit at e))
          (h.0 ((eq_iff _ _).0 hit))
    | inr miss ↦ found-IsRevoked token rows r h.1 (rw miss at e)
  ]

  pub get-IsRevoked :
      (token : String) (now : ℕ) (db : Database)
      → IsRevoked token db.sessions
      → get_session hash (some token) now db ≡ none
  unfolding get_session
  get-IsRevoked token now db h = elim (Option-cases (session_of hash token db)) [
    | inl missing ↦ rw (missing, get_session) (ground arith)
    | inr (r, e) ↦ let dead = found-IsRevoked token db.sessions r h e in ground (arith, dead, e)
  ]

  -- A session step creates no session with the token's digest.
  abbrev pub Avoids : String → SessionStep → Type 0
  Avoids token (creates ttl p id other) = hash other ≢ hash token
  Avoids token (revokes other) = Unit
  Avoids token (cleans limit) = Unit

  step-IsRevoked :
      (token : String) (now : ℕ) (step : SessionStep) (db : Database)
      → Avoids token step
      → IsRevoked token db.sessions
      → IsRevoked token (session_step now step db).sessions
  unfolding session_step create_session revoke_session cleanup_sessions delete_oldest
  step-IsRevoked token now (creates ttl p id other) db a h = ((λ e. absurd (a e)), h)
  step-IsRevoked token now (revokes none) db a h = h
  step-IsRevoked token now (revokes (some other)) db a h =
      revoked-IsRevoked (is_empty other) _ _ (map-IsRevoked token other now db.sessions h) h
    where
      revoked-IsRevoked :
          (b : Bool) (x y : Database)
          → IsRevoked token y.sessions
          → IsRevoked token x.sessions
          → IsRevoked token (let z : Database = if b then x else y in z.sessions)
      revoked-IsRevoked true x y p q = q
      revoked-IsRevoked false x y p q = p
  step-IsRevoked token now (cleans limit) db a h = filter-IsRevoked token _ db.sessions h

  run-IsRevoked :
      (token : String) (steps : List (ℕ × SessionStep)) (db : Database)
      → All (λ (t : ℕ × SessionStep). Avoids token t.1) steps
      → IsRevoked token db.sessions
      → IsRevoked token (session_run steps db).sessions
  unfolding session_run
  run-IsRevoked token [] db a h = h
  run-IsRevoked token ((now, step) ∷ later) db a h =
      run-IsRevoked token later (session_step now step db) a.1
        (step-IsRevoked token now step db a.0 h)

  revoke_session-IsRevoked :
      (token : String) (now : ℕ) (db : Database)
      → is_empty token ≡ false
      → IsRevoked token (revoke_session hash (some token) now db).sessions
  unfolding revoke_session
  revoke_session-IsRevoked token now db named = rw named (revoke-IsRevoked token now db.sessions)

  -- A revoked session stays revoked: whatever sessions are created with other digests, revoked or
  -- cleaned up afterwards, its token is refused at any time.
  pub revoke-final :
      (token : String) (now later : ℕ) (steps : List (ℕ × SessionStep)) (db : Database)
      → is_empty token ≡ false
      → All (λ (t : ℕ × SessionStep). Avoids token t.1) steps
      → get_session hash
          (some token)
          later
          (session_run steps (revoke_session hash (some token) now db))
        ≡ none
  revoke-final token now later steps db named a =
      get-IsRevoked token later _
        (run-IsRevoked token steps _ a (revoke_session-IsRevoked token now db named))
