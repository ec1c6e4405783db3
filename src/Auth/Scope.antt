-- ===== src/Auth/Scope.antt =====
-- What a grant opens, and what signing out closes: src/application/auth.ts,
-- src/infrastructure/auth/unlocks.ts.
use echohoard.Base.{
  All, Any, Bool, Bool-cases, List, Option, String, [], any, arith, eq_iff, false, inl, inr,
  is_empty, nat_eq, none, refl, some, string_eq, true, ℕ, ◌&&◌, ◌<◌, ◌==◌, ◌∷◌, ◌≡◌, ◌⊎◌,
}
use echohoard.Auth.Database.{Database, GrantRow, Principal, is_null}
use echohoard.Auth.Sessions.{get_session}
use echohoard.Auth.Sessions.Lifetime.{Avoids, SessionStep, revoke-final, session_run}
use echohoard.Auth.Unlocks.{conversation_locked}
use echohoard.Auth.Grants.{is_in_force, opens, session_active, validate_grant}
use echohoard.Auth.Service.{Setting, in_archive, validate}
use echohoard.Auth.StepUp.{granted, logout, relock, validate_unlock, with_grant}

any-Any : {A : Type 0} (p : A → Bool) (xs : List A) → any p xs ≡ true → Any (λ x. p x ≡ true) xs
any-Any p [] h = cc
any-Any p (x ∷ xs) h = elim (Bool-cases (p x)) [
  | inl holds ↦ inl holds
  | inr fails ↦ inr (any-Any p xs (rw fails at h))
]

in_archive-same :
    (a : String) (o : Option Principal) (p : Principal)
    → is_empty a ≡ false
    → in_archive (some a) o ≡ some p
    → (o ≡ some p) × (p.archive_id ≡ a)
in_archive-same a none p named h = cc
in_archive-same a (some q) p named h = ground (arith, eq_iff q.archive_id a)

module _ (s : Setting) (token grant archive conversation : String) (now : ℕ) (db : Database) where
  -- The grant is the one that the browser shows: of this process, session and archive, neither
  -- revoked nor expired, of a session that is still active, and for the whole archive or for this
  -- conversation while it is locked.
  pub record IsOpener (g : GrantRow) : Type 0 where
    pub same_token : g.token_hash ≡ s.hash grant
    pub same_runtime : g.runtime_id ≡ s.runtime
    pub same_session : g.session_hash ≡ s.hash token
    pub same_archive : g.archive_id ≡ archive
    pub unrevoked : g.revoked_at ≡ none
    pub unexpired : now < g.expires_at
    pub session_live : session_active g.auth_session_id db now ≡ true
    pub for_it :
        (g.archive_wide ≡ true)
        ⊎ ((g.conversation_id ≡ conversation)
            × (conversation_locked g.archive_id g.conversation_id db ≡ true))

  -- Why an unlock is accepted.
  pub record IsAccepted (p : Principal) : Type 0 where
    pub signed_in : get_session s.hash (some token) now db ≡ some p
    pub in_its_archive : p.archive_id ≡ archive
    pub opener : Any IsOpener db.grants

  is_null-none : (o : Option ℕ) → is_null o ≡ true → o ≡ none
  is_null-none none h = refl
  is_null-none (some t) h = cc

  row-IsOpener :
      (g : GrantRow)
      → (g.token_hash == s.hash grant
          && is_in_force s.hash s.runtime token archive now db g
          && opens s.hash s.runtime conversation db g)
        ≡ true
      → IsOpener g
  row-IsOpener g h = record {
    same_token = ground (arith, eq_iff g.token_hash (s.hash grant));
    same_runtime = ground (arith, eq_iff g.runtime_id s.runtime);
    same_session = ground (arith, eq_iff g.session_hash (s.hash token));
    same_archive = ground (arith, eq_iff g.archive_id archive);
    unrevoked = ground (arith, is_null-none g.revoked_at);
    unexpired = ground arith;
    session_live = ground arith;
    for_it = elim (Bool-cases g.archive_wide) [
      | inl wide ↦ inl wide
      | inr single ↦ inr (ground (arith, eq_iff g.conversation_id conversation), ground arith)
    ];
  }

  openers :
      (rows : List GrantRow)
      → Any
          (λ (g : GrantRow).
            (g.token_hash == s.hash grant
              && is_in_force s.hash s.runtime token archive now db g
              && opens s.hash s.runtime conversation db g)
            ≡ true)
          rows
      → Any IsOpener rows
  openers [] h = elim h [ ]
  openers (g ∷ rows) (inl h) = inl (row-IsOpener g h)
  openers (g ∷ rows) (inr h) = inr (openers rows h)

  with_grant-some :
      (o : Option Principal) (p : Principal)
      → with_grant s token (some grant) archive conversation now db o ≡ some p
      → (o ≡ some p)
        × (validate_grant s.hash s.runtime grant token archive conversation now db ≡ true)
  unfolding with_grant
  with_grant-some none p h = cc
  with_grant-some (some q) p h = ground arith

  -- An unlock is accepted only for the person whose active session the token names, in that person's
  -- own archive, and only by a grant that stands in the table, belongs to this process, session and
  -- archive, has neither been revoked nor expired, and is for the whole archive or for just this
  -- conversation while it is locked.
  pub validate_unlock-IsAccepted :
      (p : Principal)
      → is_empty archive ≡ false
      → validate_unlock s (some token) (some grant) archive conversation now db ≡ some p
      → IsAccepted p
  unfolding validate_unlock validate validate_grant
  validate_unlock-IsAccepted p named h =
      let (valid, granted) = with_grant-some _ p h in
      let (signed, same) = in_archive-same archive _ p named valid in
      record { signed_in = signed; in_its_archive = same; opener = openers _ (any-Any _ _ granted) }

-- After signing out the session is refused for every archive, and no grant opens anything with it,
-- whatever sessions are created with other digests, revoked or cleaned up afterwards.
pub logout-final :
    (s : Setting) (token : String) (now later : ℕ) (steps : List (ℕ × SessionStep)) (db : Database)
    → is_empty token ≡ false
    → All (λ (t : ℕ × SessionStep). Avoids s.hash token t.1) steps
    → (archive : Option String) (grant : Option String) (place conversation : String)
    → let out = session_run s.hash steps (logout s (some token) now db) in
      (validate s (some token) archive later out ≡ none)
      × (validate_unlock s (some token) grant place conversation later out ≡ none)
unfolding logout validate validate_unlock with_grant
logout-final s token now later steps db named a archive grant place conversation =
    let gone = revoke-final s.hash token now later steps (relock s (some token) now db) named a in
    (rw gone refl, rw gone refl)
