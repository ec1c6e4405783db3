-- ===== src/Auth/Relock.antt =====
-- Locking again and signing out end every unlock: src/application/auth.ts,
-- src/infrastructure/auth/unlocks.ts.
use echohoard.Base.{
  All, Bool, List, String, [], any, arith, false, is_empty, map, nat_eq, refl, some, string_eq,
  true, ℕ, ◌&&◌, ◌==◌, ◌∷◌, ◌≡◌,
}
use echohoard.Auth.Database.{Database, GrantRow, is_null}
use echohoard.Auth.Grants.{end_grant, is_in_force, opens, revoke_unlocks, validate_grant}
use echohoard.Auth.Service.{Setting}
use echohoard.Auth.StepUp.{relock}

any-none : {A : Type 0} (p : A → Bool) (xs : List A) → All (λ x. p x ≡ false) xs → any p xs ≡ false
any-none p [] h = refl
any-none p (x ∷ xs) h = rw (h.0) (any-none p xs h.1)

module _ (s : Setting) (token : String) where
  -- No grant of the session is left in force.
  abbrev Ended : List GrantRow → Type 0
  Ended = All (λ (g : GrantRow). (g.session_hash == s.hash token && is_null g.revoked_at) ≡ false)

  end_grant-Ended : (now : ℕ) (rows : List GrantRow) → Ended (map (end_grant s.hash token now) rows)
  end_grant-Ended now [] = tt
  end_grant-Ended now (g ∷ rows) = (ground arith, end_grant-Ended now rows)

  Ended-invalid :
      (grant archive conversation : String) (later : ℕ) (db : Database) (rows : List GrantRow)
      → Ended rows
      → All
          (λ (g : GrantRow).
            (g.token_hash == s.hash grant
              && is_in_force s.hash s.runtime token archive later db g
              && opens s.hash s.runtime conversation db g)
            ≡ false)
          rows
  Ended-invalid grant archive conversation later db [] h = tt
  Ended-invalid grant archive conversation later db (g ∷ rows) h =
      (ground (arith, h.0), Ended-invalid grant archive conversation later db rows h.1)

  -- After a relock no grant is valid for the session any more, for any conversation of any archive
  -- and at any time.
  pub relock-invalid :
      (grant archive conversation : String) (now later : ℕ) (db : Database)
      → is_empty token ≡ false
      → s.has_unlocks ≡ true
      → validate_grant s.hash s.runtime grant token archive conversation later
          (relock s (some token) now db)
        ≡ false
  unfolding validate_grant relock revoke_unlocks
  relock-invalid grant archive conversation now later db named has = rw named (
      rw has (
        any-none _ _ (
          Ended-invalid grant archive conversation later (revoke_unlocks s.hash token now db) _
            (end_grant-Ended now db.grants))))
