-- ===== src/Auth/StepUp.antt =====
-- src/application/auth.ts, `OidcAuth`: completing a step-up, and what it opens.
use echohoard.Base.{
  Bool, List, Option, Result, String, [], err, if◌then◌else◌, is_empty, is_some_of, nat_eq, none,
  not, ok, some, string_eq, ℕ, ◌&&◌, ◌==◌, ◌||◌,
}
use echohoard.Auth.Database.{ChallengeRow, Database, Principal}
use echohoard.Auth.Sessions.{revoke_session}
use echohoard.Auth.Unlocks.{
  UnlockError, consume_challenge, create_grant, create_grants_for_archive, find_challenge,
}
use echohoard.Auth.Grants.{list_granted_conversation_ids, revoke_unlocks, validate_grant}
use echohoard.Auth.Service.{
  Fresh, OidcClaims, Setting, is_expired, is_recent_authentication, validate,
}

pub record Unlocked : Type 0 where
  pub grant : String
  pub conversation_id : String
  pub archive_wide : Bool

module _ (s : Setting) where
  -- The claims of a step-up are those of the signed-in person, who signed in just now.
  abbrev pub is_step_up : Principal → String → OidcClaims → ℕ → Bool
  is_step_up p nonce claims now =
      is_some_of claims.iss p.issuer
      && is_some_of claims.sub p.subject
      && is_some_of claims.nonce nonce
      && is_recent_authentication claims.auth_time s.recent_auth_seconds now
      && not (is_expired now claims.exp)

  unfoldable pub grant_for :
      String → ChallengeRow → Fresh → ℕ → Database → Result UnlockError (Database × String)
  grant_for token c fresh now db =
      if c.archive_wide
      then create_grants_for_archive s.hash s.runtime s.before s.grant_ttl token c.archive_id
          fresh.token fresh.id now db
      else create_grant s.hash s.runtime s.grant_ttl token c.archive_id c.conversation_id
          fresh.token fresh.id now db

  -- What follows the use of the challenge.
  unfoldable pub granted :
      ChallengeRow
      → Database
      → Result UnlockError (Database × String)
      → Database × Result UnlockError (Option Unlocked)
  granted c used (err e) = (used, err e)
  granted c used (ok (db', grant)) = (
    db',
    ok (
        some (record {
          grant = grant;
          conversation_id = c.conversation_id;
          archive_wide = c.archive_wide;
        })),
  )

  -- What follows the claims of a step-up.
  unfoldable pub redeem :
      Principal
      → ChallengeRow
      → String
      → String
      → String
      → Fresh
      → ℕ
      → Database
      → Option OidcClaims
      → Database × Result UnlockError (Option Unlocked)
  redeem p c state nonce token fresh now db none = (db, ok none)
  redeem p c state nonce token fresh now db (some claims) =
      let (used, taken) = consume_challenge s.hash s.runtime state token now db in
      if is_step_up p nonce claims now
      then if taken then granted c used (grant_for token c fresh now used) else (used, ok none)
      else (db, ok none)

  unfoldable pub with_challenge :
      Principal
      → String
      → String
      → String
      → String
      → String
      → Fresh
      → ℕ
      → Database
      → Option ChallengeRow
      → Database × Result UnlockError (Option Unlocked)
  with_challenge p token state code nonce verifier fresh now db none = (db, ok none)
  with_challenge p token state code nonce verifier fresh now db (some c) =
      if c.archive_id == p.archive_id
      then redeem p c state nonce token fresh now db (s.exchange code (some nonce) (some verifier))
      else (db, ok none)

  unfoldable pub with_principal :
      String
      → String
      → String
      → String
      → String
      → Fresh
      → ℕ
      → Database
      → Option Principal
      → Database × Result UnlockError (Option Unlocked)
  with_principal token state code nonce verifier fresh now db none = (db, ok none)
  with_principal token state code nonce verifier fresh now db (some p) =
      with_challenge p token state code nonce verifier fresh now db
        (find_challenge s.hash s.runtime state token now db)

  -- `completeUnlockWithTarget`
  unfoldable pub complete_unlock :
      Option String
      → String
      → String
      → String
      → String
      → Fresh
      → ℕ
      → Database
      → Database × Result UnlockError (Option Unlocked)
  complete_unlock none state code nonce verifier fresh now db = (db, ok none)
  complete_unlock (some token) state code nonce verifier fresh now db =
      if is_empty token || not s.has_unlocks
      then (db, ok none)
      else with_principal token state code nonce verifier fresh now db
          (validate s (some token) none now db)

  unfoldable pub granted_conversation_ids : Option String → String → ℕ → Database → List String
  granted_conversation_ids none archive now db = []
  granted_conversation_ids (some token) archive now db =
      if is_empty token || not s.has_unlocks
      then []
      else list_granted_conversation_ids s.hash s.runtime token archive now db

  unfoldable pub relock : Option String → ℕ → Database → Database
  relock none now db = db
  relock (some token) now db =
      if is_empty token || not s.has_unlocks then db else revoke_unlocks s.hash token now db

  -- What follows the validation of the session in `validateUnlock`.
  unfoldable pub with_grant :
      String → Option String → String → String → ℕ → Database → Option Principal → Option Principal
  with_grant token grant archive conversation now db none = none
  with_grant token none archive conversation now db (some p) = none
  with_grant token (some g) archive conversation now db (some p) =
      if is_empty g || not s.has_unlocks
      then none
      else if validate_grant s.hash s.runtime g token archive conversation now db
      then some p
      else none

  unfoldable pub validate_unlock :
      Option String → Option String → String → String → ℕ → Database → Option Principal
  validate_unlock none grant archive conversation now db = none
  validate_unlock (some token) grant archive conversation now db =
      with_grant token grant archive conversation now db
        (validate s (some token) (some archive) now db)

  unfoldable pub logout : Option String → ℕ → Database → Database
  unfolding relock
  logout session now db = revoke_session s.hash session now (relock session now db)
