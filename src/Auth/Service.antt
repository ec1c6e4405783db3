-- ===== src/Auth/Service.antt =====
-- src/application/auth.ts, `OidcAuth` over the stores of src/infrastructure/auth. The identity
-- provider and the directory of principals are parameters; a request reads the clock once, as `now`.
use echohoard.Base.{
  Bool, Option, String, false, if◌then◌else◌, is_empty, is_some_of, leb, max, nat_eq, none, not,
  some, string_eq, true, ℕ, ◌&&◌, ◌*◌, ◌-◌, ◌==◌, ◌||◌,
}
use echohoard.Auth.Database.{Database, Principal}
use echohoard.Auth.Sessions.{cleanup_sessions, create_session, get_session}
use echohoard.Auth.Unlocks.{create_challenge, create_folder_challenge}
use echohoard.Auth.Grants.{cleanup_unlocks}

-- A claim that has not the type that the code asks for is `none`; times are in seconds.
pub record OidcClaims : Type 0 where
  pub iss : Option String
  pub sub : Option String
  pub exp : Option ℕ
  pub nonce : Option String
  pub auth_time : Option ℕ

-- What the service is built with. `exchange` gives `none` where it throws.
pub record Setting : Type 0 where
  pub hash : String → String
  pub runtime : String
  pub before : String → String → Bool
  pub session_ttl : ℕ
  pub challenge_ttl : ℕ
  pub grant_ttl : ℕ
  pub recent_auth_seconds : ℕ
  pub has_unlocks : Bool
  pub exchange : String → Option String → Option String → Option OidcClaims
  pub find_by_subject : String → String → Option Principal

-- What a request draws at random.
pub record Fresh : Type 0 where
  pub token : String
  pub id : ℕ

-- `typeof exp === "number" && exp * 1000 <= now`
abbrev pub is_expired : ℕ → Option ℕ → Bool
is_expired now none = false
is_expired now (some exp) = leb (exp * 1000) now

-- `isRecentAuthentication`
unfoldable pub is_recent_authentication : Option ℕ → ℕ → ℕ → Bool
is_recent_authentication none max_age now = false
is_recent_authentication (some auth_time) max_age now =
    leb (auth_time * 1000) now && leb (now - auth_time * 1000) (max 1 max_age * 1000)

-- `expectedNonce === undefined || claims.nonce === expectedNonce`
abbrev pub nonce_matches : Option String → Option String → Bool
nonce_matches none given = true
nonce_matches (some expected) given = is_some_of given expected

-- `principal && (!archiveId || principal.archiveId === archiveId) ? principal : null`: an archive id
-- that is missing or empty is not compared.
abbrev pub in_archive : Option String → Option Principal → Option Principal
in_archive archive none = none
in_archive none (some p) = some p
in_archive (some a) (some p) = if is_empty a || p.archive_id == a then some p else none

module _ (s : Setting) where
  unfoldable pub validate : Option String → Option String → ℕ → Database → Option Principal
  validate session archive now db = in_archive archive (get_session s.hash session now db)

  -- What follows a successful exchange in `callback`.
  unfoldable pub admit :
      OidcClaims → Option String → Fresh → ℕ → Database → Database × Option String
  admit claims expected fresh now db = elim claims.iss [
    | none ↦ (db, none)
    | some iss ↦ elim claims.sub [
      | none ↦ (db, none)
      | some sub ↦
          if not (nonce_matches expected claims.nonce) || is_expired now claims.exp
          then (db, none)
          else elim (s.find_by_subject iss sub) [
            | none ↦ (db, none)
            | some p ↦ (
              create_session s.hash s.session_ttl p fresh.id fresh.token now
                  (cleanup_sessions 100 now db).0,
              some fresh.token,
            )
          ]
    ]
  ]

  unfoldable pub callback :
      String → Option String → Option String → Fresh → ℕ → Database → Database × Option String
  callback code expected verifier fresh now db = elim (s.exchange code expected verifier) [
    | none ↦ (db, none)
    | some claims ↦ admit claims expected fresh now db
  ]

  -- What `beginUnlock` does with a created challenge.
  abbrev clean_after : ℕ → Database × Bool → Database × Bool
  clean_after now (db, created) =
      if created then ((cleanup_unlocks 100 now db).0, true) else (db, false)

  -- `beginUnlock`: whether the browser is sent to the provider.
  unfoldable pub begin_unlock :
      Option String → String → String → String → Fresh → ℕ → Database → Database × Bool
  begin_unlock none state archive conversation fresh now db = (db, false)
  begin_unlock (some token) state archive conversation fresh now db =
      elim (validate (some token) (some archive) now db) [
        | none ↦ (db, false)
        | some p ↦
            if s.has_unlocks
            then clean_after now (
                create_challenge s.hash s.runtime s.challenge_ttl state token p.archive_id
                  conversation false fresh.id now db)
            else (db, false)
      ]

  unfoldable pub begin_folder_unlock :
      Option String → String → String → Fresh → ℕ → Database → Database × Bool
  begin_folder_unlock none state archive fresh now db = (db, false)
  begin_folder_unlock (some token) state archive fresh now db =
      elim (validate (some token) (some archive) now db) [
        | none ↦ (db, false)
        | some p ↦
            if s.has_unlocks
            then create_folder_challenge s.hash s.runtime s.before s.challenge_ttl state token
                p.archive_id fresh.id now db
            else (db, false)
      ]
