-- ===== src/Auth/Sessions.antt =====
-- src/infrastructure/auth/sessions.ts, `PrismaSessionStore`. `hash` is SHA-256 of node's crypto
-- module, and a new token and id are given by the caller.
pub mod Lifetime
use echohoard.Base.{
  Bool, Option, String, find, if◌then◌else◌, is_empty, leb, ltb, map, nat_eq, none, not, some,
  string_eq, ℕ, ◌&&◌, ◌*◌, ◌+◌, ◌==◌, ◌||◌, ◌∷◌,
}
use echohoard.Auth.Database.{Database, Principal, SessionRow, bounded_rows, delete_oldest, is_null}

-- `row.revokedAt === null && row.expiresAt > now`
abbrev pub is_active : ℕ → SessionRow → Bool
is_active now r = is_null r.revoked_at && ltb now r.expires_at

-- The principal of an active session.
abbrev pub active_principal : ℕ → Option SessionRow → Option Principal
active_principal now none = none
active_principal now (some r) = if is_active now r then some r.principal else none

module _ (hash : String → String) where
  abbrev pub session_of : String → Database → Option SessionRow
  session_of token db = find (λ r. r.token_hash == hash token) db.sessions

  unfoldable pub create_session : ℕ → Principal → ℕ → String → ℕ → Database → Database
  create_session ttl_seconds principal id token now db = record db {
    sessions =
        record {
          id = id;
          token_hash = hash token;
          principal = principal;
          expires_at = now + ttl_seconds * 1000;
          revoked_at = none;
        }
        ∷ db.sessions;
  }

  unfoldable pub get_session : Option String → ℕ → Database → Option Principal
  get_session none now db = none
  get_session (some token) now db =
      if is_empty token then none else active_principal now (session_of token db)

  abbrev pub revoke_row : String → ℕ → SessionRow → SessionRow
  revoke_row token now r =
      if r.token_hash == hash token && is_null r.revoked_at
      then record r { revoked_at = some now }
      else r

  unfoldable pub revoke_session : Option String → ℕ → Database → Database
  revoke_session none now db = db
  revoke_session (some token) now db =
      if is_empty token then db else record db { sessions = map (revoke_row token now) db.sessions }

unfoldable pub cleanup_sessions : ℕ → ℕ → Database → Database × ℕ
cleanup_sessions limit now db =
    let (rest, count) =
      delete_oldest (λ (r : SessionRow). r.expires_at) (λ r. r.id)
        (λ r. leb r.expires_at now || not (is_null r.revoked_at)) (bounded_rows limit)
        db.sessions in
    (record db { sessions = rest }, count)
