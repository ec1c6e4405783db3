-- ===== src/Auth/Grants.antt =====
-- src/infrastructure/auth/unlocks.ts, `PrismaUnlockStore`: what grants open, and how they end.
use echohoard.Base.{
  Bool, List, String, [], any, filter, find, if◌then◌else◌, leb, ltb, map, nat_eq, none, not, some,
  string_eq, ℕ, ◌&&◌, ◌+◌, ◌==◌, ◌||◌, ◌∷◌,
}
use echohoard.Auth.Database.{
  ChallengeRow, ConversationRow, Database, GrantRow, SessionRow, bounded_rows, delete_oldest,
  is_null,
}
use echohoard.Auth.Sessions.{is_active}
use echohoard.Auth.Unlocks.{conversation_locked, is_locked_in}

-- `authSession: { revokedAt: null, expiresAt: { gt: now } }`
abbrev pub session_active : ℕ → Database → ℕ → Bool
session_active id db now = any (λ (r : SessionRow). r.id == id && is_active now r) db.sessions

module _ (hash : String → String) (runtime : String) where
  -- The grant is of this process, session and archive, and neither it nor its session has ended.
  abbrev pub is_in_force : String → String → ℕ → Database → GrantRow → Bool
  is_in_force token archive now db g =
      g.runtime_id == runtime
      && g.session_hash == hash token
      && g.archive_id == archive
      && is_null g.revoked_at
      && ltb now g.expires_at
      && session_active g.auth_session_id db now

  -- `OR: [{ archiveWide: true }, { archiveWide: false, conversationId, conversation: locked }]`
  abbrev pub opens : String → Database → GrantRow → Bool
  opens conversation db g =
      g.archive_wide
      || (g.conversation_id == conversation
          && conversation_locked g.archive_id g.conversation_id db)

  unfoldable pub validate_grant : String → String → String → String → ℕ → Database → Bool
  validate_grant grant token archive conversation now db =
      any
        (λ (g : GrantRow).
          g.token_hash == hash grant
          && is_in_force token archive now db g
          && opens conversation db g)
        db.grants

  unfoldable pub list_granted_conversation_ids : String → String → ℕ → Database → List String
  list_granted_conversation_ids token archive now db =
      elim (find (is_in_force token archive now db) db.grants) [
        | none ↦ []
        | some g ↦
            if g.archive_wide
            then map (λ (c : ConversationRow). c.id)
                (filter (is_locked_in archive) db.conversations)
            else g.conversation_id ∷ []
      ]

module _ (hash : String → String) where
  abbrev pub end_grant : String → ℕ → GrantRow → GrantRow
  end_grant token now g =
      if g.session_hash == hash token && is_null g.revoked_at
      then record g { revoked_at = some now }
      else g

  abbrev pub end_challenge : String → ℕ → ChallengeRow → ChallengeRow
  end_challenge token now c =
      if c.session_hash == hash token && is_null c.revoked_at && is_null c.consumed_at
      then record c { revoked_at = some now }
      else c

  -- `revokeSession`, one transaction.
  unfoldable pub revoke_unlocks : String → ℕ → Database → Database
  revoke_unlocks token now db = record db {
    grants = map (end_grant token now) db.grants;
    challenges = map (end_challenge token now) db.challenges;
  }

unfoldable pub cleanup_unlocks : ℕ → ℕ → Database → Database × ℕ
cleanup_unlocks limit now db =
    let (challenges, gone) =
      delete_oldest (λ (c : ChallengeRow). c.expires_at) (λ c. c.id)
        (λ c. leb c.expires_at now || not (is_null c.revoked_at) || not (is_null c.consumed_at))
        (bounded_rows limit) db.challenges in
    let (grants, gone') =
      delete_oldest (λ (g : GrantRow). g.expires_at) (λ g. g.id)
        (λ g. leb g.expires_at now || not (is_null g.revoked_at)) (bounded_rows limit) db.grants in
    (record db { challenges = challenges; grants = grants }, gone + gone')
