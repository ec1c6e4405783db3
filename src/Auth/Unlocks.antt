-- ===== src/Auth/Unlocks.antt =====
-- src/infrastructure/auth/unlocks.ts, `PrismaUnlockStore`. `hash` is SHA-256, `runtime` the random id
-- of the running process; new tokens and ids are given by the caller.
use echohoard.Base.{
  Bool, List, Option, Result, String, [], any, err, false, filter, find, if◌then◌else◌, is_empty,
  length, ltb, map, nat_eq, none, not, ok, some, string_eq, true, ℕ, ◌&&◌, ◌*◌, ◌+◌, ◌==◌, ◌||◌,
  ◌∷◌,
}
use echohoard.Auth.Database.{
  ChallengeRow, ConversationRow, Database, GrantRow, SessionRow, is_locked, is_null,
}
use echohoard.Auth.Sessions.{is_active, session_of}

pub data UnlockError : Type 0 where
  inactive_session unlocked_conversation no_locked_conversations : UnlockError

-- The session that the token names, if it belongs to the archive and is active.
abbrev active_session : (String → String) → String → String → ℕ → Database → Option SessionRow
active_session hash token archive now db = elim (session_of hash token db) [
  | none ↦ none
  | some r ↦ if r.principal.archive_id == archive && is_active now r then some r else none
]

abbrev conversation_of : String → String → Database → Option ConversationRow
conversation_of archive id db = find (λ c. c.archive_id == archive && c.id == id) db.conversations

-- `conversation?.uiVisibility === "locked"`
abbrev pub conversation_locked : String → String → Database → Bool
conversation_locked archive id db = elim (conversation_of archive id db) [
  | none ↦ false
  | some c ↦ is_locked c.ui_visibility
]

abbrev pub is_locked_in : String → ConversationRow → Bool
is_locked_in archive c = c.archive_id == archive && is_locked c.ui_visibility && c.materialized

-- `ORDER BY id ASC`, `before` being the order of the ids.
least_id : (String → String → Bool) → List ConversationRow → Option ConversationRow
least_id before [] = none
least_id before (c ∷ rest) = elim (least_id before rest) [
  | none ↦ some c
  | some d ↦ if before d.id c.id then some d else some c
]

module _ (hash : String → String) (runtime : String) where
  unfoldable pub create_challenge :
      ℕ → String → String → String → String → Bool → ℕ → ℕ → Database → Database × Bool
  create_challenge ttl_seconds state token archive conversation wide id now db =
      if is_empty state || is_empty token || is_empty archive || is_empty conversation
      then (db, false)
      else elim (active_session hash token archive now db) [
        | none ↦ (db, false)
        | some s ↦
            if not (conversation_locked archive conversation db)
            then (db, false)
            else if any (λ (c : ChallengeRow). c.token_hash == hash state) db.challenges
            then (db, false)
            else (
              record db {
                challenges =
                    record {
                      id = id;
                      token_hash = hash state;
                      runtime_id = runtime;
                      session_hash = hash token;
                      auth_session_id = s.id;
                      archive_id = archive;
                      conversation_id = conversation;
                      archive_wide = wide;
                      expires_at = now + ttl_seconds * 1000;
                      consumed_at = none;
                      revoked_at = none;
                    }
                    ∷ db.challenges;
              },
              true,
            )
      ]

  unfoldable pub create_folder_challenge :
      (String → String → Bool) → ℕ → String → String → String → ℕ → ℕ → Database → Database × Bool
  unfolding create_challenge least_id
  create_folder_challenge before ttl_seconds state token archive id now db =
      elim (active_session hash token archive now db) [
        | none ↦ (db, false)
        | some s ↦ elim (least_id before (filter (is_locked_in archive) db.conversations)) [
          | none ↦ (db, false)
          | some c ↦ create_challenge ttl_seconds state token archive c.id true id now db
        ]
      ]

  -- The challenge is of this process and session, and neither used, revoked nor expired.
  abbrev pub is_open : String → String → ℕ → ChallengeRow → Bool
  is_open state token now c =
      c.token_hash == hash state
      && c.runtime_id == runtime
      && c.session_hash == hash token
      && is_null c.consumed_at
      && is_null c.revoked_at
      && ltb now c.expires_at

  unfoldable pub find_challenge : String → String → ℕ → Database → Option ChallengeRow
  find_challenge state token now db = find (is_open state token now) db.challenges

  abbrev pub consume_row : String → String → ℕ → ChallengeRow → ChallengeRow
  consume_row state token now c =
      if is_open state token now c then record c { consumed_at = some now } else c

  unfoldable pub consume_challenge : String → String → ℕ → Database → Database × Bool
  consume_challenge state token now db = (
    record db { challenges = map (consume_row state token now) db.challenges },
    length (filter (is_open state token now) db.challenges) == 1,
  )

  abbrev new_grant : ℕ → String → String → SessionRow → String → Bool → String → ℕ → ℕ → GrantRow
  new_grant ttl_seconds token archive s conversation wide grant id now = record {
    id = id;
    token_hash = hash grant;
    runtime_id = runtime;
    session_hash = hash token;
    auth_session_id = s.id;
    archive_id = archive;
    conversation_id = conversation;
    archive_wide = wide;
    expires_at = now + ttl_seconds * 1000;
    revoked_at = none;
  }

  unfoldable pub create_grant :
      ℕ
      → String
      → String
      → String
      → String
      → ℕ
      → ℕ
      → Database
      → Result UnlockError (Database × String)
  create_grant ttl_seconds token archive conversation grant id now db =
      elim (active_session hash token archive now db) [
        | none ↦ err inactive_session
        | some s ↦
            if conversation_locked archive conversation db
            then ok (
              record db {
                grants =
                    new_grant ttl_seconds token archive s conversation false grant id now
                    ∷ db.grants;
              },
              grant,
            )
            else err unlocked_conversation
      ]

  unfoldable pub create_grants_for_archive :
      (String → String → Bool)
      → ℕ
      → String
      → String
      → String
      → ℕ
      → ℕ
      → Database
      → Result UnlockError (Database × String)
  unfolding least_id
  create_grants_for_archive before ttl_seconds token archive grant id now db =
      elim (active_session hash token archive now db) [
        | none ↦ err inactive_session
        | some s ↦ elim (least_id before (filter (is_locked_in archive) db.conversations)) [
          | none ↦ err no_locked_conversations
          | some c ↦ ok (
            record db {
              grants = new_grant ttl_seconds token archive s c.id true grant id now ∷ db.grants;
            },
            grant,
          )
        ]
      ]
