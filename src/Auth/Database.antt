-- ===== src/Auth/Database.antt =====
-- The tables "AuthSession", "UnlockChallenge", "UnlockGrant" and "Conversation", as far as
-- src/infrastructure/auth reads and writes them. Times are milliseconds.
use echohoard.Base.{
  Bool, List, Option, String, any, false, filter, insert_by, length, map, max, min, nat_eq, none,
  not, some, sort_by, string_eq, take, true, ℕ, ◌==◌,
}

pub data Role : Type 0 where
  admin member : Role

pub record Principal : Type 0 where
  pub user_id : String
  pub archive_id : String
  pub subject : String
  pub issuer : String
  pub role : Option Role

pub record SessionRow : Type 0 where
  pub id : ℕ
  pub token_hash : String
  pub principal : Principal
  pub expires_at : ℕ
  pub revoked_at : Option ℕ

pub record ChallengeRow : Type 0 where
  pub id : ℕ
  pub token_hash : String
  pub runtime_id : String
  pub session_hash : String
  pub auth_session_id : ℕ
  pub archive_id : String
  pub conversation_id : String
  pub archive_wide : Bool
  pub expires_at : ℕ
  pub consumed_at : Option ℕ
  pub revoked_at : Option ℕ

pub record GrantRow : Type 0 where
  pub id : ℕ
  pub token_hash : String
  pub runtime_id : String
  pub session_hash : String
  pub auth_session_id : ℕ
  pub archive_id : String
  pub conversation_id : String
  pub archive_wide : Bool
  pub expires_at : ℕ
  pub revoked_at : Option ℕ

pub data Visibility : Type 0 where
  normal hidden locked : Visibility

pub record ConversationRow : Type 0 where
  pub archive_id : String
  pub id : String
  pub ui_visibility : Visibility
  pub materialized : Bool

pub record Database : Type 0 where
  pub sessions : List SessionRow
  pub challenges : List ChallengeRow
  pub grants : List GrantRow
  pub conversations : List ConversationRow

-- `IS NULL`
abbrev pub is_null {ℓ} : {A : Type ℓ} → Option A → Bool
is_null none = true
is_null (some a) = false

abbrev pub is_locked : Visibility → Bool
is_locked locked = true
is_locked _ = false

module _ {R : Type 0} (expiry id : R → ℕ) where
  -- `DELETE ... WHERE id IN (SELECT id ... WHERE p ORDER BY ... LIMIT n)`: the rows that stay, and
  -- how many went.
  unfoldable pub delete_oldest : (R → Bool) → ℕ → List R → List R × ℕ
  unfolding sort_by insert_by
  delete_oldest p n rows =
      let chosen = map id (take n (sort_by expiry id (filter p rows))) in
      let gone = λ (r : R). any (λ i. i == id r) chosen in
      (filter (λ r. not (gone r)) rows, length (filter gone rows))

-- `Math.max(1, Math.min(MAX_CLEANUP_ROWS, limit))`
abbrev pub bounded_rows : ℕ → ℕ
bounded_rows limit = max 1 (min 100 limit)
