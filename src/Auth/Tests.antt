-- ===== src/Auth/Tests.antt =====
-- Concrete requests, and the theorems about sign-in at concrete inputs.
use echohoard.Base.{
  List, Option, Result, String, [], arith, eq_iff, false, if◌then◌else◌, nat_eq, none, ok, refl,
  some, string_eq, true, ℕ, ◌==◌, ◌∷◌, ◌≡◌, ◌≢◌,
}
use echohoard.Auth.Database.{
  ChallengeRow, ConversationRow, Database, GrantRow, Principal, SessionRow, locked, member,
}
use echohoard.Auth.Sessions.{create_session, get_session}
use echohoard.Auth.Sessions.Lifetime.{SessionStep, cleans, creates, get-create, session_run}
use echohoard.Auth.Unlocks.{UnlockError, consume_challenge, create_grant, find_challenge}
use echohoard.Auth.Grants.{validate_grant}
use echohoard.Auth.Service.{Fresh, OidcClaims, Setting, is_recent_authentication, validate}
use echohoard.Auth.StepUp.{
  Unlocked, complete_unlock, grant_for, granted, logout, redeem, relock, validate_unlock,
  with_challenge, with_grant, with_principal,
}
use echohoard.Auth.Challenges.{consume-once}
use echohoard.Auth.Relock.{relock-invalid}
use echohoard.Auth.Scope.{IsAccepted, logout-final, validate_unlock-IsAccepted}
use echohoard.Auth.Soundness.{Evidence, complete_unlock-Evidence}

abbrev digest : String → String
digest t = t

abbrev person : Principal
person = record {
  user_id = "user-1";
  archive_id = "archive-1";
  subject = "subject-1";
  issuer = "issuer-1";
  role = some member;
}

abbrev session : SessionRow
session = record {
  id = 1;
  token_hash = "token-1";
  principal = person;
  expires_at = 900000;
  revoked_at = none;
}

abbrev other_session : SessionRow
other_session = record session { id = 2; token_hash = "token-2" }

abbrev challenge : ChallengeRow
challenge = record {
  id = 1;
  token_hash = "state-1";
  runtime_id = "runtime-1";
  session_hash = "token-1";
  auth_session_id = 1;
  archive_id = "archive-1";
  conversation_id = "chat-1";
  archive_wide = false;
  expires_at = 800000;
  consumed_at = none;
  revoked_at = none;
}

abbrev grant_row : GrantRow
grant_row = record {
  id = 1;
  token_hash = "grant-1";
  runtime_id = "runtime-1";
  session_hash = "token-1";
  auth_session_id = 1;
  archive_id = "archive-1";
  conversation_id = "chat-1";
  archive_wide = false;
  expires_at = 800000;
  revoked_at = none;
}

abbrev chat : String → ConversationRow
chat id = record { archive_id = "archive-1"; id = id; ui_visibility = locked; materialized = true }

abbrev database : Database
database = record {
  sessions = session ∷ other_session ∷ [];
  challenges = challenge ∷ [];
  grants = grant_row ∷ [];
  conversations = chat "chat-1" ∷ chat "chat-2" ∷ [];
}

abbrev claims : OidcClaims
claims = record {
  iss = some "issuer-1";
  sub = some "subject-1";
  exp = some 1000;
  nonce = some "nonce-1";
  auth_time = some 400;
}

abbrev setting : Setting
setting = record {
  hash = digest;
  runtime = "runtime-1";
  before = λ a b. false;
  session_ttl = 3600;
  challenge_ttl = 600;
  grant_ttl = 900;
  recent_auth_seconds = 300;
  has_unlocks = true;
  exchange = λ code nonce verifier. if code == "code-1" then some claims else none;
  find_by_subject = λ iss sub. some person;
}

abbrev drawn : Fresh
drawn = record { token = "grant-3"; id = 3 }

apart : (a b : String) → (a == b) ≡ false → a ≢ b
apart a b h e = cc ((eq_iff a b).1 e)

get-create_example :
    get_session digest
      (some "token-3")
      700000
      (create_session digest 60 person 3 "token-3" 500000 database)
    ≡ none
get-create_example = get-create digest 60 3 500000 700000 person "token-3" database refl

after : List (ℕ × SessionStep)
after = (600000, creates 60 person 3 "token-3") ∷ (700000, cleans 100) ∷ []

logout-final_example :
    let out = session_run digest after (logout setting (some "token-1") 500000 database) in
    (validate setting (some "token-1") (some "archive-1") 800000 out ≡ none)
    × (validate_unlock setting (some "token-1") (some "grant-1") "archive-1" "chat-1" 800000 out
        ≡ none)
unfolding after
logout-final_example =
    logout-final setting "token-1" 500000 800000 after database refl
      (apart "token-3" "token-1" refl, (tt, tt)) (some "archive-1") (some "grant-1") "archive-1"
      "chat-1"

consume-once_example :
    let used = (consume_challenge digest "runtime-1" "state-1" "token-1" 500000 database).0 in
    (find_challenge digest "runtime-1" "state-1" "token-1" 600000 used ≡ none)
    × ((consume_challenge digest "runtime-1" "state-1" "token-1" 600000 used).1 ≡ false)
consume-once_example =
    consume-once digest "runtime-1" "state-1" "token-1" 500000 600000 database (ground arith)

relock-invalid_example :
    validate_grant digest "runtime-1" "grant-1" "token-1" "archive-1" "chat-1" 600000
      (relock setting (some "token-1") 500000 database)
    ≡ false
relock-invalid_example =
    relock-invalid setting "token-1" "grant-1" "archive-1" "chat-1" 500000 600000 database refl refl

accepted :
    validate_unlock setting (some "token-1") (some "grant-1") "archive-1" "chat-1" 500000 database
    ≡ some person
unfolding validate_unlock with_grant validate get_session validate_grant
accepted = refl

validate_unlock-IsAccepted_example :
    IsAccepted setting "token-1" "grant-1" "archive-1" "chat-1" 500000 database person
validate_unlock-IsAccepted_example =
    validate_unlock-IsAccepted setting "token-1" "grant-1" "archive-1" "chat-1" 500000 database
      person refl accepted

opened : Database × Result UnlockError (Option Unlocked)
unfolding complete_unlock with_principal with_challenge redeem granted grant_for validate
    get_session find_challenge consume_challenge create_grant is_recent_authentication
opened =
    complete_unlock setting (some "token-1") "state-1" "code-1" "nonce-1" "verifier-1" drawn 500000
      database

abbrev unlocked : Unlocked
unlocked = record { grant = "grant-3"; conversation_id = "chat-1"; archive_wide = false }

opened-unlocked : opened ≡ (opened.0, ok (some unlocked))
unfolding opened complete_unlock with_principal with_challenge redeem granted grant_for validate
    get_session find_challenge consume_challenge create_grant is_recent_authentication
opened-unlocked = refl

complete_unlock-Evidence_example :
    Evidence setting "token-1" "state-1" "code-1" "nonce-1" "verifier-1" drawn 500000 database
      opened.0 unlocked
unfolding opened
complete_unlock-Evidence_example =
    complete_unlock-Evidence setting "token-1" "state-1" "code-1" "nonce-1" "verifier-1" drawn
      500000 database opened.0 unlocked opened-unlocked
