-- ===== src/Auth/Soundness.antt =====
-- A step-up opens something only for the signed-in person: src/application/auth.ts.
use echohoard.Base.{
  Bool, Bool-cases, List, Option, Result, String, [], ap, arith, eq_iff, err, false, find, inl, inr,
  is_empty, is_some_of, nat_eq, none, not, ok, refl, some, string_eq, subst, true, ℕ, ◌<◌, ◌==◌,
  ◌||◌, ◌∷◌, ◌≡◌,
}
use echohoard.Auth.Database.{ChallengeRow, Database, Principal, is_null}
use echohoard.Auth.Unlocks.{UnlockError, consume_challenge, find_challenge, is_open}
use echohoard.Auth.Service.{
  Fresh, OidcClaims, Setting, is_expired, is_recent_authentication, validate,
}
use echohoard.Auth.StepUp.{
  Unlocked, complete_unlock, grant_for, granted, is_step_up, redeem, with_challenge, with_principal,
}

is_some_of-some : (o : Option String) (a : String) → is_some_of o a ≡ true → o ≡ some a
is_some_of-some none a h = cc
is_some_of-some (some b) a h = ap some ((eq_iff b a).0 h)

is_null-none : {A : Type 0} (o : Option A) → is_null o ≡ true → o ≡ none
is_null-none none h = refl
is_null-none (some a) h = cc h

find_holds : {A : Type 0} (p : A → Bool) (xs : List A) (x : A) → find p xs ≡ some x → p x ≡ true
find_holds p [] x h = cc h
find_holds p (y ∷ xs) x h = elim (Bool-cases (p y)) [
  | inl here ↦ let same : y ≡ x = cc (rw here at h) in subst (λ z. p z ≡ true) same here
  | inr there ↦ find_holds p xs x (rw there at h)
]

module _ (s : Setting) (token state code nonce verifier : String) (fresh : Fresh) (now : ℕ)
    (db db' : Database) (u : Unlocked) where
  -- Why a step-up succeeded.
  pub record Evidence : Type 0 where
    pub principal : Principal
    pub challenge : ChallengeRow
    pub claims : OidcClaims
    pub signed_in : validate s (some token) none now db ≡ some principal
    pub challenged : find_challenge s.hash s.runtime state token now db ≡ some challenge
    pub own_state : challenge.token_hash ≡ s.hash state
    pub own_session : challenge.session_hash ≡ s.hash token
    pub unused : challenge.consumed_at ≡ none
    pub unrevoked : challenge.revoked_at ≡ none
    pub in_time : now < challenge.expires_at
    pub same_archive : challenge.archive_id ≡ principal.archive_id
    pub exchanged : s.exchange code (some nonce) (some verifier) ≡ some claims
    pub same_issuer : claims.iss ≡ some principal.issuer
    pub same_subject : claims.sub ≡ some principal.subject
    pub same_nonce : claims.nonce ≡ some nonce
    pub recent : is_recent_authentication claims.auth_time s.recent_auth_seconds now ≡ true
    pub unexpired : is_expired now claims.exp ≡ false
    pub taken : (consume_challenge s.hash s.runtime state token now db).1 ≡ true
    pub given :
        grant_for s token challenge fresh now
          (consume_challenge s.hash s.runtime state token now db).0
        ≡ ok (db', u.grant)
    pub same_conversation : u.conversation_id ≡ challenge.conversation_id

  granted-some :
      (c : ChallengeRow) (used : Database) (r : Result UnlockError (Database × String))
      → granted s c used r ≡ (db', ok (some u))
      → (r ≡ ok (db', u.grant)) × (u.conversation_id ≡ c.conversation_id)
  unfolding granted
  granted-some c used (err e) h = ground arith
  granted-some c used (ok (d, g)) h = ground arith

  redeem-some :
      (p : Principal) (c : ChallengeRow) (claims : OidcClaims)
      → redeem s p c state nonce token fresh now db (some claims) ≡ (db', ok (some u))
      → (is_step_up s p nonce claims now ≡ true)
        × ((consume_challenge s.hash s.runtime state token now db).1 ≡ true)
        × (granted s c (consume_challenge s.hash s.runtime state token now db).0 (
              grant_for s token c fresh now
                (consume_challenge s.hash s.runtime state token now db).0)
            ≡ (db', ok (some u)))
  unfolding redeem
  redeem-some p c claims h = ground arith

  step_up_parts :
      (p : Principal) (claims : OidcClaims)
      → is_step_up s p nonce claims now ≡ true
      → (claims.iss ≡ some p.issuer)
        × (claims.sub ≡ some p.subject)
        × (claims.nonce ≡ some nonce)
        × (is_recent_authentication claims.auth_time s.recent_auth_seconds now ≡ true)
        × (is_expired now claims.exp ≡ false)
  step_up_parts p claims h = ground (
    arith,
    is_some_of-some claims.iss p.issuer,
    is_some_of-some claims.sub p.subject,
    is_some_of-some claims.nonce nonce,
  )

  challenge_parts :
      (c : ChallengeRow)
      → find_challenge s.hash s.runtime state token now db ≡ some c
      → (c.token_hash ≡ s.hash state)
        × (c.session_hash ≡ s.hash token)
        × (c.consumed_at ≡ none)
        × (c.revoked_at ≡ none)
        × (now < c.expires_at)
  unfolding find_challenge
  challenge_parts c h = ground (
    arith,
    find_holds (is_open s.hash s.runtime state token now) db.challenges c h,
    (eq_iff c.token_hash (s.hash state)).0,
    (eq_iff c.session_hash (s.hash token)).0,
    is_null-none c.consumed_at,
    is_null-none c.revoked_at,
  )

  module _ (p : Principal) (signed : validate s (some token) none now db ≡ some p)
      (c : ChallengeRow) (found : find_challenge s.hash s.runtime state token now db ≡ some c)
      (same : (c.archive_id == p.archive_id) ≡ true) where
    redeem-Evidence :
        (x : Option OidcClaims)
        → s.exchange code (some nonce) (some verifier) ≡ x
        → redeem s p c state nonce token fresh now db x ≡ (db', ok (some u))
        → Evidence
    unfolding redeem
    redeem-Evidence none e h = ground arith
    redeem-Evidence (some claims) e h =
        let (step_up, used, gave) = redeem-some p c claims h in
        let (issuer, subject, nonces, recently, unexpired) = step_up_parts p claims step_up in
        let (own_state, own_session, unused, unrevoked, in_time) = challenge_parts c found in
        let (grant_made, conversation) =
          granted-some c (consume_challenge s.hash s.runtime state token now db).0 _ gave in
        record {
          principal = p;
          challenge = c;
          claims = claims;
          signed_in = signed;
          challenged = found;
          own_state = own_state;
          own_session = own_session;
          unused = unused;
          unrevoked = unrevoked;
          in_time = in_time;
          same_archive = (eq_iff _ _).0 same;
          exchanged = e;
          same_issuer = issuer;
          same_subject = subject;
          same_nonce = nonces;
          recent = recently;
          unexpired = unexpired;
          taken = used;
          given = grant_made;
          same_conversation = conversation;
        }

  with_challenge-Evidence :
      (p : Principal)
      → validate s (some token) none now db ≡ some p
      → (o : Option ChallengeRow) → find_challenge s.hash s.runtime state token now db ≡ o
      → with_challenge s p token state code nonce verifier fresh now db o ≡ (db', ok (some u))
      → Evidence
  unfolding with_challenge
  with_challenge-Evidence p v none f h = ground arith
  with_challenge-Evidence p v (some c) f h = elim (Bool-cases (c.archive_id == p.archive_id)) [
    | inl same ↦ redeem-Evidence p v c f same _ refl (rw same at h)
    | inr other ↦ ground arith
  ]

  with_principal-Evidence :
      (o : Option Principal)
      → validate s (some token) none now db ≡ o
      → with_principal s token state code nonce verifier fresh now db o ≡ (db', ok (some u))
      → Evidence
  unfolding with_principal
  with_principal-Evidence none v h = ground arith
  with_principal-Evidence (some p) v h = with_challenge-Evidence p v _ refl h

  -- A step-up that opens something was asked for in an active session, by a challenge of that
  -- session, of its state and of its archive, that is not used, revoked or expired and is used up by it; the provider confirmed the
  -- issuer and the subject of the session's own person, the nonce of the request, a sign-in within
  -- the allowed time and claims that have not expired; and what was granted is what the grant of
  -- that challenge gives.
  pub complete_unlock-Evidence :
      complete_unlock s (some token) state code nonce verifier fresh now db ≡ (db', ok (some u))
      → Evidence
  unfolding complete_unlock
  complete_unlock-Evidence h = elim (Bool-cases (is_empty token || not s.has_unlocks)) [
    | inl off ↦ ground arith
    | inr on ↦ with_principal-Evidence _ refl (rw on at h)
  ]
