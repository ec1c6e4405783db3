-- ===== src/Pairing.antt =====
-- src/application/account-pairing.ts: `PairingSessionController`. Pairing.Handlers has `status` as one
-- poll that is not interrupted, and Pairing.Segments the stretches of all handlers between their awaits,
-- in any interleaving. The calls of the sidecar answer from `Answers`.
use echohoard.Base.{
  Bool, List, Option, String, [], false, if◌then◌else◌, leb, ltb, nat_eq, none, some, string_eq,
  true, ℕ, ◌&&◌, ◌+◌, ◌==◌, ◌∷◌,
}
pub mod Handlers
pub mod Invariant
pub mod Segments
pub mod Capacity
pub mod Codes
pub mod Settings
mod Tests

pub data ConnectionState : Type 0 where
  connected disconnected unpaired unknown : ConnectionState

pub data SessionState : Type 0 where
  awaiting_qr session_connected expired : SessionState

pub data PairingError : Type 0 where
  account_not_found confirmation_required capacity_reached qr_exceeds_limit : PairingError
  sidecar_failed : PairingError

pub record PairingAccount : Type 0 where
  pub account_key : String
  pub paired_at : Option ℕ

pub record PairingSession : Type 0 where
  pub session_id : String
  pub archive_id : String
  pub account_id : String
  pub account_key : String
  pub qr : Option String
  pub qr_expires_at : ℕ
  pub state : SessionState

pub record PairingSessionRead : Type 0 where
  pub session_id : String
  pub account_id : String
  pub state : SessionState
  pub qr_expires_at : ℕ
  pub qr : Option String
  pub connection : ConnectionState

-- What the clock and the sidecar say to one handler: `cancels` whether a cancellation is confirmed,
-- `health` nothing where the call fails, `pair` the code, `starts` and `stops` whether those calls
-- succeed.
pub record Answers : Type 0 where
  pub pruned_at : ℕ
  pub first_at : ℕ
  pub second_at : ℕ
  pub cancels : PairingSession → Bool
  pub health : Option ConnectionState
  pub starts : Bool
  pub stops : Bool
  pub pair : Option String
  pub new_id : String

abbrev pub is_awaiting : SessionState → Bool
is_awaiting awaiting_qr = true
is_awaiting _ = false

abbrev pub is_expired : SessionState → Bool
is_expired expired = true
is_expired _ = false

abbrev pub is_connected : ConnectionState → Bool
is_connected connected = true
is_connected _ = false

-- `new TextEncoder().encode(value).byteLength`
abbrev pub utf8_bytes : List ℕ → ℕ
utf8_bytes [] = 0
utf8_bytes (c ∷ cs) =
    (if ltb c 0x80 then 1 else if ltb c 0x800 then 2 else if ltb c 0x10000 then 3 else 4)
    + utf8_bytes cs

-- `read`
unfoldable pub read_session : PairingSession → ConnectionState → SessionState → PairingSessionRead
read_session s connection state = record {
  session_id = s.session_id;
  account_id = s.account_id;
  state = state;
  qr_expires_at = s.qr_expires_at;
  qr = if is_awaiting state then s.qr else none;
  connection = connection;
}

-- `safeHealth`
abbrev pub safe_health : Option ConnectionState → ConnectionState
safe_health none = unknown
safe_health (some c) = c

abbrev pub expired_session : PairingSession → PairingSession
expired_session s = record s { state = expired; qr = none }

-- `expire`: whether it went through, and what is left of the session.
unfoldable pub expire : Answers → PairingSession → Bool × PairingSession
expire w s =
    if is_expired s.state
    then (true, s)
    else if w.cancels s
    then (true, expired_session s)
    else (false, s)

abbrev pub is_due : ℕ → PairingSession → Bool
is_due now s = is_awaiting s.state && leb s.qr_expires_at now

-- `qrExpiresAt.getTime() < now - PAIRING_SESSION_TTL_MS`
abbrev pub is_stale : ℕ → PairingSession → Bool
is_stale now s = ltb (s.qr_expires_at + 300000) now

abbrev pub keep_unless : Bool → PairingSession → List PairingSession → List PairingSession
keep_unless gone s ss = if gone then ss else s ∷ ss

-- `prune`: it stops at the first cancellation that fails.
unfoldable pub prune : Answers → List PairingSession → Bool × List PairingSession
prune w [] = (true, [])
prune w (s ∷ ss) =
    let rest = prune w ss in
    let (done, left) = if is_due w.pruned_at s then expire w s else (true, s) in
    if done then (rest.0, keep_unless (is_stale w.pruned_at s) left rest.1) else (false, s ∷ ss)

abbrev pub is_of : String → String → PairingSession → Bool
is_of archive account s = s.archive_id == archive && s.account_id == account

unfoldable pub awaiting_count : List PairingSession → ℕ
awaiting_count [] = 0
awaiting_count (s ∷ ss) = (if is_awaiting s.state then 1 else 0) + awaiting_count ss
