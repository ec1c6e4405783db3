-- ===== src/Pairing/Settings.antt =====
-- src/application/account-pairing.ts: `AccountSettingsService`, over a table of accounts. The health of the
-- live pipeline is an argument, and so are the clock and what the sidecar answers.
use echohoard.Base.{
  Bool, List, Option, Result, String, as_result, false, find, if◌then◌else◌, map, nat_eq, none, not,
  ok, require, some, string_eq, true, ℕ, ◌&&◌, ◌==◌, ◌>>=◌, ◌>>◌, ◌||◌,
}
use echohoard.Numbers.{Number, is_number, less, nought, safe_integer}
use echohoard.Reads.Requests.{default_to}
use echohoard.Pairing.{
  Answers, ConnectionState, PairingAccount, PairingError, PairingSession, PairingSessionRead,
  awaiting_qr, expired, session_connected, unknown,
}
use echohoard.Pairing.Handlers.{Polled, is_paired, status}

pub record AccountRow : Type 0 where
  pub archive_id : String
  pub id : String
  pub account_key : String
  pub display_label : Option String
  pub live_enabled : Bool
  pub paired_at : Option ℕ
  pub paused_at : Option ℕ

pub data SettingsError : Type 0 where
  not_found pairing_unconfirmed pause_unconfirmed not_paired sidecar_refused : SettingsError
  pairing_failed : PairingError → SettingsError

-- What `LiveAccountHealthPersistencePort.get` gives.
pub record PipelineHealth : Type 0 where
  pub received_count : Number
  pub pending_count : Number
  pub failed_count : Number
  pub last_received_at : Option ℕ
  pub last_normalized_at : Option ℕ
  pub last_backup_confirmed_at : Option ℕ

pub record SidecarHealth : Type 0 where
  pub connection : ConnectionState
  pub checked_at : ℕ
  pub reconnect_count : ℕ

pub data AccountConnection : Type 0 where
  live : ConnectionState → AccountConnection
  paused : AccountConnection

pub data PipelineState : Type 0 where
  healthy pending failed nothing : PipelineState

pub data BackupState : Type 0 where
  confirmed backup_pending no_backup : BackupState

pub record AccountSettingsRead : Type 0 where
  pub id : String
  pub label : String
  pub account_key : String
  pub live_enabled : Bool
  pub paired_at : Option ℕ
  pub connection : AccountConnection
  pub reconnect_count : ℕ
  pub checked_at : ℕ
  pub receipt : PipelineState
  pub receipt_count : ℕ
  pub last_received_at : Option ℕ
  pub normalization : PipelineState
  pub pending_count : ℕ
  pub failed_count : ℕ
  pub last_normalized_at : Option ℕ
  pub backup : BackupState
  pub last_confirmed_at : Option ℕ

abbrev natural_of : Option (Bool × ℕ) → ℕ
natural_of none = 0
natural_of (some (negative, n)) = if negative then 0 else n

-- `safeCount`
abbrev pub safe_count : Number → ℕ
safe_count n = natural_of (safe_integer n)

abbrev pub is_positive : Number → Bool
is_positive n = less nought n

abbrev pub sidecar_health : ℕ → Option SidecarHealth → SidecarHealth
sidecar_health now none = record { connection = unknown; checked_at = now; reconnect_count = 0 }
sidecar_health now (some h) = h

abbrev pub backup_state : PipelineHealth → BackupState
backup_state p = elim p.last_backup_confirmed_at [
  | some t ↦ confirmed
  | none ↦ if is_positive p.received_count then backup_pending else no_backup
]

abbrev pub normalization_state : PipelineHealth → PipelineState
normalization_state p =
    if is_positive p.failed_count
    then failed
    else if is_positive p.pending_count
    then pending
    else healthy

abbrev pub account_connection : AccountRow → SidecarHealth → AccountConnection
account_connection a h = if a.live_enabled then live h.connection else paused

-- `toRead`
unfoldable pub account_read : PipelineHealth → SidecarHealth → AccountRow → AccountSettingsRead
account_read p h a = record {
  id = a.id;
  label = default_to a.account_key a.display_label;
  account_key = a.account_key;
  live_enabled = a.live_enabled;
  paired_at = a.paired_at;
  connection = account_connection a h;
  reconnect_count = h.reconnect_count;
  checked_at = h.checked_at;
  receipt = if is_number 0 p.received_count then nothing else healthy;
  receipt_count = safe_count p.received_count;
  last_received_at = p.last_received_at;
  normalization = normalization_state p;
  pending_count = safe_count p.pending_count;
  failed_count = safe_count p.failed_count;
  last_normalized_at = p.last_normalized_at;
  backup = backup_state p;
  last_confirmed_at = p.last_backup_confirmed_at;
}

abbrev pub is_account : String → String → AccountRow → Bool
is_account archive id a = a.archive_id == archive && a.id == id

abbrev pub update_account :
    String → String → (AccountRow → AccountRow) → List AccountRow → List AccountRow
update_account archive id f = map (λ a. if is_account archive id a then f a else a)

abbrev pub pause_row : ℕ → AccountRow → AccountRow
pause_row now a = record a { live_enabled = false; paused_at = some now }

abbrev pub resume_row : AccountRow → AccountRow
resume_row a = record a { live_enabled = true; paused_at = none }

abbrev pub pair_row : ℕ → AccountRow → AccountRow
pair_row now a = record a { live_enabled = true; paired_at = some now; paused_at = none }

-- `beginPairing` until it calls `begin`: the accounts, and the one that is paired.
unfoldable pub prepare_pairing :
    ℕ
    → String
    → String
    → Bool
    → Bool
    → List AccountRow
    → Result SettingsError (List AccountRow × PairingAccount)
prepare_pairing now archive id confirm re_pair accounts = do
  a ← as_result not_found (find (is_account archive id) accounts)
  require (not re_pair || confirm) pairing_unconfirmed
  ok (
    (if re_pair then update_account archive id (pause_row now) accounts else accounts),
    record { account_key = a.account_key; paired_at = a.paired_at },
  )

abbrev pub note_connected :
    ℕ
    → String
    → String
    → Result PairingError (Option PairingSessionRead)
    → List AccountRow
    → List AccountRow
note_connected now archive id (ok (some r)) accounts = elim r.state [
  | session_connected ↦ update_account archive id (pair_row now) accounts
  | awaiting_qr ↦ accounts
  | expired ↦ accounts
]
note_connected now archive id _ accounts = accounts

-- `pairingStatus`
unfoldable pub pairing_status :
    ℕ
    → Answers
    → String
    → String
    → String
    → List AccountRow
    → List PairingSession
    → List AccountRow × Polled
pairing_status now w archive id session accounts ss =
    let polled = status w archive id session ss in
    (note_connected now archive id polled.1 accounts, polled)

-- `pause`: the accounts after it, and what is left of the account.
unfoldable pub pause_account :
    ℕ
    → Bool
    → String
    → String
    → Bool
    → List AccountRow
    → Result SettingsError (List AccountRow × AccountRow)
pause_account now stops archive id confirm accounts = do
  require confirm pause_unconfirmed
  a ← as_result not_found (find (is_account archive id) accounts)
  require stops sidecar_refused
  ok (update_account archive id (pause_row now) accounts, pause_row now a)

-- `resume`
unfoldable pub resume_account :
    Bool → String → String → List AccountRow → Result SettingsError (List AccountRow × AccountRow)
resume_account starts archive id accounts = do
  a ← as_result not_found (find (is_account archive id) accounts)
  require (is_paired a.paired_at) not_paired
  require starts sidecar_refused
  ok (update_account archive id resume_row accounts, resume_row a)
