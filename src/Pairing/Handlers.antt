-- ===== src/Pairing/Handlers.antt =====
-- src/application/account-pairing.ts: `PairingSessionController.begin` and `status`, and what
-- `AccountSettingsService` asks of them.
use echohoard.Base.{
  Bool, List, Option, Result, String, [], codes, err, false, find, if◌then◌else◌, leb, ltb, nat_eq,
  none, ok, some, string_eq, true, ℕ, ◌++◌, ◌+◌, ◌==◌, ◌∷◌,
}
use echohoard.Pairing.{
  Answers, ConnectionState, PairingAccount, PairingError, PairingSession, PairingSessionRead,
  SessionState, awaiting_qr, disconnected, expire, expired, is_connected, is_of, prune,
  qr_exceeds_limit, read_session, safe_health, session_connected, sidecar_failed, utf8_bytes,
}

abbrev pub has_id : String → PairingSession → Bool
has_id id s = s.session_id == id

abbrev pub is_paired : Option ℕ → Bool
is_paired none = false
is_paired (some t) = true

abbrev pub new_session : Answers → PairingAccount → String → String → String → PairingSession
new_session w a archive account qr = record {
  session_id = w.new_id;
  archive_id = archive;
  account_id = account;
  account_key = a.account_key;
  qr = some qr;
  qr_expires_at = w.second_at + 300000;
  state = awaiting_qr;
}

abbrev pub is_oversized : String → Bool
is_oversized qr = ltb 16384 (utf8_bytes (codes qr))

abbrev pub Begun : Type 0
Begun = List PairingSession × Result PairingError PairingSessionRead

abbrev pub paired :
    Answers → PairingAccount → String → String → Option String → List PairingSession → Begun
paired w a archive account none ss = (ss, err sidecar_failed)
paired w a archive account (some qr) ss = if is_oversized qr then (ss, err qr_exceeds_limit) else (
  ss ++ (new_session w a archive account qr ∷ []),
  ok (read_session (new_session w a archive account qr) (safe_health w.health) awaiting_qr),
)

-- `begin` from the answer of `pair` on; a code that is too long is cancelled.
unfoldable pub begin_commit :
    Answers → PairingAccount → String → String → List PairingSession → Begun
begin_commit w a archive account ss = paired w a archive account w.pair ss

-- The map after a change of the object under a key, which stands in it once.
unfoldable pub put_session : String → PairingSession → List PairingSession → List PairingSession
put_session id s [] = []
put_session id s (t ∷ ts) =
    let rest = put_session id s ts in if has_id id t then s ∷ ts else t ∷ rest

abbrev pub Polled : Type 0
Polled = List PairingSession × Result PairingError (Option PairingSessionRead)

abbrev pub expire_and_read : ConnectionState → List PairingSession → Bool × PairingSession → Polled
expire_and_read connection ss (false, s) = (ss, err sidecar_failed)
expire_and_read connection ss (true, s) =
    (put_session s.session_id s ss, ok (some (read_session s connection expired)))

abbrev pub connected_session : PairingSession → PairingSession
connected_session s = record s { state = session_connected; qr = none }

abbrev pub without_qr : PairingSession → PairingSession
without_qr s = record s { qr = none }

-- A session that waits, once its phone is connected.
abbrev pub follow : Answers → ConnectionState → PairingSession → List PairingSession → Polled
follow w connection s ss =
    if w.starts
    then (
      put_session s.session_id (connected_session s) ss,
      ok (some (read_session (connected_session s) connection session_connected)),
    )
    else (
      put_session s.session_id (without_qr s) ss,
      ok (some (read_session (without_qr s) connection awaiting_qr)),
    )

abbrev pub poll_awaiting : Answers → PairingSession → List PairingSession → Polled
poll_awaiting w s ss =
    if leb s.qr_expires_at w.first_at
    then expire_and_read disconnected ss (expire w s)
    else if leb s.qr_expires_at w.second_at
    then expire_and_read (safe_health w.health) ss (expire w s)
    else if is_connected (safe_health w.health)
    then follow w (safe_health w.health) s ss
    else (ss, ok (some (read_session s (safe_health w.health) awaiting_qr)))

abbrev pub poll_session : Answers → PairingSession → SessionState → List PairingSession → Polled
poll_session w s awaiting_qr ss = poll_awaiting w s ss
poll_session w s session_connected ss =
    (ss, ok (some (read_session s (safe_health w.health) session_connected)))
poll_session w s expired ss = (ss, ok (some (read_session s disconnected expired)))

abbrev pub poll_found : Answers → Option PairingSession → List PairingSession → Polled
poll_found w none ss = (ss, ok none)
poll_found w (some s) ss = poll_session w s s.state ss

abbrev pub poll_pruned : Answers → String → Bool × List PairingSession → Polled
poll_pruned w id (false, ss) = (ss, err sidecar_failed)
poll_pruned w id (true, ss) = poll_found w (find (has_id id) ss) ss

abbrev pub status_found :
    Answers → String → String → String → Option PairingSession → List PairingSession → Polled
status_found w archive account id none ss = (ss, ok none)
status_found w archive account id (some s) ss =
    if is_of archive account s then poll_pruned w id (prune w ss) else (ss, ok none)

-- `status`
unfoldable pub status : Answers → String → String → String → List PairingSession → Polled
status w archive account id ss = status_found w archive account id (find (has_id id) ss) ss
