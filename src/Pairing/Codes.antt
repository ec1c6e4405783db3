-- ===== src/Pairing/Codes.antt =====
-- When a status shows the code of a pairing: src/application/account-pairing.ts.
use echohoard.Base.{
  Bool, Bool-cases, List, Option, Result, String, arith, err, false, find, inl, inr, leb, none, ok,
  refl, some, subst, true, ◌<◌, ◌≡◌,
}
use echohoard.Pairing.{
  Answers, ConnectionState, PairingError, PairingSession, PairingSessionRead, SessionState,
  awaiting_qr, disconnected, expire, expired, is_connected, is_of, prune, read_session, safe_health,
  session_connected,
}
use echohoard.Pairing.Handlers.{
  expire_and_read, follow, has_id, poll_awaiting, poll_found, poll_pruned, poll_session, status,
  status_found,
}

-- The code is read while the session waits, before its time is over.
abbrev pub IsTimely : Answers → PairingSessionRead → Type 0
IsTimely w r =
    (r.state ≡ awaiting_qr) × (w.first_at < r.qr_expires_at) × (w.second_at < r.qr_expires_at)

abbrev ShowsTimely : Answers → Result PairingError (Option PairingSessionRead) → Type 0
ShowsTimely w (ok (some r)) = (q : String) → r.qr ≡ some q → IsTimely w r
ShowsTimely w (ok none) = Unit
ShowsTimely w (err e) = Unit

read_connected-ShowsTimely :
    (w : Answers) (s : PairingSession) (c : ConnectionState)
    → ShowsTimely w (ok (some (read_session s c session_connected)))
unfolding read_session
read_connected-ShowsTimely w s c q h = cc h

expire_and_read-ShowsTimely :
    (w : Answers) (c : ConnectionState) (ss : List PairingSession) (r : Bool × PairingSession)
    → ShowsTimely w (expire_and_read c ss r).1
unfolding read_session
expire_and_read-ShowsTimely w c ss (false, s) = tt
expire_and_read-ShowsTimely w c ss (true, s) = λ q h. cc h

follow-ShowsTimely :
    (w : Answers) (c : ConnectionState) (s : PairingSession) (ss : List PairingSession)
    → ShowsTimely w (follow w c s ss).1
unfolding read_session
follow-ShowsTimely w c s ss = elim (Bool-cases w.starts) [
  | inl started ↦ rw started (λ q h. cc h)
  | inr failed ↦ rw failed (λ q h. cc h)
]

poll_awaiting-ShowsTimely :
    (w : Answers) (s : PairingSession) (ss : List PairingSession)
    → ShowsTimely w (poll_awaiting w s ss).1
unfolding read_session
poll_awaiting-ShowsTimely w s ss = elim (Bool-cases (leb s.qr_expires_at w.first_at)) [
  | inl late ↦ rw late (expire_and_read-ShowsTimely w disconnected ss (expire w s))
  | inr early ↦ elim (Bool-cases (leb s.qr_expires_at w.second_at)) [
    | inl late ↦
        rw (early, late) (expire_and_read-ShowsTimely w (safe_health w.health) ss (expire w s))
    | inr fresh ↦ elim (Bool-cases (is_connected (safe_health w.health))) [
      | inl here ↦ rw (early, fresh, here) (follow-ShowsTimely w (safe_health w.health) s ss)
      | inr apart ↦
          rw (early, fresh, apart) (λ q h. (refl, ground (arith, early), ground (arith, fresh)))
    ]
  ]
]

poll_session-ShowsTimely :
    (w : Answers) (s : PairingSession) (state : SessionState) (ss : List PairingSession)
    → ShowsTimely w (poll_session w s state ss).1
unfolding read_session
poll_session-ShowsTimely w s awaiting_qr ss = poll_awaiting-ShowsTimely w s ss
poll_session-ShowsTimely w s session_connected ss = λ q h. cc h
poll_session-ShowsTimely w s expired ss = λ q h. cc h

poll_found-ShowsTimely :
    (w : Answers) (o : Option PairingSession) (ss : List PairingSession)
    → ShowsTimely w (poll_found w o ss).1
poll_found-ShowsTimely w none ss = tt
poll_found-ShowsTimely w (some s) ss = poll_session-ShowsTimely w s s.state ss

poll_pruned-ShowsTimely :
    (w : Answers) (id : String) (r : Bool × List PairingSession)
    → ShowsTimely w (poll_pruned w id r).1
poll_pruned-ShowsTimely w id (false, ss) = tt
poll_pruned-ShowsTimely w id (true, ss) = poll_found-ShowsTimely w (find (has_id id) ss) ss

status_found-ShowsTimely :
    (w : Answers) (archive account id : String) (o : Option PairingSession)
    (ss : List PairingSession)
    → ShowsTimely w (status_found w archive account id o ss).1
status_found-ShowsTimely w archive account id none ss = tt
status_found-ShowsTimely w archive account id (some s) ss =
    elim (Bool-cases (is_of archive account s)) [
      | inl own ↦ rw own (poll_pruned-ShowsTimely w id (prune w ss))
      | inr other ↦ rw other tt
    ]

-- A status shows a code only for a session that waits and only before the code's time is over, by each
-- reading of the clock after the pruning.
pub status-IsTimely :
    (w : Answers) (archive account id q : String) (r : PairingSessionRead)
    (ss : List PairingSession)
    → (status w archive account id ss).1 ≡ ok (some r)
    → r.qr ≡ some q
    → IsTimely w r
unfolding status
status-IsTimely w archive account id q r ss h =
    subst (ShowsTimely w) h (status_found-ShowsTimely w archive account id (find (has_id id) ss) ss)
      q
