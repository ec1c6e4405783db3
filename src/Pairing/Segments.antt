-- ===== src/Pairing/Segments.antt =====
-- src/application/account-pairing.ts: what `begin`, `status`, `prune` and `expire` do to the sessions
-- between one await and the next. A lock is kept per account, so that handlers of different accounts
-- interleave at every await.
use echohoard.Base.{Bool, List, String, [], if◌then◌else◌, ltb, suc, zero, ℕ, ◌∷◌}
use echohoard.Pairing.{Answers, PairingAccount, PairingSession, awaiting_count, expired_session}
use echohoard.Pairing.Handlers.{begin_commit, connected_session, has_id, without_qr}

-- The sessions, and how many `begin` wait for the answer of `pair`.
pub record Controller : Type 0 where
  pub sessions : List PairingSession
  pub pairing : ℕ

-- `expires` is the end of `expire` after its await, `deletes` a session taken out by `prune` or by a
-- replacement, `connects` and `forgets` the two ends of the follow-sync in `status`, `admits` the count
-- in `begin` with the call of `pair`, and `answers` what `begin` does with the answer.
pub data Segment : Type 0 where
  expires deletes connects forgets : String → Segment
  admits : Segment
  answers : Answers → PairingAccount → String → String → Segment

unfoldable pub change_session :
    String → (PairingSession → PairingSession) → List PairingSession → List PairingSession
change_session id f [] = []
change_session id f (s ∷ ss) =
    let rest = change_session id f ss in (if has_id id s then f s else s) ∷ rest

unfoldable pub delete_session : String → List PairingSession → List PairingSession
delete_session id [] = []
delete_session id (s ∷ ss) =
    let rest = delete_session id ss in if has_id id s then rest else s ∷ rest

-- `activeSessions < this.maxSessions`
unfoldable pub has_capacity : ℕ → List PairingSession → Bool
has_capacity max_sessions ss = ltb (awaiting_count ss) max_sessions

abbrev answered : ℕ → List PairingSession → List PairingSession → Controller
answered zero ss added = record { sessions = ss; pairing = 0 }
answered (suc n) ss added = record { sessions = added; pairing = n }

unfoldable pub step : ℕ → Segment → Controller → Controller
step max_sessions (expires id) c = record c {
  sessions = change_session id expired_session c.sessions;
}
step max_sessions (deletes id) c = record c { sessions = delete_session id c.sessions }
step max_sessions (connects id) c = record c {
  sessions = change_session id connected_session c.sessions;
}
step max_sessions (forgets id) c = record c { sessions = change_session id without_qr c.sessions }
step max_sessions admits c =
    if has_capacity max_sessions c.sessions then record c { pairing = suc c.pairing } else c
step max_sessions (answers w a archive account) c =
    answered c.pairing c.sessions (begin_commit w a archive account c.sessions).0

unfoldable pub run_segments : ℕ → List Segment → Controller → Controller
run_segments max_sessions [] c = c
run_segments max_sessions (g ∷ gs) c = run_segments max_sessions gs (step max_sessions g c)
