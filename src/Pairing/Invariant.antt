-- ===== src/Pairing/Invariant.antt =====
-- How the stretches of the handlers change the sessions that wait: src/application/account-pairing.ts.
use echohoard.Base.{
  All, Bool-cases, List, String, [], arith, false, if◌then◌else◌, inl, inr, none, refl, ℕ, ◌∷◌, ◌≡◌,
  ◌≤◌,
}
use echohoard.Pairing.{PairingSession, awaiting_count, expired_session, is_awaiting}
use echohoard.Pairing.Segments.{change_session, delete_session}
use echohoard.Pairing.Handlers.{connected_session, has_id, without_qr}

abbrev pub waits : PairingSession → ℕ
waits s = if is_awaiting s.state then 1 else 0

-- A session that does not wait holds no code.
unfoldable pub IsClean : PairingSession → Type 0
IsClean s = is_awaiting s.state ≡ false → s.qr ≡ none

pub IsSmallerSession : PairingSession → PairingSession → Type 0
IsSmallerSession s t = (waits t ≤ waits s) × (IsClean s → IsClean t)

unfoldable pub IsSmaller : List PairingSession → List PairingSession → Type 0
IsSmaller ss ts = (awaiting_count ts ≤ awaiting_count ss) × (All IsClean ss → All IsClean ts)

pub IsSmaller-refl : (ss : List PairingSession) → IsSmaller ss ss
unfolding IsSmaller
IsSmaller-refl ss = (omega arith, λ h. h)

session_refl : (s : PairingSession) → IsSmallerSession s s
unfolding IsSmallerSession
session_refl s = (omega arith, λ h. h)

IsSmaller-cons :
    (s t : PairingSession) (ss ts : List PairingSession)
    → IsSmallerSession s t
    → IsSmaller ss ts
    → IsSmaller (s ∷ ss) (t ∷ ts)
unfolding IsSmaller IsSmallerSession awaiting_count
IsSmaller-cons s t ss ts h k = (omega (arith, h.0, k.0), λ c. (h.1 c.0, k.1 c.1))

IsSmaller-drop :
    (s : PairingSession) (ss ts : List PairingSession) → IsSmaller ss ts → IsSmaller (s ∷ ss) ts
unfolding IsSmaller awaiting_count
IsSmaller-drop s ss ts k = (omega (arith, k.0), λ c. k.1 c.1)

pub expired-IsSmaller : (s : PairingSession) → IsSmallerSession s (expired_session s)
unfolding IsSmallerSession IsClean
expired-IsSmaller s = (omega arith, λ h e. refl)

pub connected-IsSmaller : (s : PairingSession) → IsSmallerSession s (connected_session s)
unfolding IsSmallerSession IsClean
connected-IsSmaller s = (omega arith, λ h e. refl)

pub without_qr-IsSmaller : (s : PairingSession) → IsSmallerSession s (without_qr s)
unfolding IsSmallerSession IsClean
without_qr-IsSmaller s = (omega arith, λ h e. refl)

-- The changes of the stretches, at the sessions with an id.
pub change_session-IsSmaller :
    (id : String) (f : PairingSession → PairingSession) (ss : List PairingSession)
    → ((s : PairingSession) → IsSmallerSession s (f s))
    → IsSmaller ss (change_session id f ss)
unfolding change_session
change_session-IsSmaller id f [] h = IsSmaller-refl []
change_session-IsSmaller id f (s ∷ ss) h =
    let rest = change_session-IsSmaller id f ss h in
    elim (Bool-cases (has_id id s)) [
      | inl own ↦ rw own (IsSmaller-cons s (f s) ss (change_session id f ss) (h s) rest)
      | inr other ↦ rw other (IsSmaller-cons s s ss (change_session id f ss) (session_refl s) rest)
    ]

pub delete_session-IsSmaller :
    (id : String) (ss : List PairingSession) → IsSmaller ss (delete_session id ss)
unfolding delete_session
delete_session-IsSmaller id [] = IsSmaller-refl []
delete_session-IsSmaller id (s ∷ ss) =
    let rest = delete_session-IsSmaller id ss in
    elim (Bool-cases (has_id id s)) [
      | inl own ↦ rw own (IsSmaller-drop s ss (delete_session id ss) rest)
      | inr other ↦ rw other (IsSmaller-cons s s ss (delete_session id ss) (session_refl s) rest)
    ]
