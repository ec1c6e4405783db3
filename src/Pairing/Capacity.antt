-- ===== src/Pairing/Capacity.antt =====
-- How many sessions may wait at once: src/application/account-pairing.ts, over any interleaving.
use echohoard.Base.{
  All, Bool-cases, List, Option, String, [], arith, inl, inr, ltb, none, some, suc, zero, ℕ, ◌++◌,
  ◌+◌, ◌<◌, ◌∷◌, ◌≡◌, ◌≤◌,
}
use echohoard.Pairing.{Answers, PairingAccount, PairingSession, awaiting_count, expired_session}
use echohoard.Pairing.Handlers.{
  begin_commit, connected_session, is_oversized, new_session, paired, without_qr,
}
use echohoard.Pairing.Segments.{
  Controller, Segment, admits, answers, connects, deletes, expires, forgets, has_capacity,
  run_segments, step,
}
use echohoard.Pairing.Invariant.{
  IsClean, IsSmaller, change_session-IsSmaller, connected-IsSmaller, delete_session-IsSmaller,
  expired-IsSmaller, waits, without_qr-IsSmaller,
}

-- At most so many sessions wait or are about to, and those that do not wait hold no code.
pub record IsBounded (bound : ℕ) (c : Controller) : Type 0 where
  pub few : awaiting_count c.sessions + c.pairing ≤ bound
  pub clean : All IsClean c.sessions

-- Never more than so many `begin` wait for the answer of `pair`.
unfoldable pub IsCalm : ℕ → ℕ → List Segment → Controller → Type 0
IsCalm limit max_sessions [] c = c.pairing ≤ limit
IsCalm limit max_sessions (g ∷ gs) c =
    (c.pairing ≤ limit) × IsCalm limit max_sessions gs (step max_sessions g c)

calm_now :
    (limit max_sessions : ℕ) (gs : List Segment) (c : Controller)
    → IsCalm limit max_sessions gs c
    → c.pairing ≤ limit
unfolding IsCalm
calm_now limit max_sessions [] c h = h
calm_now limit max_sessions (g ∷ gs) c h = h.0

smaller-IsBounded :
    (bound : ℕ) (c : Controller) (ts : List PairingSession)
    → IsSmaller c.sessions ts
    → IsBounded bound c
    → IsBounded bound (record c { sessions = ts })
unfolding IsSmaller
smaller-IsBounded bound c ts h b = record { few = omega (arith, h.0, b.few); clean = h.1 b.clean }

awaiting_count-append :
    (ss : List PairingSession) (s : PairingSession)
    → awaiting_count (ss ++ (s ∷ [])) ≡ awaiting_count ss + waits s
unfolding awaiting_count
awaiting_count-append [] s = omega arith
awaiting_count-append (t ∷ ss) s = omega (arith, awaiting_count-append ss s)

All-append :
    (P : PairingSession → Type 0) (ss : List PairingSession) (s : PairingSession)
    → All P ss
    → P s
    → All P (ss ++ (s ∷ []))
All-append P [] s h p = (p, tt)
All-append P (t ∷ ss) s h p = (h.0, All-append P ss s h.1 p)

-- The answer of `pair` adds one session at most.
paired-few :
    (w : Answers) (a : PairingAccount) (archive account : String) (qr : Option String)
    (ss : List PairingSession)
    → All IsClean ss
    → (awaiting_count (paired w a archive account qr ss).0 ≤ suc (awaiting_count ss))
      × All IsClean (paired w a archive account qr ss).0
unfolding IsClean
paired-few w a archive account none ss clean = (omega arith, clean)
paired-few w a archive account (some qr) ss clean = elim (Bool-cases (is_oversized qr)) [
  | inl long ↦ rw long (omega arith, clean)
  | inr short ↦
      let s = new_session w a archive account qr in
      rw short
        (omega (arith, awaiting_count-append ss s), All-append IsClean ss s clean (λ h. cc h))
]

answers-IsBounded :
    (bound max_sessions : ℕ) (w : Answers) (a : PairingAccount) (archive account : String)
    (ss : List PairingSession) (n : ℕ)
    → IsBounded bound (record { sessions = ss; pairing = n })
    → IsBounded bound
        (step max_sessions (answers w a archive account) (record { sessions = ss; pairing = n }))
unfolding step begin_commit
answers-IsBounded bound max_sessions w a archive account ss zero b = b
answers-IsBounded bound max_sessions w a archive account ss (suc n) b =
    let (few, clean) = paired-few w a archive account w.pair ss b.clean in
    record { few = omega (arith, few, b.few); clean = clean }

admits-IsBounded :
    (max_sessions k : ℕ) (c : Controller)
    → (step max_sessions admits c).pairing ≤ suc k
    → IsBounded (max_sessions + k) c
    → IsBounded (max_sessions + k) (step max_sessions admits c)
unfolding step has_capacity
admits-IsBounded max_sessions k c calm b =
    elim (Bool-cases (ltb (awaiting_count c.sessions) max_sessions)) [
      | inr full ↦ rw full b
      | inl room ↦
          let few : suc c.pairing ≤ suc k = rw room at calm in
          let fewer : awaiting_count c.sessions < max_sessions = ground (arith, room) in
          rw room (record { few = omega (arith, few, fewer); clean = b.clean })
    ]

step-IsBounded :
    (max_sessions k : ℕ) (g : Segment) (c : Controller)
    → (step max_sessions g c).pairing ≤ suc k
    → IsBounded (max_sessions + k) c
    → IsBounded (max_sessions + k) (step max_sessions g c)
unfolding step
step-IsBounded max_sessions k (expires id) c calm b =
    smaller-IsBounded (max_sessions + k) c _
      (change_session-IsSmaller id expired_session c.sessions expired-IsSmaller) b
step-IsBounded max_sessions k (deletes id) c calm b =
    smaller-IsBounded (max_sessions + k) c _ (delete_session-IsSmaller id c.sessions) b
step-IsBounded max_sessions k (connects id) c calm b =
    smaller-IsBounded (max_sessions + k) c _
      (change_session-IsSmaller id connected_session c.sessions connected-IsSmaller) b
step-IsBounded max_sessions k (forgets id) c calm b =
    smaller-IsBounded (max_sessions + k) c _
      (change_session-IsSmaller id without_qr c.sessions without_qr-IsSmaller) b
step-IsBounded max_sessions k admits c calm b = admits-IsBounded max_sessions k c calm b
step-IsBounded max_sessions k (answers w a archive account) c calm b =
    answers-IsBounded (max_sessions + k) max_sessions w a archive account c.sessions c.pairing b

-- However the stretches of all handlers interleave: if never more than `k + 1` pairings wait for the
-- answer of the sidecar at the same time, at most `max_sessions + k` sessions wait for their code to be
-- scanned, those that are about to counted in, and a session that does not wait holds no code, if that
-- was so at the start. So the limit itself holds where pairings come one after another.
pub run_segments-IsBounded :
    (max_sessions k : ℕ) (gs : List Segment) (c : Controller)
    → IsCalm (suc k) max_sessions gs c
    → IsBounded (max_sessions + k) c
    → IsBounded (max_sessions + k) (run_segments max_sessions gs c)
unfolding run_segments IsCalm
run_segments-IsBounded max_sessions k [] c calm b = b
run_segments-IsBounded max_sessions k (g ∷ gs) c calm b =
    let next = step max_sessions g c in
    run_segments-IsBounded max_sessions k gs next calm.1
      (step-IsBounded max_sessions k g c (calm_now (suc k) max_sessions gs next calm.1) b)
