-- ===== src/Pairing/Tests.antt =====
-- Two accounts of an archive that are paired in turn, and the theorems about pairing at them.
use echohoard.Base.{List, String, [], arith, none, ok, refl, some, true, ℕ, ◌++◌, ◌∷◌, ◌≡◌}
use echohoard.Pairing.{
  Answers, PairingAccount, PairingSession, awaiting_count, awaiting_qr, expire, prune, read_session,
  unpaired,
}
use echohoard.Pairing.Handlers.{begin_commit, new_session, status}
use echohoard.Pairing.Segments.{
  Controller, Segment, admits, answers, change_session, connects, delete_session, deletes, expires,
  has_capacity, run_segments, step,
}
use echohoard.Pairing.Capacity.{IsBounded, IsCalm, run_segments-IsBounded}
use echohoard.Pairing.Codes.{IsTimely, status-IsTimely}

-- A sidecar whose phone is not connected.
abbrev sidecar : ℕ → String → Answers
sidecar now id = record {
  pruned_at = now;
  first_at = now;
  second_at = now;
  cancels = λ s. true;
  health = some unpaired;
  starts = true;
  stops = true;
  pair = some "code";
  new_id = id;
}

abbrev home : PairingAccount
home = record { account_key = "home"; paired_at = none }

abbrev waiting : PairingSession
waiting = new_session (sidecar 100 "first") home "archive" "home" "code"

abbrev nobody : Controller
nobody = record { sessions = []; pairing = 0 }

-- Two accounts find room for one before either has its code; the first session then expires, and its
-- account is paired again.
abbrev crowded : List Segment
crowded =
    admits
    ∷ admits
    ∷ answers (sidecar 100 "first") home "archive" "home"
    ∷ answers (sidecar 110 "second") home "archive" "other"
    ∷ []

abbrev renewed : List Segment
renewed = expires "first" ∷ deletes "first" ∷ admits ∷ connects "second" ∷ admits ∷ []

-- More sessions wait than the limit of one, as both found room before either had its code.
run_crowded : awaiting_count (run_segments 1 crowded nobody).sessions ≡ 2
unfolding run_segments step has_capacity begin_commit awaiting_count
run_crowded = refl

nobody-IsBounded : IsBounded 2 nobody
unfolding awaiting_count
nobody-IsBounded = record { few = omega arith; clean = tt }

crowded-IsCalm : IsCalm 2 1 (crowded ++ renewed) nobody
unfolding IsCalm step has_capacity begin_commit awaiting_count change_session delete_session
crowded-IsCalm = (
  omega arith,
  (
    omega arith,
    (
      omega arith,
      (
        omega arith,
        (omega arith, (omega arith, (omega arith, (omega arith, (omega arith, omega arith))))),
      ),
    ),
  ),
)

run_segments-IsBounded_example : IsBounded 2 (run_segments 1 (crowded ++ renewed) nobody)
run_segments-IsBounded_example =
    run_segments-IsBounded 1 1 (crowded ++ renewed) nobody crowded-IsCalm nobody-IsBounded

waiting-shown :
    (status (sidecar 200 "") "archive" "home" "first" (waiting ∷ [])).1
    ≡ ok (some (read_session waiting unpaired awaiting_qr))
unfolding status prune expire
waiting-shown = refl

read-waiting : (read_session waiting unpaired awaiting_qr).qr ≡ some "code"
unfolding read_session
read-waiting = refl

status-IsTimely_example : IsTimely (sidecar 200 "") (read_session waiting unpaired awaiting_qr)
status-IsTimely_example =
    status-IsTimely (sidecar 200 "") "archive" "home" "first" "code"
      (read_session waiting unpaired awaiting_qr) (waiting ∷ []) waiting-shown read-waiting
