-- ===== src/Jobs/History/Moves.antt =====
-- How the statements of src/infrastructure/db/worker-persistence.ts move the status of a job, against
-- the table `jobTransitions` of src/application/echohoard.ts.
use echohoard.Base.{Bool-cases, String, arith, false, inl, inr, refl, true, ℕ, ◌≡◌, ◌≢◌}
use echohoard.Jobs.States.{JobStatus, job_allows, leased, queued}
use echohoard.Jobs.Table.{JobRow, known}
use echohoard.Jobs.Store.{move_applies}
use echohoard.Jobs.Leases.{is_stale}
use echohoard.Jobs.History.{
  Mark, Statement, acquires, execute_row, mark_adapting, mark_completed, mark_decrypting,
  mark_failed, mark_finalizing, mark_importing, mark_leased, marks, move_of, recovers, releases,
  renews,
}

-- How a status may change: not at all, along the table, or back to the queue by recovery.
pub data Moved (now : ℕ) (s : Statement) (r : JobRow) (from to : JobStatus) : Type 0 where
  stayed : from ≡ to → Moved now s r from to
  along : job_allows from to ≡ true → Moved now s r from to
  recovered : s ≡ recovers → is_stale now r ≡ true → to ≡ queued → Moved now s r from to

mark_move :
    (m : Mark) (job lease : String) (now : ℕ) (r : JobRow) (from : JobStatus)
    → r.status ≡ known from
    → move_applies job lease (move_of m) now r ≡ true
    → job_allows from (move_of m).to ≡ true
mark_move mark_leased job lease now r from e h = ground arith
mark_move mark_decrypting job lease now r from e h = ground arith
mark_move mark_adapting job lease now r from e h = ground arith
mark_move (mark_importing version) job lease now r from e h = ground arith
mark_move mark_finalizing job lease now r from e h = ground arith
mark_move mark_completed job lease now r from e h = ground arith
mark_move (mark_failed f) job lease now r from e h = ground arith

-- Each of these statements keeps a known status known, and moves it along the table of transitions, except
-- that recovery puts a job whose lease has run out back into the queue from any active status.
pub execute-Moved :
    (now : ℕ) (s : Statement) (r : JobRow) (from : JobStatus)
    → r.status ≡ known from
    → (to : JobStatus) × ((execute_row now s r).status ≡ known to) × Moved now s r from to
unfolding execute_row
execute-Moved now (acquires job owner duration l) r from e = (from, ground arith, stayed refl)
execute-Moved now (renews l duration) r from e = (from, ground arith, stayed refl)
execute-Moved now (releases l) r from e = (from, ground arith, stayed refl)
execute-Moved now recovers r from e = elim (Bool-cases (is_stale now r)) [
  | inl stale ↦ (queued, ground arith, recovered refl stale refl)
  | inr fresh ↦ (from, ground arith, stayed refl)
]
execute-Moved now (marks m job l) r from e =
    elim (Bool-cases (move_applies job l (move_of m) now r)) [
      | inl fits ↦ ((move_of m).to, ground arith, along (mark_move m job l now r from e fits))
      | inr other ↦ (from, ground arith, stayed refl)
    ]

-- Recovery takes the four later active statuses back to the queue, and the table allows that from
-- `leased` alone.
pub recover-beyond_table :
    (now : ℕ) (r : JobRow) (from : JobStatus)
    → r.status ≡ known from
    → is_stale now r ≡ true
    → from ≢ leased
    → ((execute_row now recovers r).status ≡ known queued) × (job_allows from queued ≡ false)
unfolding execute_row
recover-beyond_table now r from e stale other = (ground arith, ground arith)
