-- ===== src/Jobs/History/Progress.antt =====
-- What a worker that keeps its lease achieves: src/infrastructure/db/worker-persistence.ts.
use echohoard.Base.{
  Bool, Bool-cases, List, String, [], ap, arith, eq_iff, false, inl, inr, map, nat_eq, refl, some,
  string_eq, true, ℕ, ◌+◌, ◌<◌, ◌==◌, ◌∙◌, ◌∷◌, ◌≡◌,
}
use echohoard.Jobs.Table.{JobRow, claimable, is_true, known, status_in}
use echohoard.Jobs.States.{JobStatus, job_index_iff, job_status_eq}
use echohoard.Jobs.Leases.{valid_duration}
use echohoard.Jobs.History.{
  History, Mark, acquires, execute_row, mark_adapting, mark_completed, mark_decrypting, mark_failed,
  mark_finalizing, mark_importing, mark_leased, mark_row, marks, move_of, row_of, row_of-id,
  row_of-run, run, run_row,
}
use echohoard.Jobs.Store.{may_leave_failed, move_row}

abbrev claimed : String → String → ℕ → ℕ → JobRow → JobRow
claimed owner lease duration now r = record r {
  lease_id = some lease;
  lease_owner = some owner;
  lease_expires_at = some (now + duration);
  updated_at = now;
}

acquire_row :
    (job owner lease : String) (duration now : ℕ) (r : JobRow)
    → r.id ≡ job
    → valid_duration duration ≡ true
    → claimable now r ≡ true
    → execute_row now (acquires job owner duration lease) r ≡ claimed owner lease duration now r
unfolding execute_row
acquire_row job owner lease duration now r same valid free =
    let match_id : (r.id == job) ≡ true = (eq_iff r.id job).1 same in rw (valid, match_id, free)

-- The statements of one worker on one job, at given times.
abbrev pub worker : String → String → List (ℕ × Mark) → History
worker job lease = map (λ (t : ℕ × Mark). (t.0, marks t.1 job lease))

abbrev pub is_terminal : JobStatus → Bool
is_terminal s = status_in (known s) (JobStatus.completed ∷ JobStatus.failed ∷ [])

-- The marks follow one another from a status, all before the lease runs out; a mark that ends the
-- job is the last.
abbrev pub InTurn : ℕ → JobStatus → List (ℕ × Mark) → Type 0
InTurn e from [] = Unit
InTurn e from ((now, m) ∷ later) =
    (now < e)
    × (status_in (known from) (move_of m).from ≡ true)
    × (is_terminal (move_of m).to ≡ true → later ≡ [])
    × InTurn e (move_of m).to later

abbrev pub last_status : JobStatus → List (ℕ × Mark) → JobStatus
last_status from [] = from
last_status from ((now, m) ∷ later) = last_status (move_of m).to later

abbrev pub pipeline : ℕ → String → List (ℕ × Mark)
pipeline start version =
    (start + 1, mark_leased)
    ∷ (start + 2, mark_decrypting)
    ∷ (start + 3, mark_adapting)
    ∷ (start + 4, mark_importing version)
    ∷ (start + 5, mark_finalizing)
    ∷ (start + 6, mark_completed)
    ∷ []

-- The worker holds the job under the lease until `e`, and the job is at a status.
record IsAt (job lease : String) (e : ℕ) (from : JobStatus) (r : JobRow) : Type 0 where
  same : r.id ≡ job
  lease_held : r.lease_id ≡ some lease
  until : r.lease_expires_at ≡ some e
  at : r.status ≡ known from
  again : from ≡ JobStatus.failed → is_true r.retryable ≡ true

leave_failed :
    (b : Bool) (from : JobStatus) (r : JobRow)
    → r.status ≡ known from
    → (from ≡ JobStatus.failed → is_true r.retryable ≡ true)
    → may_leave_failed b r ≡ true
leave_failed false from r e again = refl
leave_failed true from r e again = elim (Bool-cases (from == JobStatus.failed)) [
  | inl failed_once ↦
      let h = again ((job_index_iff from JobStatus.failed).0 failed_once) in ground arith
  | inr other ↦ ground arith
]

mark-IsAt :
    (m : Mark) (job lease : String) (e now : ℕ) (from : JobStatus) (r : JobRow)
    → IsAt job lease e from r
    → now < e
    → status_in (known from) (move_of m).from ≡ true
    → execute_row now (marks m job lease) r ≡ move_row (move_of m) now r
mark-IsAt m job lease e now from r h before fits =
    mark_row m job lease now r h.same
      (record { same_lease = h.lease_held; live = rw (h.until) (ground arith) }) (rw (h.at) fits)
      (leave_failed _ from r h.at h.again)

move-IsAt :
    (m : Mark) (job lease : String) (e now : ℕ) (from : JobStatus) (r : JobRow)
    → IsAt job lease e from r
    → is_terminal (move_of m).to ≡ false
    → IsAt job lease e (move_of m).to (move_row (move_of m) now r)
move-IsAt mark_leased job lease e now from r h t = ground arith
move-IsAt mark_decrypting job lease e now from r h t = ground arith
move-IsAt mark_adapting job lease e now from r h t = ground arith
move-IsAt (mark_importing version) job lease e now from r h t = ground arith
move-IsAt mark_finalizing job lease e now from r h t = ground arith
move-IsAt mark_completed job lease e now from r h t = cc
move-IsAt (mark_failed f) job lease e now from r h t = cc

worker-InTurn :
    (job lease : String) (e : ℕ) (ts : List (ℕ × Mark)) (from : JobStatus) (r : JobRow)
    → IsAt job lease e from r
    → InTurn e from ts
    → (run_row (worker job lease ts) r).status ≡ known (last_status from ts)
unfolding run_row
worker-InTurn job lease e [] from r h turn = h.at
worker-InTurn job lease e ((now, m) ∷ later) from r h (before, fits, last, turn) =
    ap (λ x. (run_row (worker job lease later) x).status)
      (mark-IsAt m job lease e now from r h before fits)
    ∙ elim (Bool-cases (is_terminal (move_of m).to)) [
      | inl ends ↦ rw (last ends) refl
      | inr goes_on ↦
          worker-InTurn job lease e later (move_of m).to (move_row (move_of m) now r)
            (move-IsAt m job lease e now from r h goes_on) turn
    ]

claimable-again :
    (now : ℕ) (r : JobRow)
    → claimable now r ≡ true
    → r.status ≡ known JobStatus.failed
    → is_true r.retryable ≡ true
claimable-again now r free e = ground arith

claimed-IsAt :
    (job owner lease : String) (duration now : ℕ) (from : JobStatus) (r : JobRow)
    → r.id ≡ job
    → r.status ≡ known from
    → claimable now r ≡ true
    → IsAt job lease (now + duration) from (claimed owner lease duration now r)
claimed-IsAt job owner lease duration now from r same at free = record {
  same = same;
  lease_held = refl;
  until = refl;
  at = at;
  again = λ e. claimable-again now r free (at ∙ ap known e);
}

-- A worker that claims a claimable job, and issues its marks in turn before the lease runs out,
-- takes the job to the status of its last mark.
pub claim-InTurn :
    (job owner lease : String) (duration now : ℕ) (from : JobStatus) (rows : List JobRow)
    (r : JobRow) (ts : List (ℕ × Mark))
    → row_of job rows ≡ some r
    → r.status ≡ known from
    → valid_duration duration ≡ true
    → claimable now r ≡ true
    → InTurn (now + duration) from ts
    → (q : JobRow) × (row_of job
          (run ((now, acquires job owner duration lease) ∷ worker job lease ts) rows)
        ≡ some q)
      × (q.status ≡ known (last_status from ts))
unfolding run_row
claim-InTurn job owner lease duration now from rows r ts found at valid free turn =
    let same = row_of-id job rows r found in
    let q : JobRow = claimed owner lease duration now r in
    (
      run_row (worker job lease ts) q,
      row_of-run job ((now, acquires job owner duration lease) ∷ worker job lease ts) rows found
          ∙ ap (λ x. some (run_row (worker job lease ts) x))
              (acquire_row job owner lease duration now r same valid free),
      worker-InTurn job lease (now + duration) ts from q
          (claimed-IsAt job owner lease duration now from r same at free) turn,
    )
