-- ===== src/Jobs/History/Settled.antt =====
-- Rows that no statement changes any more: src/infrastructure/db/worker-persistence.ts.
use echohoard.Jobs.Leases.{is_stale}
use echohoard.Base.{
  List, String, [], ap, arith, eq_iff, false, none, refl, some, true, ℕ, ◌&&◌, ◌∙◌, ◌∷◌, ◌≡◌,
}
use echohoard.Jobs.States.{JobStatus, queued}
use echohoard.Jobs.Table.{JobRow, active_statuses, claimable, is_true, status_in, without_lease}
use echohoard.Jobs.History.{
  History, IsLive, Statement, acquires, execute_row, marks, recovers, releases, renews, row_of,
  row_of-run, run, run_row,
}

-- Nobody holds the job and nobody may claim it.
pub record IsSettled (r : JobRow) : Type 0 where
  pub unheld : r.lease_id ≡ none
  pub not_queued : status_in r.status (queued ∷ []) ≡ false
  pub not_retryable : status_in r.status (JobStatus.failed ∷ []) && is_true r.retryable ≡ false

pub execute_row-settled :
    (now : ℕ) (s : Statement) (r : JobRow) → IsSettled r → execute_row now s r ≡ r
unfolding execute_row
execute_row-settled now (acquires job owner duration l) r h = ground arith
execute_row-settled now (renews l duration) r h = ground arith
execute_row-settled now (releases l) r h = ground arith
execute_row-settled now recovers r h = ground arith
execute_row-settled now (marks m job l) r h = ground arith

run_row-settled : (h : History) (r : JobRow) → IsSettled r → run_row h r ≡ r
unfolding run_row
run_row-settled [] r h = refl
run_row-settled ((now, s) ∷ later) r h =
    rw (execute_row-settled now s r h) (run_row-settled later r h)

settled-run :
    (job : String) (h : History) (rows : List JobRow) (r : JobRow)
    → row_of job rows ≡ some r
    → IsSettled r
    → row_of job (run h rows) ≡ some r
settled-run job h rows r found settled =
    row_of-run job h rows found ∙ ap some (run_row-settled h r settled)

-- `release` finds the lease of a row whatever its status, and clears it.
release_row :
    (lease : String) (now : ℕ) (r : JobRow)
    → IsLive lease now r
    → execute_row now (releases lease) r ≡ record (without_lease r) { updated_at = now }
unfolding execute_row
release_row lease now r live = ground (arith, eq_iff lease lease)

-- A job that is released under a live lease between its start and its end is lost: in every later
-- history of the statements of the job store and its leases, the row keeps its active status and has no
-- lease, so that no claim takes it up and no recovery puts it back into the queue.
pub release-orphans :
    (job lease : String) (now : ℕ) (h : History) (rows : List JobRow) (r : JobRow)
    → row_of job rows ≡ some r
    → IsLive lease now r
    → status_in r.status active_statuses ≡ true
    → let q : JobRow = record (without_lease r) { updated_at = now } in
      (row_of job (run ((now, releases lease) ∷ h) rows) ≡ some q)
      × (q.status ≡ r.status)
      × ((later : ℕ) → (claimable later q ≡ false) × (is_stale later q ≡ false))
unfolding run_row
release-orphans job lease now h rows r found live active = (
  row_of-run job ((now, releases lease) ∷ h) rows found
      ∙ ap some (
          ap (run_row h) (release_row lease now r live)
          ∙ run_row-settled h _
              (record { unheld = refl; not_queued = ground arith; not_retryable = ground arith })),
  refl,
  λ later. (ground arith, ground arith),
)
