-- ===== src/Jobs/Tests.antt =====
-- Concrete runs of the import queue, and the theorems about it at concrete inputs.
use echohoard.Base.{[], arith, eq_iff, err, false, map, none, ok, refl, some, true, ℕ, ◌∷◌, ◌≡◌}
use echohoard.Jobs.States.{JobStatus, decrypting, importing, queued}
use echohoard.Jobs.Failure.{adaptation, to_failure}
use echohoard.Jobs.Table.{JobRow, claimable, known, lease_fence, without_lease}
use echohoard.Jobs.Store.{completed_move, list_eligible, transition}
use echohoard.Jobs.Leases.{acquire, is_stale}
use echohoard.Jobs.History.{
  History, acquires, execute, mark_completed, marks, recovers, releases, row_of, run,
}
use echohoard.Jobs.History.Ownership.{acquire-held, held-run}
use echohoard.Jobs.History.Settled.{release-orphans}
use echohoard.Jobs.History.Fencing.{recovered-fenced}
use echohoard.Jobs.History.Progress.{claim-InTurn, pipeline, worker}

abbrev waiting : JobRow
waiting = record {
  id = "job-1";
  archive_id = "archive-1";
  owned_account_id = "account-1";
  source_id = "source-1";
  snapshot_id = some "snapshot-1";
  captured_at = some 900;
  status = known queued;
  adapter_version = none;
  outcome = none;
  error_class = none;
  retryable = none;
  lease_id = none;
  lease_owner = none;
  lease_expires_at = none;
  started_at = none;
  finished_at = none;
  created_at = 1000;
  updated_at = 1000;
}

abbrev importing_row : JobRow
importing_row = record waiting {
  status = known importing;
  lease_id = some "lease-a";
  lease_owner = some "worker-a";
  lease_expires_at = some 5000;
}

abbrev decrypting_row : JobRow
decrypting_row = record importing_row { status = known decrypting }

abbrev second : JobRow
second = record waiting { id = "job-2"; created_at = 1001 }

abbrev intruders : History
intruders =
    (2000, acquires "job-1" "worker-b" 500 "lease-b")
    ∷ (2001, marks mark_completed "job-1" "lease-b")
    ∷ (2002, recovers)
    ∷ (2003, releases "lease-b")
    ∷ []

full_run :
    map
      (λ r. r.status)
      (run
        ((2000, acquires "job-1" "w" 900 "lease-c") ∷ worker "job-1" "lease-c" (pipeline 2000 "v1"))
        (waiting ∷ second ∷ []))
    ≡ known JobStatus.completed ∷ known queued ∷ []
unfolding run execute acquire transition
full_run = refl

oldest_first :
    list_eligible (λ a b. true) 5 1500 (second ∷ importing_row ∷ waiting ∷ [])
    ≡ "job-1" ∷ "job-2" ∷ []
unfolding list_eligible
oldest_first = refl

diagnosed :
    (to_failure (record { kind = some "io"; phase = none }) adaptation).diagnostic
    ≡ "adaptation retryable failure (io)"
unfolding to_failure
diagnosed = refl

held-run_example : row_of "job-1" (run intruders (importing_row ∷ second ∷ [])) ≡ some importing_row
held-run_example =
    held-run "job-1" "lease-a" 5000 intruders (importing_row ∷ second ∷ []) importing_row refl
      (refl, refl) (ground (arith, eq_iff "lease-a" "lease-b"))

acquire-held_example :
    acquire "job-1" "worker-b" 500 "lease-b" 2000 (importing_row ∷ second ∷ [])
    ≡ (importing_row ∷ second ∷ [], ok none)
acquire-held_example =
    acquire-held "job-1" "lease-a" "worker-b" "lease-b" 5000 2000 500 (importing_row ∷ second ∷ [])
      refl (omega arith) (ground (arith, eq_iff "job-2" "job-1"))

release-orphans_example :
    let q : JobRow = record (without_lease importing_row) { updated_at = 1999 } in
    (row_of "job-1" (run ((1999, releases "lease-a") ∷ intruders) (importing_row ∷ second ∷ []))
      ≡ some q)
    × (q.status ≡ importing_row.status)
    × ((later : ℕ) → (claimable later q ≡ false) × (is_stale later q ≡ false))
release-orphans_example =
    release-orphans "job-1" "lease-a" 1999 intruders (importing_row ∷ second ∷ []) importing_row
      refl (record { same_lease = refl; live = refl }) refl

recovered-fenced_example :
    let table = run ((5000, recovers) ∷ intruders) (importing_row ∷ second ∷ []) in
    transition "job-1" "lease-a" completed_move 6000 table ≡ (table, err lease_fence)
recovered-fenced_example =
    recovered-fenced "job-1" "lease-a" mark_completed 5000 6000 intruders
      (importing_row ∷ second ∷ []) (ground (arith, eq_iff "job-2" "job-1"))
      (ground (arith, eq_iff "lease-a" "lease-b"))

claim-InTurn_example :
    (q : JobRow) × (row_of "job-1" (
        run
          ((2000, acquires "job-1" "w" 900 "lease-c")
            ∷ worker "job-1" "lease-c" (pipeline 2000 "v1"))
          (waiting ∷ second ∷ []))
      ≡ some q)
    × (q.status ≡ known JobStatus.completed)
claim-InTurn_example =
    claim-InTurn "job-1" "w" "lease-c" 900 2000 queued (waiting ∷ second ∷ []) waiting
      (pipeline 2000 "v1") refl refl refl refl (ground arith)
