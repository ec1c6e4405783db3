-- ===== src/Jobs/Writers/Tests.antt =====
-- A job that its import completes, among other writes to the table, and the theorems at it.
use echohoard.Base.{List, [], none, refl, some, ℕ, ◌∷◌, ◌≡◌}
use echohoard.Jobs.States.{JobStatus, finalizing}
use echohoard.Jobs.Table.{JobRow, known}
use echohoard.Jobs.History.{acquires, recovers, row_of}
use echohoard.Jobs.Writers.{
  LiveJob, Write, excludes, import_completes, live_begins, live_completes, statement, write,
  write_all,
}
use echohoard.Jobs.Writers.Completed.{IsCompleted, by_import, write_all-IsCompleted}
use echohoard.Jobs.Writers.Statuses.{Changed, write-Changed}

abbrev finalizing_row : JobRow
finalizing_row = record {
  id = "job-1";
  archive_id = "archive-1";
  owned_account_id = "account-1";
  source_id = "source-1";
  snapshot_id = some "snapshot-1";
  captured_at = some 900;
  status = known finalizing;
  adapter_version = some "v1";
  outcome = none;
  error_class = none;
  retryable = none;
  lease_id = some "lease-a";
  lease_owner = some "worker-a";
  lease_expires_at = some 5000;
  started_at = some 1500;
  finished_at = none;
  created_at = 1000;
  updated_at = 1000;
}

abbrev live_job : LiveJob
live_job = record {
  archive_id = "archive-1";
  id = "job-2";
  owned_account_id = "account-1";
  source_id = "source-2";
  snapshot_id = "snapshot-2";
}

abbrev imported : Write
imported = import_completes "archive-1" "job-1" "lease-a"

abbrev later_writes : List (ℕ × Write)
later_writes =
    (2100, live_begins live_job)
    ∷ (2200, excludes "archive-1" "job-1")
    ∷ (2300, live_completes "archive-1" "job-1")
    ∷ (6000, statement recovers)
    ∷ (6100, statement (acquires "job-1" "worker-b" 500 "lease-b"))
    ∷ []

write_all-IsCompleted_example :
    (q : JobRow) × (row_of "job-1"
        (write_all ((2000, imported) ∷ later_writes) (finalizing_row ∷ []))
      ≡ some q)
    × IsCompleted q
write_all-IsCompleted_example =
    write_all-IsCompleted "archive-1" "job-1" "lease-a" 2000 imported later_writes
      (finalizing_row ∷ []) finalizing_row by_import refl refl
      (record { same_lease = refl; live = refl }) refl

write-Changed_example :
    (q : JobRow) × (to : JobStatus) × (row_of "job-1"
        (write 2000 (live_completes "archive-1" "job-1") (finalizing_row ∷ []))
      ≡ some q)
    × (q.status ≡ known to)
    × Changed 2000 (live_completes "archive-1" "job-1") finalizing_row finalizing to
write-Changed_example =
    write-Changed "job-1" 2000 (live_completes "archive-1" "job-1") (finalizing_row ∷ [])
      finalizing_row finalizing refl refl
