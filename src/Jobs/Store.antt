-- ===== src/Jobs/Store.antt =====
-- src/infrastructure/db/worker-persistence.ts, `PrismaDecryptJobStore`. A statement reads the database's
-- clock once, as `now`.
use echohoard.Base.{
  Bool, List, Option, Result, String, [], false, find, if◌then◌else◌, is_some_of, ltb, map, max,
  min, nat_eq, none, not, require, some, string_eq, take, true, truthy, ℕ, ◌&&◌, ◌==◌, ◌||◌, ◌∷◌,
}
use echohoard.Jobs.States.{
  ImportJob, JobStatus, adapting, decrypting, finalizing, importing, job_status_eq, leased, queued,
}
use echohoard.Jobs.Failure.{Failure}
use echohoard.Jobs.Table.{
  JobRow, StoreError, active_statuses, claimable, exactly_one, expires_after, foreign, is_true,
  known, lease_fence, returning, status_in, update_where, without_lease,
}

pub record Move : Type 0 where
  pub from : List JobStatus
  pub to : JobStatus
  pub assign : ℕ → JobRow → JobRow
  pub allow_retryable_failed : Bool

-- `job.status <> 'failed' OR COALESCE(job.retryable, false) = true`
abbrev pub may_leave_failed : Bool → JobRow → Bool
may_leave_failed false r = true
may_leave_failed true r = not (status_in r.status (JobStatus.failed ∷ [])) || is_true r.retryable

abbrev pub move_applies : String → String → Move → ℕ → JobRow → Bool
move_applies job lease m now r =
    r.id == job
    && is_some_of r.lease_id lease
    && expires_after now r.lease_expires_at
    && status_in r.status m.from
    && may_leave_failed m.allow_retryable_failed r

abbrev pub move_row : Move → ℕ → JobRow → JobRow
move_row m now r = record (m.assign now r) { status = known m.to; updated_at = now }

-- The table after the statement, and whether `transition` returned or threw.
unfoldable pub transition :
    String → String → Move → ℕ → List JobRow → List JobRow × Result StoreError (Unit {0})
transition job lease m now rows =
    let p = move_applies job lease m now in
    (update_where p (move_row m now) rows, require (exactly_one (returning p rows)) lease_fence)

abbrev start : ℕ → JobRow → JobRow
start now r = record r { started_at = some now }

abbrev unchanged : ℕ → JobRow → JobRow
unchanged now r = r

abbrev pub leased_move : Move
leased_move = record {
  from = queued ∷ JobStatus.failed ∷ [];
  to = leased;
  assign = start;
  allow_retryable_failed = true;
}

abbrev pub decrypting_move : Move
decrypting_move = record {
  from = leased ∷ [];
  to = decrypting;
  assign = start;
  allow_retryable_failed = false;
}

abbrev pub adapting_move : Move
adapting_move = record {
  from = decrypting ∷ [];
  to = adapting;
  assign = unchanged;
  allow_retryable_failed = false;
}

abbrev pub importing_move : String → Move
importing_move version = record {
  from = adapting ∷ [];
  to = importing;
  assign = λ now r. record r { adapter_version = some version };
  allow_retryable_failed = false;
}

abbrev pub finalizing_move : Move
finalizing_move = record {
  from = importing ∷ [];
  to = finalizing;
  assign = unchanged;
  allow_retryable_failed = false;
}

abbrev pub completed_move : Move
completed_move = record {
  from = decrypting ∷ finalizing ∷ [];
  to = JobStatus.completed;
  assign = λ now r. without_lease (record r { finished_at = some now; retryable = some false });
  allow_retryable_failed = false;
}

abbrev pub failed_move : Failure → Move
failed_move f = record {
  from = active_statuses;
  to = JobStatus.failed;
  assign = λ now r. without_lease (record r {
    error_class = some f.failure_class;
    retryable = some f.retryable;
    outcome = some f.diagnostic;
    finished_at = some now;
  });
  allow_retryable_failed = false;
}

-- `toImportJob`
unfoldable pub to_import_job : JobRow → Option ImportJob
to_import_job r = elim r.status [
  | foreign _ ↦ none
  | known status ↦ some (record {
    id = r.id;
    archive_id = some r.archive_id;
    owned_account_id = some r.owned_account_id;
    source_id = some r.source_id;
    snapshot_id = truthy r.snapshot_id;
    status = status;
    lease = truthy r.lease_id;
    retryable = r.retryable;
    observed_at = r.captured_at;
    updated_at = r.updated_at;
  })
]

-- `PrismaDecryptJobStore.get`
unfoldable pub get : String → List JobRow → Option ImportJob
unfolding to_import_job
get job rows = elim (find (λ r. r.id == job) rows) [ none ↦ none | some r ↦ to_import_job r ]

-- `ORDER BY "createdAt" ASC, id ASC`, where `before` is the order of the ids.
module _ (before : String → String → Bool) where
  pub insert_row : JobRow → List JobRow → List JobRow
  insert_row r [] = r ∷ []
  insert_row r (q ∷ rows) =
      if ltb r.created_at q.created_at || (r.created_at == q.created_at && before r.id q.id)
      then r ∷ q ∷ rows
      else q ∷ insert_row r rows

  pub sort_rows : List JobRow → List JobRow
  unfolding insert_row
  sort_rows [] = []
  sort_rows (r ∷ rows) = insert_row r (sort_rows rows)

  unfoldable pub list_eligible : ℕ → ℕ → List JobRow → List String
  unfolding sort_rows
  list_eligible limit now rows =
      map (λ r. r.id) (take (max 1 (min 100 limit)) (sort_rows (returning (claimable now) rows)))
