-- ===== src/Jobs/Table.antt =====
-- src/infrastructure/db/worker-persistence.ts: the rows of "ImportJob" and what its statements test.
use echohoard.Base.{
  Bool, List, Option, String, [], any, false, filter, if◌then◌else◌, leb, ltb, map, nat_eq, none,
  some, string_eq, true, ℕ, ◌&&◌, ◌==◌, ◌||◌, ◌∷◌,
}
use echohoard.Jobs.States.{
  JobStatus, adapting, decrypting, finalizing, importing, job_status_eq, leased, queued,
}
use echohoard.Jobs.Failure.{JobFailureClass}

-- The text in the column "status": one of `JOB_STATUSES`, or some other.
pub data StoredStatus : Type 0 where
  known : JobStatus → StoredStatus
  foreign : String → StoredStatus

pub record JobRow : Type 0 where
  pub id : String
  pub archive_id : String
  pub owned_account_id : String
  pub source_id : String
  pub snapshot_id : Option String
  pub captured_at : Option ℕ
  pub status : StoredStatus
  pub adapter_version : Option String
  pub outcome : Option String
  pub error_class : Option JobFailureClass
  pub retryable : Option Bool
  pub lease_id : Option String
  pub lease_owner : Option String
  pub lease_expires_at : Option ℕ
  pub started_at : Option ℕ
  pub finished_at : Option ℕ
  pub created_at : ℕ
  pub updated_at : ℕ

-- `status IN (...)`
abbrev pub status_in : StoredStatus → List JobStatus → Bool
status_in (known s) from = any (λ t. t == s) from
status_in (foreign _) from = false

-- `COALESCE(retryable, false) = true`
abbrev pub is_true : Option Bool → Bool
is_true none = false
is_true (some b) = b

-- `expiry > now`, not true on NULL.
abbrev pub expires_after : ℕ → Option ℕ → Bool
expires_after now none = false
expires_after now (some e) = ltb now e

-- `expiry IS NULL OR expiry <= now`
abbrev pub null_or_expired : ℕ → Option ℕ → Bool
null_or_expired now none = true
null_or_expired now (some e) = leb e now

abbrev pub active_statuses : List JobStatus
active_statuses = leased ∷ decrypting ∷ adapting ∷ importing ∷ finalizing ∷ []

-- `UPDATE ... SET f WHERE p`
abbrev pub update_where : (JobRow → Bool) → (JobRow → JobRow) → List JobRow → List JobRow
update_where p f = map (λ r. if p r then f r else r)

-- `RETURNING` the rows that `WHERE p` chose, as they were.
abbrev pub returning : (JobRow → Bool) → List JobRow → List JobRow
returning p rows = filter p rows

-- A statement that another runner may have made pointless.
pub data StoreError : Type 0 where
  lease_fence : StoreError
  bad_duration : StoreError

-- `result.length !== 1`
abbrev pub exactly_one : List JobRow → Bool
exactly_one [] = false
exactly_one (r ∷ []) = true
exactly_one (r ∷ q ∷ rest) = false

abbrev pub without_lease : JobRow → JobRow
without_lease r = record r { lease_id = none; lease_owner = none; lease_expires_at = none }

-- A job may be claimed: it waits, and nobody holds it.
abbrev pub claimable : ℕ → JobRow → Bool
claimable now r =
    (status_in r.status (queued ∷ [])
      || (status_in r.status (JobStatus.failed ∷ []) && is_true r.retryable))
    && null_or_expired now r.lease_expires_at
