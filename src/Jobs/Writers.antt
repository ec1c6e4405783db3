-- ===== src/Jobs/Writers.antt =====
-- Every statement of the repository that writes to "ImportJob": those of
-- src/infrastructure/db/worker-persistence.ts, the ends of imports and the jobs of live events of
-- src/infrastructure/db/text-import.ts, and the exclusion of src/infrastructure/db/import-exclusion.ts.
pub mod Completed
pub mod Statuses
mod Tests
use echohoard.Base.{
  Bool, Bool-cases, List, String, [], any, false, if◌then◌else◌, inl, inr, is_some_of, nat_eq, none,
  refl, some, string_eq, subst, ℕ, ◌&&◌, ◌++◌, ◌==◌, ◌∷◌, ◌≡◌,
}
use echohoard.Jobs.States.{JobStatus, adapting, completed, finalizing, job_status_eq}
use echohoard.Jobs.Table.{JobRow, expires_after, known, status_in, update_where, without_lease}
use echohoard.Jobs.History.{Statement, execute, row_of}

pub record LiveJob : Type 0 where
  pub archive_id : String
  pub id : String
  pub owned_account_id : String
  pub source_id : String
  pub snapshot_id : String

pub data Write : Type 0 where
  statement : Statement → Write
  import_completes : String → String → String → Write
  live_begins : LiveJob → Write
  live_completes : String → String → Write
  excludes : String → String → Write

abbrev pub is_job : String → String → JobRow → Bool
is_job archive job r = r.archive_id == archive && r.id == job

abbrev pub import_ends : String → String → String → ℕ → JobRow → Bool
import_ends archive job lease now r =
    is_job archive job r
    && is_some_of r.lease_id lease
    && expires_after now r.lease_expires_at
    && status_in r.status (finalizing ∷ [])

abbrev pub completed_row : ℕ → JobRow → JobRow
completed_row now r = record r {
  status = known JobStatus.completed;
  finished_at = some now;
  retryable = some false;
  updated_at = now;
}

-- The end of an import under a lease. Where it finds no row, the code throws, and nothing is changed.
unfoldable pub complete_import : String → String → String → ℕ → List JobRow → List JobRow
complete_import archive job lease now =
    update_where (import_ends archive job lease now) (λ r. without_lease (completed_row now r))

-- The end of an import without a lease.
unfoldable pub complete_live : String → String → ℕ → List JobRow → List JobRow
complete_live archive job now = update_where (is_job archive job) (completed_row now)

abbrev pub live_row : ℕ → LiveJob → JobRow
live_row now j = record {
  id = j.id;
  archive_id = j.archive_id;
  owned_account_id = j.owned_account_id;
  source_id = j.source_id;
  snapshot_id = some j.snapshot_id;
  captured_at = none;
  status = known adapting;
  adapter_version = some "wacli-webhook-contract.v1";
  outcome = none;
  error_class = none;
  retryable = none;
  lease_id = none;
  lease_owner = none;
  lease_expires_at = none;
  started_at = none;
  finished_at = none;
  created_at = now;
  updated_at = now;
}

-- The `upsert`: a job that is there stays as it is; where it is one of another archive, the insert fails
-- at the primary key.
unfoldable pub begin_live : LiveJob → ℕ → List JobRow → List JobRow
begin_live j now rows =
    if any (λ (r : JobRow). r.id == j.id) rows then rows else rows ++ (live_row now j ∷ [])

-- The eligibility, which no other statement here reads, and with it `updatedAt`.
unfoldable pub exclude : String → String → ℕ → List JobRow → List JobRow
exclude archive job now = update_where (is_job archive job) (λ r. record r { updated_at = now })

unfoldable pub write : ℕ → Write → List JobRow → List JobRow
write now (statement s) rows = execute now s rows
write now (import_completes archive job lease) rows = complete_import archive job lease now rows
write now (live_begins j) rows = begin_live j now rows
write now (live_completes archive job) rows = complete_live archive job now rows
write now (excludes archive job) rows = exclude archive job now rows

unfoldable pub write_all : List (ℕ × Write) → List JobRow → List JobRow
write_all [] rows = rows
write_all ((now, w) ∷ later) rows = write_all later (write now w rows)

-- A write that updates rows one by one.
pub row_of-update :
    (job : String) (p : JobRow → Bool) (f : JobRow → JobRow) (rows : List JobRow) (r : JobRow)
    → ((q : JobRow) → (f q).id ≡ q.id)
    → row_of job rows ≡ some r
    → row_of job (update_where p f rows) ≡ some (if p r then f r else r)
row_of-update job p f [] r same e = cc e
row_of-update job p f (q ∷ rows) r same e = elim (Bool-cases (q.id == job)) [
  | inl here ↦
      let head : q ≡ r = cc (rw here at e) in
      subst (λ x. row_of job (update_where p f (q ∷ rows)) ≡ some (if p x then f x else x)) head
        (elim (Bool-cases (p q)) [
          | inl chosen ↦ rw (chosen, same q, here) refl
          | inr other ↦ rw (other, here) refl
        ])
  | inr there ↦
      let rest = row_of-update job p f rows r same (rw there at e) in
      elim (Bool-cases (p q)) [
        | inl chosen ↦ rw (chosen, same q, there) rest
        | inr other ↦ rw (other, there) rest
      ]
]

-- A row that is added behind those that are there.
pub row_of-append :
    (job : String) (rows : List JobRow) (r new : JobRow)
    → row_of job rows ≡ some r
    → row_of job (rows ++ (new ∷ [])) ≡ some r
row_of-append job [] r new e = cc e
row_of-append job (q ∷ rows) r new e = elim (Bool-cases (q.id == job)) [
  | inl here ↦ rw here (rw here at e)
  | inr there ↦ rw there (row_of-append job rows r new (rw there at e))
]

pub row_of-begin_live :
    (j : LiveJob) (job : String) (now : ℕ) (rows : List JobRow) (r : JobRow)
    → row_of job rows ≡ some r
    → row_of job (begin_live j now rows) ≡ some r
unfolding begin_live
row_of-begin_live j job now rows r e = elim (Bool-cases (any (λ (q : JobRow). q.id == j.id) rows)) [
  | inl there ↦ rw there e
  | inr missing ↦ rw missing (row_of-append job rows r (live_row now j) e)
]
