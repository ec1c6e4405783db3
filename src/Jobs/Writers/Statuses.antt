-- ===== src/Jobs/Writers/Statuses.antt =====
-- How the statements that write to "ImportJob" move the status of a job, against the table
-- `jobTransitions` of src/application/echohoard.ts.
use echohoard.Base.{
  Bool-cases, List, String, [], ap, arith, eq_iff, inl, inr, refl, some, sym, true, ℕ, ◌∙◌, ◌∷◌,
  ◌≡◌,
}
use echohoard.Jobs.States.{JobStatus, job_allows, queued}
use echohoard.Jobs.Table.{JobRow, known, without_lease}
use echohoard.Jobs.Leases.{is_stale}
use echohoard.Jobs.History.{Statement, execute_row, recovers, row_of, row_of-run, run, run_row}
use echohoard.Jobs.History.Moves.{Moved, along, execute-Moved, recovered, stayed}
use echohoard.Jobs.Writers.{
  Write, complete_import, complete_live, completed_row, exclude, excludes, import_completes,
  import_ends, is_job, live_begins, live_completes, row_of-begin_live, row_of-update, statement,
  write,
}

-- How a status may change: not at all, along the table, back to the queue by recovery, or to completed
-- by the end of an import without a lease.
pub data Changed (now : ℕ) (w : Write) (r : JobRow) (from to : JobStatus) : Type 0 where
  kept : from ≡ to → Changed now w r from to
  allowed : job_allows from to ≡ true → Changed now w r from to
  requeued : w ≡ statement recovers → is_stale now r ≡ true → to ≡ queued → Changed now w r from to
  live_ended :
      w ≡ live_completes r.archive_id r.id → to ≡ JobStatus.completed → Changed now w r from to

Moved-Changed :
    (now : ℕ) (s : Statement) (r : JobRow) (from to : JobStatus)
    → Moved now s r from to
    → Changed now (statement s) r from to
Moved-Changed now s r from to (stayed e) = kept e
Moved-Changed now s r from to (along e) = allowed e
Moved-Changed now s r from to (recovered e stale e') = requeued (ap statement e) stale e'

abbrev pub IsChanged : String → ℕ → Write → List JobRow → JobRow → JobStatus → Type 0
IsChanged job now w rows r from =
    (q : JobRow) × (to : JobStatus) × (row_of job (write now w rows) ≡ some q)
    × (q.status ≡ known to)
    × Changed now w r from to

-- Every statement that writes to the table keeps the known status of a job known and moves it along the
-- table of transitions, with two exceptions: recovery puts a job whose lease has run out back into the
-- queue from any active status, and the end of an import without a lease completes its own job from any
-- status.
pub write-Changed :
    (job : String) (now : ℕ) (w : Write) (rows : List JobRow) (r : JobRow) (from : JobStatus)
    → row_of job rows ≡ some r
    → r.status ≡ known from
    → IsChanged job now w rows r from
unfolding write run run_row complete_import complete_live exclude
write-Changed job now (statement s) rows r from found e =
    let (to, status, moved) = execute-Moved now s r from e in
    (
      execute_row now s r,
      to,
      row_of-run job ((now, s) ∷ []) rows found,
      status,
      Moved-Changed now s r from to moved,
    )
write-Changed job now (import_completes archive id lease) rows r from found e =
    let updated =
      row_of-update job (import_ends archive id lease now)
        (λ q. without_lease (completed_row now q)) rows r (λ q. refl) found in
    elim (Bool-cases (import_ends archive id lease now r)) [
      | inl ends ↦ (
        without_lease (completed_row now r),
        JobStatus.completed,
        updated ∙ rw ends refl,
        refl,
        allowed (ground (arith, ends, e)),
      )
      | inr other ↦ (r, from, updated ∙ rw other refl, e, kept refl)
    ]
write-Changed job now (live_begins j) rows r from found e =
    (r, from, row_of-begin_live j job now rows r found, e, kept refl)
write-Changed job now (live_completes archive id) rows r from found e =
    let updated =
      row_of-update job (is_job archive id) (completed_row now) rows r (λ q. refl) found in
    elim (Bool-cases (is_job archive id r)) [
      | inl own ↦
          let scope : archive ≡ r.archive_id =
            sym ((eq_iff r.archive_id archive).0 (ground (arith, own))) in
          let name : id ≡ r.id = sym ((eq_iff r.id id).0 (ground (arith, own))) in
          (
            completed_row now r,
            JobStatus.completed,
            updated ∙ rw own refl,
            refl,
            live_ended
                (ap (λ a. live_completes a id) scope ∙ ap (λ i. live_completes r.archive_id i) name)
                refl,
          )
      | inr other ↦ (r, from, updated ∙ rw other refl, e, kept refl)
    ]
write-Changed job now (excludes archive id) rows r from found e =
    let updated =
      row_of-update job (is_job archive id) (λ q. record q { updated_at = now }) rows r (λ q. refl)
        found in
    elim (Bool-cases (is_job archive id r)) [
      | inl own ↦ (record r { updated_at = now }, from, updated ∙ rw own refl, e, kept refl)
      | inr other ↦ (r, from, updated ∙ rw other refl, e, kept refl)
    ]
