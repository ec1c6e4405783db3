-- ===== src/Jobs/Writers/Completed.antt =====
-- Completed jobs among all statements that write to "ImportJob".
use echohoard.Base.{
  Bool, Bool-cases, List, String, [], ap, arith, eq_iff, false, inl, inr, is_some_of, nat_eq, none,
  refl, some, string_eq, subst, sym, true, ℕ, ◌&&◌, ◌∙◌, ◌∷◌, ◌≡◌,
}
use echohoard.Jobs.States.{JobStatus, failed, finalizing, job_status_eq, queued}
use echohoard.Jobs.Table.{JobRow, is_true, known, status_in, update_where, without_lease}
use echohoard.Jobs.Store.{completed_move, move_row}
use echohoard.Jobs.History.{
  IsLive, mark_completed, mark_row, marks, row_of, row_of-id, row_of-run, run, run_row,
}
use echohoard.Jobs.History.Settled.{IsSettled, execute_row-settled}
use echohoard.Jobs.Writers.{
  Write, complete_import, complete_live, completed_row, exclude, excludes, import_completes,
  import_ends, is_job, live_begins, live_completes, row_of-begin_live, row_of-update, statement,
  write, write_all,
}

pub record IsCompleted (r : JobRow) : Type 0 where
  pub completed_now : r.status ≡ known JobStatus.completed
  pub not_retried : r.retryable ≡ some false
  pub unheld : r.lease_id ≡ none

-- The row of the job is there and completed.
abbrev pub HasCompleted : String → List JobRow → Type 0
HasCompleted job rows = (r : JobRow) × (row_of job rows ≡ some r) × IsCompleted r

completed-IsSettled : (r : JobRow) → IsCompleted r → IsSettled r
completed-IsSettled r c = record {
  unheld = c.unheld;
  not_queued = subst (λ s. status_in s (queued ∷ []) ≡ false) (sym c.completed_now) refl;
  not_retryable =
      subst (λ s. (status_in s (failed ∷ []) && is_true r.retryable) ≡ false) (sym c.completed_now)
        refl;
}

update-HasCompleted :
    (job : String) (p : JobRow → Bool) (f : JobRow → JobRow) (rows : List JobRow)
    → ((q : JobRow) → (f q).id ≡ q.id)
    → ((q : JobRow) → IsCompleted q → IsCompleted (f q))
    → HasCompleted job rows
    → HasCompleted job (update_where p f rows)
update-HasCompleted job p f rows same keeps (r, found, c) = elim (Bool-cases (p r)) [
  | inl chosen ↦ (f r, row_of-update job p f rows r same found ∙ rw chosen refl, keeps r c)
  | inr other ↦ (r, row_of-update job p f rows r same found ∙ rw other refl, c)
]

write-HasCompleted :
    (job : String) (now : ℕ) (w : Write) (rows : List JobRow)
    → HasCompleted job rows
    → HasCompleted job (write now w rows)
unfolding write run run_row complete_import complete_live exclude
write-HasCompleted job now (statement s) rows (r, found, c) = (
  r,
  row_of-run job ((now, s) ∷ []) rows found
      ∙ ap some (execute_row-settled now s r (completed-IsSettled r c)),
  c,
)
write-HasCompleted job now (import_completes archive id lease) rows h =
    update-HasCompleted job (import_ends archive id lease now)
      (λ r. without_lease (completed_row now r)) rows (λ q. refl)
      (λ q c. record { completed_now = refl; not_retried = refl; unheld = refl }) h
write-HasCompleted job now (live_begins j) rows (r, found, c) =
    (r, row_of-begin_live j job now rows r found, c)
write-HasCompleted job now (live_completes archive id) rows h =
    update-HasCompleted job (is_job archive id) (completed_row now) rows (λ q. refl)
      (λ q c. record { completed_now = refl; not_retried = refl; unheld = c.unheld }) h
write-HasCompleted job now (excludes archive id) rows h =
    update-HasCompleted job (is_job archive id) (λ r. record r { updated_at = now }) rows
      (λ q. refl)
      (λ q c. record {
        completed_now = c.completed_now;
        not_retried = c.not_retried;
        unheld = c.unheld;
      })
      h

write_all-HasCompleted :
    (job : String) (h : List (ℕ × Write)) (rows : List JobRow)
    → HasCompleted job rows
    → HasCompleted job (write_all h rows)
unfolding write_all
write_all-HasCompleted job [] rows c = c
write_all-HasCompleted job ((now, w) ∷ later) rows c =
    write_all-HasCompleted job later (write now w rows) (write-HasCompleted job now w rows c)

-- The two ways in which a worker completes a job that it holds.
pub data Completes (archive job lease : String) : Write → Type 0 where
  by_mark : Completes archive job lease (statement (marks mark_completed job lease))
  by_import : Completes archive job lease (import_completes archive job lease)

first-HasCompleted :
    (archive job lease : String) (now : ℕ) (w : Write) (rows : List JobRow) (r : JobRow)
    → Completes archive job lease w
    → row_of job rows ≡ some r
    → r.archive_id ≡ archive
    → IsLive lease now r
    → r.status ≡ known finalizing
    → HasCompleted job (write now w rows)
unfolding write run run_row complete_import
first-HasCompleted archive job lease now _ rows r by_mark found scope live from = (
  move_row completed_move now r,
  row_of-run job ((now, marks mark_completed job lease) ∷ []) rows found
      ∙ ap some (
          mark_row mark_completed job lease now r (row_of-id job rows r found) live (rw from refl)
            refl),
  record { completed_now = refl; not_retried = refl; unheld = refl },
)
first-HasCompleted archive job lease now _ rows r by_import found scope live from =
    let held : is_some_of r.lease_id lease ≡ true =
      rw (live.same_lease) ((eq_iff lease lease).1 refl) in
    let here : is_job archive job r ≡ true =
      rw (scope, row_of-id job rows r found)
        (ground (arith, (eq_iff archive archive).1 refl, (eq_iff job job).1 refl)) in
    let ends : import_ends archive job lease now r ≡ true =
      rw from (ground (arith, held, here, live.live)) in
    (
      without_lease (completed_row now r),
      row_of-update job (import_ends archive job lease now)
            (λ q. without_lease (completed_row now q)) rows r (λ q. refl) found
          ∙ rw ends refl,
      record { completed_now = refl; not_retried = refl; unheld = refl },
    )

-- Once a job that a worker holds was completed from `finalizing`, by the mark of completion or by the
-- end of its import, no later writes to the table, whoever makes them, take it back: its row stays
-- completed, not retryable and without a lease.
pub write_all-IsCompleted :
    (archive job lease : String) (now : ℕ) (w : Write) (h : List (ℕ × Write)) (rows : List JobRow)
    (r : JobRow)
    → Completes archive job lease w
    → row_of job rows ≡ some r
    → r.archive_id ≡ archive
    → IsLive lease now r
    → r.status ≡ known finalizing
    → (q : JobRow) × (row_of job (write_all ((now, w) ∷ h) rows) ≡ some q) × IsCompleted q
unfolding write_all
write_all-IsCompleted archive job lease now w h rows r completes found scope live from =
    write_all-HasCompleted job h (write now w rows)
      (first-HasCompleted archive job lease now w rows r completes found scope live from)
