-- ===== src/Jobs/History.antt =====
-- Histories of statements on the table of import jobs, by any number of workers.
pub mod Ownership
pub mod Settled
pub mod Moves
pub mod Fencing
pub mod Progress
use mathlib.Core.Option
use echohoard.Base.{
  All, Bool, List, Option, String, [], ap, arith, eq_iff, false, find, if◌then◌else◌, is_some_of,
  map, nat_eq, refl, some, string_eq, sym, true, ℕ, ◌&&◌, ◌+◌, ◌==◌, ◌∷◌, ◌≡◌,
}
use echohoard.Jobs.States.{job_status_eq, queued}
use echohoard.Jobs.Failure.{Failure}
use echohoard.Jobs.Table.{
  JobRow, active_statuses, claimable, expires_after, known, returning, status_in, update_where,
  without_lease,
}
use echohoard.Jobs.Store.{
  Move, adapting_move, completed_move, decrypting_move, failed_move, finalizing_move,
  importing_move, leased_move, may_leave_failed, move_applies, move_row, transition,
}
use echohoard.Jobs.Leases.{acquire, is_stale, recover_expired, release, renew, valid_duration}

pub data Mark : Type 0 where
  mark_leased mark_decrypting mark_adapting mark_finalizing mark_completed : Mark
  mark_importing : String → Mark
  mark_failed : Failure → Mark

abbrev pub move_of : Mark → Move
move_of mark_leased = leased_move
move_of mark_decrypting = decrypting_move
move_of mark_adapting = adapting_move
move_of (mark_importing version) = importing_move version
move_of mark_finalizing = finalizing_move
move_of mark_completed = completed_move
move_of (mark_failed f) = failed_move f

pub data Statement : Type 0 where
  acquires : String → String → ℕ → String → Statement
  renews : String → ℕ → Statement
  releases : String → Statement
  recovers : Statement
  marks : Mark → String → String → Statement

unfoldable pub execute : ℕ → Statement → List JobRow → List JobRow
execute now (acquires job owner duration lease) rows = (acquire job owner duration lease now rows).0
execute now (renews lease duration) rows = (renew lease duration now rows).0
execute now (releases lease) rows = release lease now rows
execute now recovers rows = (recover_expired now rows).0
execute now (marks m job lease) rows = (transition job lease (move_of m) now rows).0

abbrev pub History : Type 0
History = List (ℕ × Statement)

unfoldable pub run : History → List JobRow → List JobRow
run [] rows = rows
run ((now, s) ∷ later) rows = run later (execute now s rows)

-- What a statement does to one row.
unfoldable pub execute_row : ℕ → Statement → JobRow → JobRow
execute_row now (acquires job owner duration lease) r =
    if valid_duration duration && (r.id == job && claimable now r)
    then record r {
      lease_id = some lease;
      lease_owner = some owner;
      lease_expires_at = some (now + duration);
      updated_at = now;
    }
    else r
execute_row now (renews lease duration) r =
    if valid_duration duration
      && (is_some_of r.lease_id lease
          && status_in r.status active_statuses
          && expires_after now r.lease_expires_at)
    then record r { lease_expires_at = some (now + duration); updated_at = now }
    else r
execute_row now (releases lease) r =
    if is_some_of r.lease_id lease && expires_after now r.lease_expires_at
    then record (without_lease r) { updated_at = now }
    else r
execute_row now recovers r =
    if is_stale now r
    then record (without_lease r) { status = known queued; updated_at = now }
    else r
execute_row now (marks m job lease) r =
    if move_applies job lease (move_of m) now r then move_row (move_of m) now r else r

unfoldable pub run_row : History → JobRow → JobRow
run_row [] r = r
run_row ((now, s) ∷ later) r = run_row later (execute_row now s r)

abbrev pub row_of : String → List JobRow → Option JobRow
row_of job = find (λ r. r.id == job)

pub map-id : (rows : List JobRow) → map (λ r. r) rows ≡ rows
map-id [] = refl
map-id (r ∷ rows) = cc (map-id rows)

-- A statement that runs only on a valid duration, row by row.
update-if :
    {A : Type 0} (valid : Bool) (p : JobRow → Bool) (f : JobRow → JobRow) (rows : List JobRow)
    (x y : A)
    → (let done : List JobRow × A = if valid then (update_where p f rows, x) else (rows, y) in
        done.0)
      ≡ map (λ r. if valid && p r then f r else r) rows
update-if true p f rows x y = refl
update-if false p f rows x y = sym (map-id rows)

pub execute-map :
    (now : ℕ) (s : Statement) (rows : List JobRow)
    → execute now s rows ≡ map (execute_row now s) rows
unfolding execute execute_row acquire renew release recover_expired transition
execute-map now (acquires job owner duration lease) rows =
    update-if (valid_duration duration) _ _ rows _ _
execute-map now (renews lease duration) rows = update-if (valid_duration duration) _ _ rows _ _
execute-map now (releases lease) rows = refl
execute-map now recovers rows = refl
execute-map now (marks m job lease) rows = refl

pub execute_row-id : (now : ℕ) (s : Statement) (r : JobRow) → (execute_row now s r).id ≡ r.id
unfolding execute_row
execute_row-id now (acquires job owner duration lease) r = ground arith
execute_row-id now (renews lease duration) r = ground arith
execute_row-id now (releases lease) r = ground arith
execute_row-id now recovers r = ground arith
execute_row-id now (marks mark_leased job lease) r = ground arith
execute_row-id now (marks mark_decrypting job lease) r = ground arith
execute_row-id now (marks m job lease) r = ground arith

row_of-map :
    (job : String) (f : JobRow → JobRow) (rows : List JobRow)
    → ((r : JobRow) → (f r).id ≡ r.id)
    → row_of job (map f rows) ≡ Option.map f (row_of job rows)
row_of-map job f [] h = refl
row_of-map job f (r ∷ rows) h = ground (arith, h r, row_of-map job f rows h)

-- The row of a job after a history is what the history makes of its row.
pub row_of-run :
    (job : String) (h : History) (rows : List JobRow) {r : JobRow}
    → row_of job rows ≡ some r
    → row_of job (run h rows) ≡ some (run_row h r)
unfolding run run_row
row_of-run job [] rows e = e
row_of-run job ((now, s) ∷ later) rows {r} e =
    row_of-run job later (execute now s rows) (
      rw
        (execute-map now s rows, row_of-map job (execute_row now s) rows (execute_row-id now s), e))

-- A statement that chooses no row changes none.
pub update-none :
    (p : JobRow → Bool) (f : JobRow → JobRow) (rows : List JobRow)
    → All (λ r. p r ≡ false) rows
    → update_where p f rows ≡ rows
update-none p f [] h = refl
update-none p f (r ∷ rows) h = rw (h.0) (ap (λ t. r ∷ t) (update-none p f rows h.1))

pub returning-none :
    (p : JobRow → Bool) (rows : List JobRow) → All (λ r. p r ≡ false) rows → returning p rows ≡ []
returning-none p [] h = refl
returning-none p (r ∷ rows) h = rw (h.0) (returning-none p rows h.1)

pub row_of-id :
    (job : String) (rows : List JobRow) (r : JobRow) → row_of job rows ≡ some r → r.id ≡ job
row_of-id job [] r e = cc
row_of-id job (q ∷ rows) r e = ground (arith, eq_iff q.id job, row_of-id job rows r)

-- The lease is on the row, and has not run out.
pub record IsLive (lease : String) (now : ℕ) (r : JobRow) : Type 0 where
  pub same_lease : r.lease_id ≡ some lease
  pub live : expires_after now r.lease_expires_at ≡ true

-- A mark under a live lease, on a row whose status it may leave, goes through.
pub mark_row :
    (m : Mark) (job lease : String) (now : ℕ) (r : JobRow)
    → r.id ≡ job
    → IsLive lease now r
    → status_in r.status (move_of m).from ≡ true
    → may_leave_failed (move_of m).allow_retryable_failed r ≡ true
    → execute_row now (marks m job lease) r ≡ move_row (move_of m) now r
unfolding execute_row
mark_row m job lease now r same live from leave =
    let fits : move_applies job lease (move_of m) now r ≡ true =
      rw (from, leave) (ground (arith, eq_iff r.id job, eq_iff lease lease)) in
    rw fits
