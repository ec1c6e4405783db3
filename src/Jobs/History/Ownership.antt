-- ===== src/Jobs/History/Ownership.antt =====
-- A live lease against every other worker: src/infrastructure/db/worker-persistence.ts.
use echohoard.Base.{
  All, List, Option, String, [], ap, arith, eq_iff, false, nat_eq, none, ok, refl, some, string_eq,
  true, ℕ, ◌&&◌, ◌<◌, ◌==◌, ◌∙◌, ◌∷◌, ◌≡◌, ◌≢◌,
}
use echohoard.Jobs.States.{job_status_eq}
use echohoard.Jobs.Table.{JobRow, claimable}
use echohoard.Jobs.Leases.{acquire, valid_duration}
use echohoard.Jobs.History.{
  History, Statement, acquires, execute_row, marks, recovers, releases, renews, returning-none,
  row_of, row_of-run, run, run_row, update-none,
}

abbrev pub IsHeldBy : String → ℕ → JobRow → Type 0
IsHeldBy lease e r = (r.lease_id ≡ some lease) × (r.lease_expires_at ≡ some e)

-- The lease that a statement is issued under.
abbrev pub under : Statement → Option String
under (acquires job owner duration lease) = none
under (renews lease duration) = some lease
under (releases lease) = some lease
under recovers = none
under (marks m job lease) = some lease

-- Statements of others, all before the lease runs out.
abbrev pub IsOthers : String → ℕ → History → Type 0
IsOthers lease e = All (λ (t : ℕ × Statement). (t.0 < e) × (under t.1 ≢ some lease))

execute_row-held :
    (lease : String) (e now : ℕ) (s : Statement) (r : JobRow)
    → IsHeldBy lease e r
    → now < e
    → under s ≢ some lease
    → execute_row now s r ≡ r
unfolding execute_row
execute_row-held lease e now (acquires job owner duration l) r h t n = ground arith
execute_row-held lease e now (renews l duration) r h t n = ground (arith, eq_iff lease l)
execute_row-held lease e now (releases l) r h t n = ground (arith, eq_iff lease l)
execute_row-held lease e now recovers r h t n = ground arith
execute_row-held lease e now (marks m job l) r h t n = ground (arith, eq_iff lease l)

run_row-held :
    (lease : String) (e : ℕ) (h : History) (r : JobRow)
    → IsHeldBy lease e r
    → IsOthers lease e h
    → run_row h r ≡ r
unfolding run_row
run_row-held lease e [] r held others = refl
run_row-held lease e ((now, s) ∷ later) r held (first, rest) =
    rw (execute_row-held lease e now s r held first.0 first.1)
      (run_row-held lease e later r held rest)

-- While a lease is live, no history of statements issued under other leases, by any number of
-- workers and before the lease runs out, changes anything in the row of the leased job.
pub held-run :
    (job lease : String) (e : ℕ) (h : History) (rows : List JobRow) (r : JobRow)
    → row_of job rows ≡ some r
    → IsHeldBy lease e r
    → IsOthers lease e h
    → row_of job (run h rows) ≡ some r
held-run job lease e h rows r found held others =
    row_of-run job h rows found ∙ ap some (run_row-held lease e h r held others)

claimable-held :
    (job lease : String) (e now : ℕ) (r : JobRow)
    → now < e
    → (r.id ≡ job → IsHeldBy lease e r)
    → (r.id == job && claimable now r) ≡ false
claimable-held job lease e now r t held = ground (arith, eq_iff r.id job)

none-claimable :
    (job lease : String) (e now : ℕ) (rows : List JobRow)
    → now < e
    → All (λ r. r.id ≡ job → IsHeldBy lease e r) rows
    → All (λ r. (r.id == job && claimable now r) ≡ false) rows
none-claimable job lease e now [] t h = tt
none-claimable job lease e now (r ∷ rows) t h =
    (claimable-held job lease e now r t h.0, none-claimable job lease e now rows t h.1)

-- While a lease on a job is live, a second claim of the job returns no lease and leaves the whole
-- table as it was.
pub acquire-held :
    (job lease owner other : String) (e now duration : ℕ) (rows : List JobRow)
    → valid_duration duration ≡ true
    → now < e
    → All (λ r. r.id ≡ job → IsHeldBy lease e r) rows
    → acquire job owner duration other now rows ≡ (rows, ok none)
unfolding acquire
acquire-held job lease owner other e now duration rows valid t h =
    let none_fit = none-claimable job lease e now rows t h in
    rw (valid, update-none _ _ rows none_fit, returning-none _ rows none_fit)
