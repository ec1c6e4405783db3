-- ===== src/Jobs/History/Fencing.antt =====
-- A worker that has lost its lease can do no more: src/infrastructure/db/worker-persistence.ts.
use echohoard.Base.{
  All, Bool-cases, List, Option, String, [], arith, eq_iff, err, false, inl, inr, is_some_of, map,
  nat_eq, none, refl, some, string_eq, true, ℕ, ◌∷◌, ◌≡◌, ◌≢◌,
}
use echohoard.Jobs.Table.{JobRow, lease_fence}
use echohoard.Jobs.Store.{Move, move_applies, move_row, transition}
use echohoard.Jobs.Leases.{is_stale}
use echohoard.Jobs.History.{
  History, Mark, Statement, acquires, execute, execute-map, execute_row, mark_completed,
  mark_failed, marks, move_of, recovers, releases, renews, returning-none, run, update-none,
}
use echohoard.Jobs.States.{job_status_eq}

abbrev pub LacksLease : String → JobRow → Type 0
LacksLease lease r = r.lease_id ≢ some lease

-- The new lease id that a statement brings.
abbrev pub mints : Statement → Option String
mints (acquires job owner duration lease) = some lease
mints _ = none

-- The random id is not drawn again.
abbrev pub NeverMints : String → History → Type 0
NeverMints lease = All (λ (t : ℕ × Statement). mints t.1 ≢ some lease)

execute_row-LacksLease :
    (lease : String) (now : ℕ) (s : Statement) (r : JobRow)
    → LacksLease lease r
    → mints s ≢ some lease
    → LacksLease lease (execute_row now s r)
unfolding execute_row
execute_row-LacksLease lease now (acquires job owner duration l) r h n = ground arith
execute_row-LacksLease lease now (renews l duration) r h n = ground arith
execute_row-LacksLease lease now (releases l) r h n = ground arith
execute_row-LacksLease lease now recovers r h n = ground arith
execute_row-LacksLease lease now (marks mark_completed job l) r h n = ground arith
execute_row-LacksLease lease now (marks (mark_failed f) job l) r h n = ground arith
execute_row-LacksLease lease now (marks m job l) r h n = ground arith

map-LacksLease :
    (lease : String) (now : ℕ) (s : Statement) (rows : List JobRow)
    → All (LacksLease lease) rows
    → mints s ≢ some lease
    → All (LacksLease lease) (map (execute_row now s) rows)
map-LacksLease lease now s [] h n = tt
map-LacksLease lease now s (r ∷ rows) h n =
    (execute_row-LacksLease lease now s r h.0 n, map-LacksLease lease now s rows h.1 n)

run-LacksLease :
    (lease : String) (h : History) (rows : List JobRow)
    → All (LacksLease lease) rows
    → NeverMints lease h
    → All (LacksLease lease) (run h rows)
unfolding run
run-LacksLease lease [] rows a n = a
run-LacksLease lease ((now, s) ∷ later) rows a n =
    run-LacksLease lease later (execute now s rows)
      (rw (execute-map now s rows) (map-LacksLease lease now s rows a n.0)) n.1

is_some_of-ne : (o : Option String) (lease : String) → o ≢ some lease → is_some_of o lease ≡ false
is_some_of-ne none lease n = refl
is_some_of-ne (some l) lease n = ground (arith, eq_iff l lease)

lacks-applies :
    (job lease : String) (m : Move) (now : ℕ) (r : JobRow)
    → LacksLease lease r
    → move_applies job lease m now r ≡ false
lacks-applies job lease m now r n = rw (is_some_of-ne r.lease_id lease n) (ground arith)

none-apply :
    (job lease : String) (m : Move) (now : ℕ) (rows : List JobRow)
    → All (LacksLease lease) rows
    → All (λ r. move_applies job lease m now r ≡ false) rows
none-apply job lease m now [] h = tt
none-apply job lease m now (r ∷ rows) h =
    (lacks-applies job lease m now r h.0, none-apply job lease m now rows h.1)

transition-fenced :
    (job lease : String) (m : Move) (now : ℕ) (rows : List JobRow)
    → All (LacksLease lease) rows
    → transition job lease m now rows ≡ (rows, err lease_fence)
unfolding transition
transition-fenced job lease m now rows h =
    let none_fit = none-apply job lease m now rows h in
    rw (update-none _ (move_row m now) rows none_fit, returning-none _ rows none_fit)

recovered_row-LacksLease :
    (lease : String) (now : ℕ) (r : JobRow)
    → (r.lease_id ≡ some lease → is_stale now r ≡ true)
    → LacksLease lease (execute_row now recovers r)
unfolding execute_row
recovered_row-LacksLease lease now r h = elim (Bool-cases (is_stale now r)) [
  | inl stale ↦ rw stale (λ x. cc x)
  | inr fresh ↦ rw fresh (λ x. cc (h x))
]

recovered-LacksLease :
    (lease : String) (now : ℕ) (rows : List JobRow)
    → All (λ r. r.lease_id ≡ some lease → is_stale now r ≡ true) rows
    → All (LacksLease lease) (map (execute_row now recovers) rows)
unfolding execute_row
recovered-LacksLease lease now [] h = tt
recovered-LacksLease lease now (r ∷ rows) h =
    (recovered_row-LacksLease lease now r h.0, recovered-LacksLease lease now rows h.1)

-- A worker whose lease was recovered is fenced for good: whatever happens afterwards, as long as its
-- random lease id is not drawn again, each of its marks throws `LeaseFenceError` and leaves the
-- whole table as it is.
pub recovered-fenced :
    (job lease : String) (m : Mark) (now later : ℕ) (h : History) (rows : List JobRow)
    → All (λ r. r.lease_id ≡ some lease → is_stale now r ≡ true) rows
    → NeverMints lease h
    → let table = run ((now, recovers) ∷ h) rows in
      transition job lease (move_of m) later table ≡ (table, err lease_fence)
unfolding run
recovered-fenced job lease m now later h rows stale fresh =
    transition-fenced job lease (move_of m) later _ (
      run-LacksLease lease h (execute now recovers rows)
        (rw (execute-map now recovers rows) (recovered-LacksLease lease now rows stale)) fresh)
