-- ===== src/Live/Receipts/Fenced.antt =====
-- A claim on a receipt is settled once: src/infrastructure/db/prisma-persistence.ts.
use echohoard.Base.{
  All, Bool, List, Option, String, [], arith, false, filter, map, nat_eq, none, refl, some,
  string_eq, true, ℕ, ◌==◌, ◌∷◌, ◌≡◌,
}
use echohoard.Live.Inbox.{
  Receipt, ReceiptKey, complete_claim, complete_row, fail_claim, fail_row, is_claimed_by,
  processing, status_eq,
}
use echohoard.Live.Receipts.{
  AddsOnly, InboxStep, begins, claims, completes, enqueues, fails, inbox_run, step-All, step_row,
}

abbrev has_claim : Option String → Bool
has_claim none = false
has_claim (some c) = true

-- A receipt is being processed exactly while it has a claim.
abbrev pub IsConsistent : Receipt → Type 0
IsConsistent r = (r.status == processing) ≡ has_claim r.claim_id

row-IsConsistent :
    (step : InboxStep) (rows : List Receipt) (r : Receipt)
    → IsConsistent r
    → IsConsistent (step_row step rows r)
row-IsConsistent (enqueues id e) rows r h = h
row-IsConsistent (claims q) rows r h = ground (arith, h)
row-IsConsistent (completes j claim) rows r h = ground (arith, h)
row-IsConsistent (fails j claim again class) rows r h = ground (arith, h)
row-IsConsistent (begins j claim now) rows r h = ground (arith, h)

added-IsConsistent : (step : InboxStep) → AddsOnly IsConsistent step
added-IsConsistent (enqueues id e) = refl
added-IsConsistent (claims q) = tt
added-IsConsistent (completes j claim) = tt
added-IsConsistent (fails j claim again class) = tt
added-IsConsistent (begins j claim now) = tt

-- The operations, in any number and order, keep an inbox in which the receipts being processed are
-- exactly those that have a claim.
pub run-IsConsistent :
    (steps : List InboxStep) (rows : List Receipt)
    → All IsConsistent rows
    → All IsConsistent (inbox_run steps rows)
unfolding inbox_run
run-IsConsistent [] rows h = h
run-IsConsistent (step ∷ later) rows h =
    run-IsConsistent later _
      (step-All IsConsistent step rows (added-IsConsistent step) (row-IsConsistent step rows) h)

module _ (k : ReceiptKey) (claim : String) where
  -- The operation gives out another claim than this one.
  abbrev pub Avoids : InboxStep → Type 0
  Avoids (claims q) = (id : ℕ) → (q.new_claim id == claim) ≡ false
  Avoids (begins j other now) = (other == claim) ≡ false
  Avoids _ = Unit

  -- The row does not stand under the claim.
  abbrev IsFree : Receipt → Type 0
  IsFree r = is_claimed_by k claim r ≡ false

  row-IsFree :
      (step : InboxStep) (rows : List Receipt)
      → Avoids step
      → (r : Receipt) → IsFree r
      → IsConsistent r
      → IsFree (step_row step rows r)
  row-IsFree (enqueues id e) rows a r h c = h
  row-IsFree (claims q) rows a r h c = let other = a r.id in ground (arith, h, other)
  row-IsFree (completes j own) rows a r h c = ground (arith, h)
  row-IsFree (fails j own again class) rows a r h c = ground (arith, h)
  row-IsFree (begins j own now) rows a r h c = ground (arith, h, a)

  abbrev IsDone : Receipt → Type 0
  IsDone r = IsFree r × IsConsistent r

  added-IsDone : (step : InboxStep) → AddsOnly IsDone step
  added-IsDone (enqueues id e) = (ground arith, refl)
  added-IsDone (claims q) = tt
  added-IsDone (completes j own) = tt
  added-IsDone (fails j own again class) = tt
  added-IsDone (begins j own now) = tt

  run-IsDone :
      (steps : List InboxStep) (rows : List Receipt)
      → All Avoids steps
      → All IsDone rows
      → All IsDone (inbox_run steps rows)
  unfolding inbox_run
  run-IsDone [] rows a h = h
  run-IsDone (step ∷ later) rows a h = run-IsDone later _ a.1 (
      step-All IsDone step rows (added-IsDone step)
        (λ r d. (row-IsFree step rows a.0 r d.0 d.1, row-IsConsistent step rows r d.1)) h)

  free-unchanged :
      (f : Receipt → Receipt) (rows : List Receipt)
      → ((r : Receipt) → IsFree r → f r ≡ r)
      → All IsDone rows
      → (map f rows ≡ rows) × (filter (is_claimed_by k claim) rows ≡ [])
  free-unchanged f [] keeps h = (refl, refl)
  free-unchanged f (r ∷ rows) keeps h =
      let (same, empty) = free-unchanged f rows keeps h.1 in
      (rw (keeps r h.0.0, same) refl, rw h.0.0 empty)

  completed-IsDone :
      (rows : List Receipt) → All IsConsistent rows → All IsDone (map (complete_row k claim) rows)
  completed-IsDone [] h = tt
  completed-IsDone (r ∷ rows) h =
      ((ground arith, row-IsConsistent (completes k claim) rows r h.0), completed-IsDone rows h.1)

  failed-IsDone :
      (again : Bool) (class : String) (rows : List Receipt)
      → All IsConsistent rows
      → All IsDone (map (fail_row k claim again class) rows)
  failed-IsDone again class [] h = tt
  failed-IsDone again class (r ∷ rows) h = (
    (ground arith, row-IsConsistent (fails k claim again class) rows r h.0),
    failed-IsDone again class rows h.1,
  )

  -- Both ways to settle the claim throw and leave the inbox as it is.
  abbrev pub IsOver : List Receipt → Type 0
  IsOver rows =
      (complete_claim k claim rows ≡ (rows, false))
      × ((again : Bool) (class : String) → fail_claim k claim again class rows ≡ (rows, false))

  done-IsOver : (rows : List Receipt) → All IsDone rows → IsOver rows
  unfolding complete_claim fail_claim
  done-IsOver rows h = (
    let (same, empty) = free-unchanged (complete_row k claim) rows (λ r f. rw f refl) h in
        rw (same, empty) refl,
    λ again class.
        let (same, empty) =
          free-unchanged (fail_row k claim again class) rows (λ r f. rw f refl) h in
        rw (same, empty) refl,
  )

  -- A claim is settled at most once: after it was completed or failed, with success or not, both
  -- completing and failing it throw and change nothing, whatever is done with the inbox in between
  -- but giving out the same claim again.
  pub claim-IsOver :
      (again : Bool) (class : String) (steps : List InboxStep) (rows : List Receipt)
      → All IsConsistent rows
      → All Avoids steps
      → IsOver (inbox_run steps (complete_claim k claim rows).0)
        × IsOver (inbox_run steps (fail_claim k claim again class rows).0)
  unfolding complete_claim fail_claim
  claim-IsOver again class steps rows h a = (
    done-IsOver _ (run-IsDone steps _ a (completed-IsDone rows h)),
    done-IsOver _ (run-IsDone steps _ a (failed-IsDone again class rows h)),
  )
