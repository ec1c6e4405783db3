-- ===== src/Live/Receipts/Once.antt =====
-- An event is taken in once: src/infrastructure/db/prisma-persistence.ts.
use echohoard.Base.{
  Any, Bool-cases, List, [], any, arith, eq_iff, filter, inl, inr, leb, length, refl, true, ℕ, ◌∷◌,
  ◌≡◌, ◌≢◌,
}
use echohoard.Live.Inbox.{
  Event, Receipt, ReceiptKey, backpressure, duplicate, enqueue, has_key, is_pending_of, new_receipt,
}
use echohoard.Live.Receipts.{
  InboxStep, begins, claims, completes, enqueues, fails, inbox_run, step-Any, step_row,
}

module _ (k : ReceiptKey) where
  abbrev HasKey : Receipt → Type 0
  HasKey r = has_key k r ≡ true

  row-HasKey :
      (step : InboxStep) (rows : List Receipt) (r : Receipt)
      → HasKey r
      → HasKey (step_row step rows r)
  row-HasKey (enqueues id e) rows r h = h
  row-HasKey (claims q) rows r h = ground (arith, h)
  row-HasKey (completes j claim) rows r h = ground (arith, h)
  row-HasKey (fails j claim again class) rows r h = ground (arith, h)
  row-HasKey (begins j claim now) rows r h = ground (arith, h)

  run-HasKey :
      (steps : List InboxStep) (rows : List Receipt)
      → Any HasKey rows
      → Any HasKey (inbox_run steps rows)
  unfolding inbox_run
  run-HasKey [] rows h = h
  run-HasKey (step ∷ later) rows h =
      run-HasKey later _ (step-Any HasKey step rows (row-HasKey step rows) h)

  Any-any : (rows : List Receipt) → Any HasKey rows → any (has_key k) rows ≡ true
  Any-any [] h = elim h [ ]
  Any-any (r ∷ rows) (inl h) = rw h refl
  Any-any (r ∷ rows) (inr h) = let rest = Any-any rows h in ground (arith, rest)

  any-Any : (rows : List Receipt) → any (has_key k) rows ≡ true → Any HasKey rows
  any-Any [] h = cc
  any-Any (r ∷ rows) h = elim (Bool-cases (has_key k r)) [
    | inl hit ↦ inl hit
    | inr miss ↦ inr (any-Any rows (rw miss at h))
  ]

new-HasKey : (id : ℕ) (e : Event) → HasKey e.key (new_receipt id e)
new-HasKey id e = ground (
  arith,
  eq_iff e.key.archive e.key.archive,
  eq_iff e.key.account e.key.account,
  eq_iff e.key.receipt e.key.receipt,
)

taken_in :
    (id : ℕ) (e : Event) (rows : List Receipt)
    → (enqueue id e rows).1 ≢ backpressure
    → Any (HasKey e.key) (enqueue id e rows).0
unfolding enqueue
taken_in id e rows n = elim (Bool-cases (any (has_key e.key) rows)) [
  | inl there ↦ rw there (any-Any e.key rows there)
  | inr missing ↦
      elim (Bool-cases (leb e.max_pending (length (filter (is_pending_of e.key) rows)))) [
        | inl full ↦ absurd (n (rw (missing, full) refl))
        | inr room ↦ rw (missing, room) (inl (new-HasKey id e))
      ]
]

-- Once an event was taken in, as new or as a duplicate, an event with its key is a duplicate and adds
-- no row, whatever was done with the inbox in between.
pub enqueue-once :
    (id later_id : ℕ) (e again : Event) (steps : List InboxStep) (rows : List Receipt)
    → (enqueue id e rows).1 ≢ backpressure
    → again.key ≡ e.key
    → let then_rows = inbox_run steps (enqueue id e rows).0 in
      enqueue later_id again then_rows ≡ (then_rows, duplicate)
unfolding enqueue
enqueue-once id later_id e again steps rows n same =
    let there = Any-any e.key _ (run-HasKey e.key steps _ (taken_in id e rows n)) in
    rw same (rw there refl)
