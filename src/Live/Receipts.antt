-- ===== src/Live/Receipts.antt =====
-- What becomes of a receipt: src/infrastructure/db/prisma-persistence.ts.
pub mod Settled
pub mod Once
pub mod Fenced
use echohoard.Base.{
  All, Any, Bool, Bool-cases, List, String, [], any, filter, inl, inr, leb, length, map, ℕ, ◌∷◌,
}
use echohoard.Live.Inbox.{
  Event, Receipt, ReceiptKey, Request, begin_claim, begin_row, chosen, claim_pending, claim_row,
  complete_claim, complete_row, enqueue, fail_claim, fail_row, has_key, is_pending_of, new_receipt,
}

-- One operation on the inbox.
pub data InboxStep : Type 0 where
  enqueues : ℕ → Event → InboxStep
  claims : Request → InboxStep
  completes : ReceiptKey → String → InboxStep
  fails : ReceiptKey → String → Bool → String → InboxStep
  begins : ReceiptKey → String → ℕ → InboxStep

unfoldable pub inbox_step : InboxStep → List Receipt → List Receipt
inbox_step (enqueues id e) rows = (enqueue id e rows).0
inbox_step (claims q) rows = (claim_pending q rows).0
inbox_step (completes k claim) rows = (complete_claim k claim rows).0
inbox_step (fails k claim again class) rows = (fail_claim k claim again class rows).0
inbox_step (begins k claim now) rows = (begin_claim k claim now rows).0

unfoldable pub inbox_run : List InboxStep → List Receipt → List Receipt
inbox_run [] rows = rows
inbox_run (step ∷ later) rows = inbox_run later (inbox_step step rows)

-- What the operation does to a row, where `rows` is the table that it finds.
abbrev pub step_row : InboxStep → List Receipt → Receipt → Receipt
step_row (enqueues id e) rows r = r
step_row (claims q) rows r = claim_row q (chosen q rows) r
step_row (completes k claim) rows r = complete_row k claim r
step_row (fails k claim again class) rows r = fail_row k claim again class r
step_row (begins k claim now) rows r = begin_row k claim now r

module _ (P : Receipt → Type 0) where
  -- A row that the operation may add has the property.
  abbrev pub AddsOnly : InboxStep → Type 0
  AddsOnly (enqueues id e) = P (new_receipt id e)
  AddsOnly _ = Unit

  map-All :
      (f : Receipt → Receipt) (rows : List Receipt)
      → ((r : Receipt) → P r → P (f r))
      → All P rows
      → All P (map f rows)
  map-All f [] keeps h = tt
  map-All f (r ∷ rows) keeps h = (keeps r h.0, map-All f rows keeps h.1)

  map-Any :
      (f : Receipt → Receipt) (rows : List Receipt)
      → ((r : Receipt) → P r → P (f r))
      → Any P rows
      → Any P (map f rows)
  map-Any f [] keeps h = h
  map-Any f (r ∷ rows) keeps (inl h) = inl (keeps r h)
  map-Any f (r ∷ rows) keeps (inr h) = inr (map-Any f rows keeps h)

  enqueue-Any :
      (id : ℕ) (e : Event) (rows : List Receipt) → Any P rows → Any P (enqueue id e rows).0
  unfolding enqueue
  enqueue-Any id e rows h = elim (Bool-cases (any (has_key e.key) rows)) [
    | inl there ↦ rw there h
    | inr missing ↦
        elim (Bool-cases (leb e.max_pending (length (filter (is_pending_of e.key) rows)))) [
          | inl full ↦ rw (missing, full) h
          | inr room ↦ rw (missing, room) (inr h)
        ]
  ]

  -- An operation keeps a row with the property, when it keeps the property of the row.
  pub step-Any :
      (step : InboxStep) (rows : List Receipt)
      → ((r : Receipt) → P r → P (step_row step rows r))
      → Any P rows
      → Any P (inbox_step step rows)
  unfolding inbox_step claim_pending complete_claim fail_claim begin_claim
  step-Any (enqueues id e) rows keeps h = enqueue-Any id e rows h
  step-Any (claims q) rows keeps h = map-Any _ rows keeps h
  step-Any (completes k claim) rows keeps h = map-Any _ rows keeps h
  step-Any (fails k claim again class) rows keeps h = map-Any _ rows keeps h
  step-Any (begins k claim now) rows keeps h = map-Any _ rows keeps h

  enqueue-All :
      (id : ℕ) (e : Event) (rows : List Receipt)
      → P (new_receipt id e)
      → All P rows
      → All P (enqueue id e rows).0
  unfolding enqueue
  enqueue-All id e rows new h = elim (Bool-cases (any (has_key e.key) rows)) [
    | inl there ↦ rw there h
    | inr missing ↦
        elim (Bool-cases (leb e.max_pending (length (filter (is_pending_of e.key) rows)))) [
          | inl full ↦ rw (missing, full) h
          | inr room ↦ rw (missing, room) (new, h)
        ]
  ]

  -- An operation keeps the property of all rows, when a row that it adds has it and it keeps it of each row.
  pub step-All :
      (step : InboxStep) (rows : List Receipt)
      → AddsOnly step
      → ((r : Receipt) → P r → P (step_row step rows r))
      → All P rows
      → All P (inbox_step step rows)
  unfolding inbox_step claim_pending complete_claim fail_claim begin_claim
  step-All (enqueues id e) rows new keeps h = enqueue-All id e rows new h
  step-All (claims q) rows new keeps h = map-All _ rows keeps h
  step-All (completes k claim) rows new keeps h = map-All _ rows keeps h
  step-All (fails k claim again class) rows new keeps h = map-All _ rows keeps h
  step-All (begins k claim now) rows new keeps h = map-All _ rows keeps h
