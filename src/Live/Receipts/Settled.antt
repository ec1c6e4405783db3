-- ===== src/Live/Receipts/Settled.antt =====
-- A receipt that was normalized or has failed is left alone:
-- src/infrastructure/db/prisma-persistence.ts.
use echohoard.Base.{
  All, Any, Bool, Bool-cases, List, [], any, ap, arith, false, filter, inl, inr, insert_by, leb,
  ltb, map, max, min, nat_eq, not, refl, sort_by, string_eq, suc, sym, take, true, zero, ℕ, ◌&&◌,
  ◌==◌, ◌||◌, ◌∙◌, ◌∷◌, ◌≡◌,
}
use echohoard.Live.Inbox.{Receipt, Request, chosen, failed, is_claimable, normalized, status_eq}
use echohoard.Live.Receipts.{
  AddsOnly, InboxStep, begins, claims, completes, enqueues, fails, inbox_run, step-All, step-Any,
  step_row,
}

-- Whether a row is in a list is not changed by sorting.
module _ {R : Type 0} (p : R → Bool) (time id : R → ℕ) where
  any-insert_by : (r : R) (rows : List R) → any p (insert_by time id r rows) ≡ (p r || any p rows)
  unfolding insert_by
  any-insert_by r [] = refl
  any-insert_by r (q ∷ rows) =
      let rest = any-insert_by r rows in
      elim (Bool-cases (ltb (time r) (time q) || (time r == time q && leb (id r) (id q)))) [
        | inl first ↦ rw first refl
        | inr later ↦ rw (later, rest) (ground arith)
      ]

  any-sort_by : (rows : List R) → any p (sort_by time id rows) ≡ any p rows
  unfolding sort_by
  any-sort_by [] = refl
  any-sort_by (r ∷ rows) = rw (any-insert_by r (sort_by time id rows), any-sort_by rows) refl

take_none :
    {R : Type 0} (id : R → ℕ) (n k : ℕ) (rows : List R)
    → any (λ r. id r == k) rows ≡ false
    → any (λ i. i == k) (map id (take n rows)) ≡ false
take_none id zero k rows h = refl
take_none id (suc n) k [] h = refl
take_none id (suc n) k (r ∷ rows) h =
    let rest = take_none id n k rows (ground arith) in ground (arith, rest)

module _ (r : Receipt) where
  -- No other row has the id of the receipt.
  abbrev pub IsSole : Receipt → Type 0
  IsSole q = q.id ≡ r.id → q ≡ r

  filter_none :
      (f : Receipt → Bool) (rows : List Receipt)
      → f r ≡ false
      → All IsSole rows
      → any (λ (q : Receipt). q.id == r.id) (filter f rows) ≡ false
  filter_none f [] h s = refl
  filter_none f (q ∷ rows) h s =
      let rest = filter_none f rows h s.1 in
      elim (Bool-cases (f q)) [
        | inl stays ↦ elim (Bool-cases (q.id == r.id)) [
          | inl same ↦ cc (ap f (s.0 ((nat_eq.same_iff q.id r.id).0 same)), stays, h)
          | inr other ↦ rw (stays, other) rest
        ]
        | inr goes ↦ rw goes rest
      ]

  not_chosen :
      (q : Request) (rows : List Receipt)
      → is_claimable q.archive q.now r ≡ false
      → All IsSole rows
      → any (λ i. i == r.id) (chosen q rows) ≡ false
  not_chosen q rows h s =
      take_none (λ (x : Receipt). x.id) (max 1 (min 100 q.limit)) r.id _
        (any-sort_by (λ (x : Receipt). x.id == r.id) (λ x. x.received_at) (λ x. x.id) _
          ∙ filter_none (λ x. is_claimable q.archive q.now x && not (q.skips x)) rows
              (ground (arith, h)) s)

  step_row-id :
      (step : InboxStep) (rows : List Receipt) (q : Receipt) → (step_row step rows q).id ≡ q.id
  step_row-id (enqueues id e) rows q = refl
  step_row-id (claims w) rows q = ground arith
  step_row-id (completes j claim) rows q = ground arith
  step_row-id (fails j claim again class) rows q = ground arith
  step_row-id (begins j claim now) rows q = ground arith

  module _ (settled : (r.status == normalized || r.status == failed) ≡ true) where
    unclaimable : (q : Request) → is_claimable q.archive q.now r ≡ false
    unclaimable q = ground (arith, settled)

    row-settled :
        (step : InboxStep) (rows : List Receipt) → All IsSole rows → step_row step rows r ≡ r
    row-settled (enqueues id e) rows s = refl
    row-settled (claims q) rows s = rw (not_chosen q rows (unclaimable q) s) refl
    row-settled (completes j claim) rows s = ground (arith, settled)
    row-settled (fails j claim again class) rows s = ground (arith, settled)
    row-settled (begins j claim now) rows s = ground (arith, settled)

    row-IsSole :
        (step : InboxStep) (rows : List Receipt)
        → All IsSole rows
        → (q : Receipt) → IsSole q
        → IsSole (step_row step rows q)
    row-IsSole step rows s q h e =
        ap (step_row step rows) (h (sym (step_row-id step rows q) ∙ e)) ∙ row-settled step rows s

    -- A receipt that was normalized or has failed for good stays in the inbox as it is, whatever is
    -- done with the inbox, where the ids of the receipts that are added differ from its own.
    pub settled-final :
        (steps : List InboxStep) (rows : List Receipt)
        → All (AddsOnly IsSole) steps
        → All IsSole rows
        → Any (λ q. q ≡ r) rows
        → Any (λ q. q ≡ r) (inbox_run steps rows)
    unfolding inbox_run
    settled-final [] rows a s h = h
    settled-final (step ∷ later) rows a s h =
        settled-final later _ a.1 (step-All IsSole step rows a.0 (row-IsSole step rows s) s) (
          step-Any (λ q. q ≡ r) step rows
            (λ q e. ap (step_row step rows) e ∙ row-settled step rows s) h)
