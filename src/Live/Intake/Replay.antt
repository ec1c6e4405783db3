-- ===== src/Live/Intake/Replay.antt =====
-- A request that is sent again is not taken in again: src/application/live-event-intake.ts.
use echohoard.Base.{List, String, ap, refl, some, subst, sym, ℕ, ◌∙◌, ◌≡◌}
use echohoard.Live.Inbox.{Enqueued, Receipt, enqueue}
use echohoard.Live.Intake.{
  Intake, IntakeRequest, IntakeResult, LiveAccount, State, ValidatedEvent, accept, event_of,
  rejected, stable_receipt_id, taken,
}
use echohoard.Live.Intake.Authentic.{Explains, IsAuthentic, IsTaken, accept-Explains}
use echohoard.Live.Receipts.{InboxStep, inbox_run}
use echohoard.Live.Receipts.Once.{enqueue-once}

some-injective : {A : Type 0} (a b : A) → some a ≡ some b → a ≡ b
some-injective a b e = cc

module _ (s : Intake) (q : IntakeRequest) where
  -- The answer to a request that was let in before.
  abbrev pub IsRepeat : String → List Receipt → State × IntakeResult → Type 0
  IsRepeat receipt rows (st, taken k named) =
      (st.rows ≡ rows) × (k ≡ Enqueued.duplicate) × (named ≡ receipt)
  IsRepeat receipt rows (st, rejected r) = st.rows ≡ rows

  same_event :
      (now later : ℕ) (a b : LiveAccount) (e f : ValidatedEvent)
      → IsAuthentic s q now a e
      → IsAuthentic s q later b f
      → (a ≡ b) × (e ≡ f)
  same_event now later a b e f first second = (
    some-injective a b (sym first.resolved ∙ second.resolved),
    some-injective e f (sym first.valid ∙ second.valid),
  )

  same_key :
      (now later : ℕ) (a b : LiveAccount) (e f : ValidatedEvent)
      → (a ≡ b) × (e ≡ f)
      → (event_of s q later b f).key ≡ (event_of s q now a e).key
  unfolding event_of
  same_key now later a b e f (p, r) = rw (p, r) refl

  repeat :
      (id later_id now later : ℕ) (st st' again : State) (k : Enqueued) (receipt : String)
      (steps : List InboxStep)
      → IsTaken s q now id st st' k receipt
      → again.rows ≡ inbox_run steps st'.rows
      → (y : State × IntakeResult) → Explains s q later later_id again y
      → IsRepeat receipt again.rows y
  repeat id later_id now later st st' again k receipt steps t at_rows (st'', rejected r) h =
      h.untouched
  repeat id later_id now later st st' again k receipt steps t at_rows (st'', taken k' receipt') h =
      let same = same_event now later _ _ _ _ t.authentic h.authentic in
      let first = ap (λ (x : List Receipt × Enqueued). x.0) t.enqueued in
      let kind = ap (λ (x : List Receipt × Enqueued). x.1) t.enqueued in
      let once =
        enqueue-once id later_id (event_of s q now t.account t.event)
          (event_of s q later h.account h.event) steps st.rows
          (λ full. t.has_room (sym kind ∙ full)) (same_key now later _ _ _ _ same) in
      let there = at_rows ∙ ap (inbox_run steps) (sym first) in
      let result =
        sym h.enqueued
        ∙ ap (enqueue later_id (event_of s q later h.account h.event)) there
        ∙ once in
      (
        ap (λ (x : List Receipt × Enqueued). x.0) result ∙ sym there,
        ap (λ (x : List Receipt × Enqueued). x.1) result,
        h.named
            ∙ ap (λ (e : ValidatedEvent). stable_receipt_id s q.account_key e.source_event_key)
                (sym same.1)
            ∙ sym t.named,
      )

  -- A request that was taken in once adds no second receipt when it is sent again at any time: it is
  -- rejected, or reported as a duplicate under the same receipt id, and the inbox is unchanged,
  -- whatever was done with the inbox in between.
  pub accept-IsRepeat :
      (id later_id now later : ℕ) (st again : State) (k : Enqueued) (receipt : String)
      (steps : List InboxStep)
      → (accept s id q now st).1 ≡ taken k receipt
      → again.rows ≡ inbox_run steps (accept s id q now st).0.rows
      → IsRepeat receipt again.rows (accept s later_id q later again)
  accept-IsRepeat id later_id now later st again k receipt steps h at_rows =
      repeat id later_id now later st (accept s id q now st).0 again k receipt steps
        (subst (λ r. Explains s q now id st ((accept s id q now st).0, r)) h
          (accept-Explains s q now id st))
        at_rows _ (accept-Explains s q later later_id again)
