-- ===== src/Live/Intake/Authentic.antt =====
-- Only authentic events reach the inbox: src/application/live-event-intake.ts.
use echohoard.Base.{
  Bool-cases, List, Option-cases, Result-cases, String, [], ap, arith, false, inl, inr, is_empty,
  leb, leb→le, length, nat_eq, ok, refl, same_units, some, sym, true, ℕ, ◌*◌, ◌/◌, ◌∙◌, ◌∷◌, ◌≡◌,
  ◌≢◌, ◌≤◌,
}
use echohoard.Live.Wire.{is_signature, parse_timestamp, supplied_bytes}
use echohoard.Live.Inbox.{Enqueued, Event, Receipt, enqueue}
use echohoard.Live.Intake.{
  Intake, IntakeRequest, IntakeResult, LiveAccount, Rejection, State, ValidatedEvent, accept,
  accepted_as, answer, check, deliver, distance, event_of, expected_bytes, increment, is_signed,
  reject, rejected, rejected_for, stable_receipt_id, taken, verify_signature,
}

same_units-eq : (xs ys : List ℕ) → same_units xs ys ≡ true → xs ≡ ys
same_units-eq [] [] h = refl
same_units-eq [] (y ∷ ys) h = cc
same_units-eq (x ∷ xs) [] h = cc
same_units-eq (x ∷ xs) (y ∷ ys) h =
    let rest = same_units-eq xs ys (ground arith) in
    let first = (nat_eq.same_iff x y).0 (ground arith) in rw (first, rest) refl

module _ (s : Intake) (q : IntakeRequest) (now : ℕ) where
  -- Why a request passes the checks.
  pub record IsAuthentic (account : LiveAccount) (event : ValidatedEvent) : Type 0 where
    pub header : String
    pub timestamp : ℕ
    pub small : length q.body ≤ 262144
    pub timed : parse_timestamp q.timestamp ≡ some timestamp
    pub recent : distance (now / 1000) timestamp ≤ s.max_clock_skew_seconds
    pub resolved : s.resolve q.account_key ≡ some account
    pub given : q.signature ≡ some header
    pub well_formed : is_signature header ≡ true
    pub has_secret : is_empty account.secret ≡ false
    pub signed :
        supplied_bytes header ≡ expected_bytes s q.body timestamp q.account_key account.secret
    pub valid : s.validate q.body q.account_key ≡ some event

  is_signed-parts :
      (timestamp : ℕ) (account : LiveAccount)
      → is_signed s q timestamp account ≡ true
      → (header : String) × (q.signature ≡ some header)
        × (is_signature header ≡ true)
        × (is_empty account.secret ≡ false)
        × (supplied_bytes header ≡ expected_bytes s q.body timestamp q.account_key account.secret)
  unfolding is_signed verify_signature
  is_signed-parts timestamp account h = elim (Option-cases q.signature) [
    | inl missing ↦ ground arith
    | inr (header, e) ↦ (header, e, ground arith, ground arith, same_units-eq _ _ (ground arith))
  ]

  checked :
      (a : LiveAccount) (e : ValidatedEvent) (timestamp : ℕ)
      → leb (length q.body) 262144 ≡ true
      → parse_timestamp q.timestamp ≡ some timestamp
      → leb (distance (now / 1000) timestamp) s.max_clock_skew_seconds ≡ true
      → s.resolve q.account_key ≡ some a
      → is_signed s q timestamp a ≡ true
      → s.validate q.body q.account_key ≡ some e
      → (account : LiveAccount) (event : ValidatedEvent)
      → ◌≡◌ {A = LiveAccount × ValidatedEvent} (a, e) (account, event)
      → IsAuthentic account event
  checked a e timestamp small timed recent resolved signed valid account event same =
      let (header, given, well_formed, has_secret, agrees) = is_signed-parts timestamp account (
        ap (λ (x : LiveAccount × ValidatedEvent). is_signed s q timestamp x.0) (sym same)
        ∙ signed) in
      record {
        header = header;
        timestamp = timestamp;
        small = leb→le _ _ small;
        timed = timed;
        recent = leb→le _ _ recent;
        resolved = resolved ∙ ap (λ (x : LiveAccount × ValidatedEvent). some x.0) same;
        given = given;
        well_formed = well_formed;
        has_secret = has_secret;
        signed = agrees;
        valid = valid ∙ ap (λ (x : LiveAccount × ValidatedEvent). some x.1) same;
      }

  check-IsAuthentic :
      (account : LiveAccount) (event : ValidatedEvent)
      → check s q now ≡ ok (account, event)
      → IsAuthentic account event
  unfolding check
  check-IsAuthentic account event h = elim (Bool-cases (leb (length q.body) (256 * 1024))) [
    | inr large ↦ cc (rw large at h)
    | inl small ↦ elim (Option-cases (parse_timestamp q.timestamp)) [
      | inl untimed ↦ cc (rw (small, untimed) at h)
      | inr (timestamp, timed) ↦
          elim (Bool-cases (leb (distance (now / 1000) timestamp) s.max_clock_skew_seconds)) [
            | inr stale ↦ cc (rw (small, timed, stale) at h)
            | inl recent ↦ elim (Option-cases (s.resolve q.account_key)) [
              | inl unknown ↦ cc (rw (small, timed, recent, unknown) at h)
              | inr (a, resolved) ↦ elim (Bool-cases (is_signed s q timestamp a)) [
                | inr unsigned ↦ cc (rw (small, timed, recent, resolved, unsigned) at h)
                | inl signed ↦ elim (Option-cases (s.validate q.body q.account_key)) [
                  | inl invalid ↦ cc (rw (small, timed, recent, resolved, signed, invalid) at h)
                  | inr (e, valid) ↦
                      let same : ◌≡◌ {A = LiveAccount × ValidatedEvent} (a, e) (account, event) =
                        cc (rw (small, timed, recent, resolved, signed, valid) at h) in
                      checked a e timestamp small timed recent resolved signed valid account event
                        same
                ]
              ]
            ]
          ]
    ]
  ]

  enqueue-full :
      (id : ℕ) (e : Event) (rows : List Receipt)
      → (enqueue id e rows).1 ≡ Enqueued.backpressure
      → (enqueue id e rows).0 ≡ rows
  unfolding enqueue
  enqueue-full id e rows h = ground arith

  -- The request was let in: it passed the checks, and the inbox took it or had it already.
  pub record IsTaken (id : ℕ) (st st' : State) (k : Enqueued) (receipt : String) : Type 0 where
    pub has_room : k ≢ Enqueued.backpressure
    pub account : LiveAccount
    pub event : ValidatedEvent
    pub authentic : IsAuthentic account event
    pub named : receipt ≡ stable_receipt_id s q.account_key event.source_event_key
    pub enqueued : enqueue id (event_of s q now account event) st.rows ≡ (st'.rows, k)
    pub counted : st'.values ≡ increment (accepted_as k) st.values

  -- The request was turned away: the inbox is as it was.
  pub record IsRejected (st st' : State) (r : Rejection) : Type 0 where
    pub untouched : st'.rows ≡ st.rows
    pub counted : st'.values ≡ increment (rejected_for r) st.values

  abbrev pub Explains : ℕ → State → State × IntakeResult → Type 0
  Explains id st (st', taken k receipt) = IsTaken id st st' k receipt
  Explains id st (st', rejected r) = IsRejected st st' r

  answer-Explains :
      (id : ℕ) (st : State) (account : LiveAccount) (event : ValidatedEvent)
      → IsAuthentic account event
      → (r : List Receipt × Enqueued) → enqueue id (event_of s q now account event) st.rows ≡ r
      → Explains id st
          (answer (stable_receipt_id s q.account_key event.source_event_key) st.values r)
  unfolding answer reject
  answer-Explains id st account event a (rows, Enqueued.backpressure) e = record {
    untouched =
        sym (ap (λ (x : List Receipt × Enqueued). x.0) e)
        ∙ enqueue-full id _ st.rows (ap (λ (x : List Receipt × Enqueued). x.1) e);
    counted = refl;
  }
  answer-Explains id st account event a (rows, Enqueued.accepted) e = record {
    has_room = (λ full. cc);
    account = account;
    event = event;
    authentic = a;
    named = refl;
    enqueued = e;
    counted = refl;
  }
  answer-Explains id st account event a (rows, Enqueued.duplicate) e = record {
    has_room = (λ full. cc);
    account = account;
    event = event;
    authentic = a;
    named = refl;
    enqueued = e;
    counted = refl;
  }

  -- Every request is answered, and counted once under its answer. It is let in only if its body is
  -- small enough, its time is near the clock, its account is known and its signature is that of the
  -- account's secret over time, account key and body, with a valid payload; the inbox then holds
  -- what `enqueue` makes of it. A request that is rejected, also one for which the inbox is full,
  -- leaves the inbox as it was.
  pub accept-Explains : (id : ℕ) (st : State) → Explains id st (accept s id q now st)
  unfolding accept deliver reject event_of
  accept-Explains id st = elim (Result-cases (check s q now)) [
    | inr (r, e) ↦ rw e (record { untouched = refl; counted = refl })
    | inl ((account, event), e) ↦
        rw e (answer-Explains id st account event (check-IsAuthentic account event e) _ refl)
  ]
