-- ===== src/Live/Intake.antt =====
-- src/application/live-event-intake.ts: `LiveEventIntakeService`, its signature and its metrics, over
-- the inbox. The resolver of accounts, the validator of payloads, HMAC and SHA-256 are parameters.
pub mod Authentic
pub mod Replay
use echohoard.Base.{
  Bool, List, Option, Result, String, [], as_result, codes, err, false, if◌then◌else◌, is_empty,
  leb, length, nat_eq, none, not, ok, require, same_units, some, string_eq, ℕ, ◌&&◌, ◌*◌, ◌++◌, ◌+◌,
  ◌-◌, ◌/◌, ◌==◌, ◌>>=◌, ◌>>◌, ◌∷◌,
}
use echohoard.Live.Wire.{
  from_hex, is_hex, is_signature, parse_timestamp, signed_bytes, supplied_bytes, utf8,
}
use echohoard.Live.Inbox.{Enqueued, Event, Receipt, accepted, duplicate, enqueue, status_eq}

pub data Rejection : Type 0 where
  invalid_signature invalid_timestamp stale_timestamp unknown_account : Rejection
  invalid_payload payload_too_large backpressure : Rejection

pub record LiveAccount : Type 0 where
  pub archive_id : String
  pub owned_account_id : String
  pub secret : String

-- `observed_at` is the time that the text of `observedAt` names; `payload` is its JSON text.
pub record ValidatedEvent : Type 0 where
  pub kind : String
  pub source_event_key : String
  pub observed_at : Option ℕ
  pub payload : String

pub record IntakeRequest : Type 0 where
  pub account_key : String
  pub signature : Option String
  pub timestamp : Option String
  pub body : List ℕ
  pub received_at : Option ℕ

pub data IntakeResult : Type 0 where
  taken : Enqueued → String → IntakeResult
  rejected : Rejection → IntakeResult

-- The names that `CountingLiveEventMetrics` counts.
pub data Metric : Type 0 where
  rejected_for : Rejection → Metric
  accepted_as : Enqueued → Metric

-- What the service is built with; `hmac` and `sha256` give digests in hexadecimal, and `validate`
-- gives `none` where it throws.
pub record Intake : Type 0 where
  pub resolve : String → Option LiveAccount
  pub validate : List ℕ → String → Option ValidatedEvent
  pub hmac : String → List ℕ → String
  pub sha256 : List ℕ → String
  pub max_pending : ℕ
  pub max_clock_skew_seconds : ℕ

-- `signLiveEvent` without its prefix "sha256=".
unfoldable pub sign_live_event : Intake → List ℕ → ℕ → String → String → String
sign_live_event s body timestamp secret account_key =
    s.hmac secret (signed_bytes body timestamp account_key)

unfoldable pub expected_bytes : Intake → List ℕ → ℕ → String → String → List ℕ
unfolding from_hex is_hex
expected_bytes s body timestamp account_key secret =
    from_hex (codes (sign_live_event s body timestamp secret account_key))

unfoldable pub verify_signature : Intake → List ℕ → String → ℕ → String → String → Bool
verify_signature s body header timestamp account_key secret =
    is_signature header
    && not (is_empty secret)
    && same_units (supplied_bytes header) (expected_bytes s body timestamp account_key secret)

-- `stableReceiptId`
unfoldable pub stable_receipt_id : Intake → String → String → String
stable_receipt_id s account_key source_event_key =
    s.sha256
      (utf8 "echohoard-live-receipt:v1" ++ (0 ∷ (utf8 account_key ++ (0 ∷ utf8 source_event_key))))

-- `Math.abs(a - b)`
abbrev pub distance : ℕ → ℕ → ℕ
distance a b = (a - b) + (b - a)

-- `!request.signature || !verifySignature(...)`, negated.
unfoldable pub is_signed : Intake → IntakeRequest → ℕ → LiveAccount → Bool
is_signed s q timestamp account = elim q.signature [
  | none ↦ false
  | some header ↦
      not (is_empty header)
      && verify_signature s q.body header timestamp q.account_key account.secret
]

-- What `accept` checks before the inbox is asked.
unfoldable pub check : Intake → IntakeRequest → ℕ → Result Rejection (LiveAccount × ValidatedEvent)
check s q now = do
  require (leb (length q.body) (256 * 1024)) payload_too_large
  timestamp ← as_result invalid_timestamp (parse_timestamp q.timestamp)
  require (leb (distance (now / 1000) timestamp) s.max_clock_skew_seconds) stale_timestamp
  account ← as_result unknown_account (s.resolve q.account_key)
  require (is_signed s q timestamp account) invalid_signature
  event ← as_result invalid_payload (s.validate q.body q.account_key)
  ok (account, event)

abbrev or_else : Option ℕ → ℕ → ℕ
or_else none t = t
or_else (some u) t = u

unfoldable pub event_of : Intake → IntakeRequest → ℕ → LiveAccount → ValidatedEvent → Event
event_of s q now account event = record {
  key = record {
    archive = account.archive_id;
    account = account.owned_account_id;
    receipt = stable_receipt_id s q.account_key event.source_event_key;
  };
  source_event_key = event.source_event_key;
  event_kind = event.kind;
  payload = event.payload;
  observed_at = or_else event.observed_at (or_else q.received_at now);
  received_at = or_else q.received_at now;
  max_pending = s.max_pending;
}

rejection_index : Rejection → ℕ
rejection_index invalid_signature = 0
rejection_index invalid_timestamp = 1
rejection_index stale_timestamp = 2
rejection_index unknown_account = 3
rejection_index invalid_payload = 4
rejection_index payload_too_large = 5
rejection_index Rejection.backpressure = 6

enqueued_index : Enqueued → ℕ
enqueued_index accepted = 7
enqueued_index duplicate = 8
enqueued_index Enqueued.backpressure = 9

metric_index : Metric → ℕ
unfolding rejection_index enqueued_index
metric_index (rejected_for r) = rejection_index r
metric_index (accepted_as k) = enqueued_index k

-- `increment`: `this.values.set(name, (this.values.get(name) ?? 0) + 1)`
unfoldable pub increment : Metric → List (Metric × ℕ) → List (Metric × ℕ)
unfolding metric_index
increment m [] = (m, 1) ∷ []
increment m ((k, n) ∷ values) =
    let rest = increment m values in
    if metric_index k == metric_index m then (k, n + 1) ∷ values else (k, n) ∷ rest

-- The inbox and the counters.
pub record State : Type 0 where
  pub rows : List Receipt
  pub values : List (Metric × ℕ)

unfoldable pub reject : Rejection → State → State × IntakeResult
reject r st = (record st { values = increment (rejected_for r) st.values }, rejected r)

-- What follows `enqueue`.
unfoldable pub answer : String → List (Metric × ℕ) → List Receipt × Enqueued → State × IntakeResult
answer receipt values (rows, Enqueued.backpressure) =
    reject Rejection.backpressure (record { rows = rows; values = values })
answer receipt values (rows, k) =
    (record { rows = rows; values = increment (accepted_as k) values }, taken k receipt)

unfoldable pub deliver :
    Intake
    → ℕ
    → IntakeRequest
    → ℕ
    → State
    → Result Rejection (LiveAccount × ValidatedEvent)
    → State × IntakeResult
deliver s id q now st (err r) = reject r st
deliver s id q now st (ok (account, event)) =
    let e = event_of s q now account event in answer e.key.receipt st.values (enqueue id e st.rows)

-- `accept`; `id` is the id of the row that may be created.
unfoldable pub accept : Intake → ℕ → IntakeRequest → ℕ → State → State × IntakeResult
accept s id q now st = deliver s id q now st (check s q now)
