-- ===== src/Live/Tests.antt =====
-- Concrete requests and inboxes, and the theorems about live events at concrete inputs.
use echohoard.Base.{
  All, Any, List, String, [], false, if◌then◌else◌, inl, nat_eq, none, refl, some, string_eq, true,
  ℕ, ◌==◌, ◌∷◌, ◌≡◌,
}
use echohoard.Live.Wire.{
  from_hex, is_hex, is_signature, number_from, parse_timestamp, supplied_bytes,
}
use echohoard.Live.Inbox.{
  Enqueued, Event, Receipt, ReceiptKey, Request, complete_claim, enqueue, fail_claim, new_receipt,
  normalized, processing, status_eq,
}
use echohoard.Live.Receipts.{InboxStep, claims, completes, inbox_run}
use echohoard.Live.Receipts.Once.{enqueue-once}
use echohoard.Live.Receipts.Settled.{settled-final}
use echohoard.Live.Receipts.Fenced.{IsConsistent, IsOver, claim-IsOver, run-IsConsistent}
use echohoard.Live.Intake.{
  Intake, IntakeRequest, State, accept, answer, check, deliver, event_of, expected_bytes, is_signed,
  sign_live_event, stable_receipt_id, taken, verify_signature,
}
use echohoard.Live.Intake.Authentic.{Explains, accept-Explains}
use echohoard.Live.Intake.Replay.{IsRepeat, accept-IsRepeat}

abbrev key : ReceiptKey
key = record { archive = "archive-1"; account = "account-1"; receipt = "receipt-1" }

abbrev event : Event
event = record {
  key = key;
  source_event_key = "event-1";
  event_kind = "message";
  payload = "{}";
  observed_at = 1000;
  received_at = 2000;
  max_pending = 10;
}

abbrev asked : String → Request
asked name = record {
  archive = none;
  limit = 5;
  now = 3000;
  expires_at = 63000;
  skips = λ r. false;
  new_claim = λ id. name;
}

busy : List InboxStep
busy = claims (asked "claim-2") ∷ completes key "claim-2" ∷ []

enqueue-once_example :
    let then_rows = inbox_run busy (enqueue 1 event []).0 in
    enqueue 2 event then_rows ≡ (then_rows, Enqueued.duplicate)
unfolding enqueue
enqueue-once_example = enqueue-once 1 2 event event busy [] (λ full. cc) refl

abbrev finished : Receipt
finished = record (new_receipt 1 event) { status = normalized; attempts = 1 }

settled-final_example : Any (λ q. q ≡ finished) (inbox_run busy (finished ∷ []))
unfolding busy
settled-final_example =
    settled-final finished refl busy (finished ∷ []) (tt, (tt, tt)) ((λ e. refl), tt) (inl refl)

abbrev in_work : Receipt
in_work = record (new_receipt 1 event) {
  status = processing;
  attempts = 1;
  claim_id = some "claim-1";
  claim_expires_at = some 2500;
}

run-IsConsistent_example : All IsConsistent (inbox_run busy (in_work ∷ []))
run-IsConsistent_example = run-IsConsistent busy (in_work ∷ []) (refl, tt)

claim-IsOver_example :
    IsOver key "claim-1" (inbox_run busy (complete_claim key "claim-1" (in_work ∷ [])).0)
    × IsOver key "claim-1" (inbox_run busy (fail_claim key "claim-1" true "crash" (in_work ∷ [])).0)
unfolding busy
claim-IsOver_example =
    claim-IsOver key "claim-1" true "crash" busy (in_work ∷ []) (refl, tt) ((λ id. refl), (tt, tt))

abbrev zeros : String
zeros = "0000000000000000000000000000000000000000000000000000000000000000"

abbrev intake : Intake
intake = record {
  resolve = λ k.
      if k == "home"
      then some (record { archive_id = "archive-1"; owned_account_id = "account-1"; secret = "s" })
      else none;
  validate = λ body k. some (record {
    kind = "message";
    source_event_key = "event-1";
    observed_at = none;
    payload = "{}";
  });
  hmac = λ secret bytes. zeros;
  sha256 = λ bytes. zeros;
  max_pending = 10;
  max_clock_skew_seconds = 300;
}

abbrev request : IntakeRequest
request = record {
  account_key = "home";
  signature = some "sha256=0000000000000000000000000000000000000000000000000000000000000000";
  timestamp = some "1700000000";
  body = 123 ∷ 125 ∷ [];
  received_at = none;
}

abbrev start : State
start = record { rows = []; values = [] }

abbrev first_now : ℕ
first_now = 1700000100000

accept-Explains_example :
    Explains intake request first_now 1 start (accept intake 1 request first_now start)
accept-Explains_example = accept-Explains intake request first_now 1 start

taken_first : (accept intake 1 request first_now start).1 ≡ taken Enqueued.accepted zeros
unfolding accept deliver check is_signed verify_signature is_signature is_hex from_hex
    supplied_bytes expected_bytes sign_live_event parse_timestamp number_from answer enqueue
    stable_receipt_id event_of
taken_first = refl

again : State
again = record {
  rows = inbox_run busy (accept intake 1 request first_now start).0.rows;
  values = [];
}

accept-IsRepeat_example :
    IsRepeat intake request zeros again.rows (accept intake 2 request 1700000200000 again)
unfolding again
accept-IsRepeat_example =
    accept-IsRepeat intake request 1 2 first_now 1700000200000 start again Enqueued.accepted zeros
      busy taken_first refl
