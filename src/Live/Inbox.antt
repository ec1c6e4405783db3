-- ===== src/Live/Inbox.antt =====
-- src/infrastructure/db/prisma-persistence.ts, `PrismaLiveEventInboxPersistence`, and the claim that
-- `PrismaLiveEventNormalizer.normalize` makes itself. Each operation is one statement or one
-- transaction on the table; new ids are given by the caller, times are milliseconds.
use echohoard.Base.{
  Bool, Comparable, List, Option, String, any, arith, false, filter, if◌then◌else◌, insert_by,
  is_some_of, leb, length, ltb, map, max, min, nat_eq, none, not, some, sort_by, string_eq, take,
  true, ℕ, ◌&&◌, ◌+◌, ◌==◌, ◌||◌, ◌↔◌, ◌∷◌, ◌≡◌,
}

pub data ReceiptStatus : Type 0 where
  pending processing normalized failed : ReceiptStatus

abbrev status_index : ReceiptStatus → ℕ
status_index pending = 0
status_index processing = 1
status_index normalized = 2
status_index failed = 3

pub status_index_iff : (a b : ReceiptStatus) → ((status_index a == status_index b) ≡ true) ↔ (a ≡ b)
status_index_iff a b = ground arith

instance abbrev pub status_eq : Comparable ReceiptStatus
status_eq = record { same = λ a b. status_index a == status_index b; same_iff = status_index_iff }

-- `payload` is the stored JSON text. The columns "createdAt" and "updatedAt" are never read.
pub record Receipt : Type 0 where
  pub id : ℕ
  pub archive_id : String
  pub owned_account_id : String
  pub receipt_id : String
  pub source_event_key : String
  pub event_kind : String
  pub payload : String
  pub observed_at : ℕ
  pub received_at : ℕ
  pub status : ReceiptStatus
  pub attempts : ℕ
  pub claim_id : Option String
  pub claim_expires_at : Option ℕ
  pub error_class : Option String
  pub retryable : Option Bool

-- The unique key of a receipt.
pub record ReceiptKey : Type 0 where
  pub archive : String
  pub account : String
  pub receipt : String

pub record Event : Type 0 where
  pub key : ReceiptKey
  pub source_event_key : String
  pub event_kind : String
  pub payload : String
  pub observed_at : ℕ
  pub received_at : ℕ
  pub max_pending : ℕ

pub data Enqueued : Type 0 where
  accepted duplicate backpressure : Enqueued

abbrev pub has_key : ReceiptKey → Receipt → Bool
has_key k r =
    r.archive_id == k.archive && r.owned_account_id == k.account && r.receipt_id == k.receipt

abbrev pub is_pending_of : ReceiptKey → Receipt → Bool
is_pending_of k r =
    r.archive_id == k.archive && r.owned_account_id == k.account && r.status == pending

abbrev pub new_receipt : ℕ → Event → Receipt
new_receipt id e = record {
  id = id;
  archive_id = e.key.archive;
  owned_account_id = e.key.account;
  receipt_id = e.key.receipt;
  source_event_key = e.source_event_key;
  event_kind = e.event_kind;
  payload = e.payload;
  observed_at = e.observed_at;
  received_at = e.received_at;
  status = pending;
  attempts = 0;
  claim_id = none;
  claim_expires_at = none;
  error_class = none;
  retryable = none;
}

unfoldable pub enqueue : ℕ → Event → List Receipt → List Receipt × Enqueued
enqueue id e rows =
    if any (has_key e.key) rows
    then (rows, duplicate)
    else if leb e.max_pending (length (filter (is_pending_of e.key) rows))
    then (rows, backpressure)
    else (new_receipt id e ∷ rows, accepted)

-- `<=` with a column that may be `NULL`.
abbrev pub is_due : Option ℕ → ℕ → Bool
is_due none now = false
is_due (some t) now = leb t now

abbrev pub is_claimable : Option String → ℕ → Receipt → Bool
is_claimable archive now r =
    ((r.status == pending && ltb r.attempts 3)
      || (r.status == processing && is_due r.claim_expires_at now))
    && elim archive [ none ↦ true | some a ↦ r.archive_id == a ]

-- What a worker asks for, and the claim id that each row would get. `skips` are the rows that other
-- transactions have locked.
pub record Request : Type 0 where
  pub archive : Option String
  pub limit : ℕ
  pub now : ℕ
  pub expires_at : ℕ
  pub skips : Receipt → Bool
  pub new_claim : ℕ → String

abbrev pub chosen : Request → List Receipt → List ℕ
chosen q rows =
    map (λ (r : Receipt). r.id)
      (take (max 1 (min 100 q.limit)) (
        sort_by (λ (r : Receipt). r.received_at) (λ r. r.id)
          (filter (λ r. is_claimable q.archive q.now r && not (q.skips r)) rows)))

abbrev pub claim_row : Request → List ℕ → Receipt → Receipt
claim_row q ids r =
    if any (λ i. i == r.id) ids
    then record r {
      status = processing;
      attempts = r.attempts + 1;
      claim_id = some (q.new_claim r.id);
      claim_expires_at = some q.expires_at;
    }
    else r

abbrev is_returned : List ℕ → Receipt → Bool
is_returned ids r =
    any (λ i. i == r.id) ids
    && r.status == processing
    && elim r.claim_id [ none ↦ false | some c ↦ true ]

unfoldable pub claim_pending : Request → List Receipt → List Receipt × List Receipt
unfolding sort_by insert_by
claim_pending q rows =
    let ids = chosen q rows in
    let rows' = map (claim_row q ids) rows in
    (rows', sort_by (λ (r : Receipt). r.received_at) (λ r. r.id) (filter (is_returned ids) rows'))

-- The row is being processed under this claim.
abbrev pub is_claimed_by : ReceiptKey → String → Receipt → Bool
is_claimed_by k claim r = has_key k r && is_some_of r.claim_id claim && r.status == processing

-- The code throws when other than one row was changed.
abbrev pub changed_one : (Receipt → Bool) → List Receipt → Bool
changed_one p rows = length (filter p rows) == 1

abbrev pub complete_row : ReceiptKey → String → Receipt → Receipt
complete_row k claim r =
    if is_claimed_by k claim r
    then record r {
      status = normalized;
      claim_id = none;
      claim_expires_at = none;
      retryable = some false;
    }
    else r

unfoldable pub complete_claim : ReceiptKey → String → List Receipt → List Receipt × Bool
complete_claim k claim rows =
    (map (complete_row k claim) rows, changed_one (is_claimed_by k claim) rows)

abbrev pub fail_row : ReceiptKey → String → Bool → String → Receipt → Receipt
fail_row k claim again class r =
    if is_claimed_by k claim r
    then record r {
      status = if not again || leb 3 r.attempts then failed else pending;
      error_class = some class;
      retryable = some again;
      claim_id = none;
      claim_expires_at = none;
    }
    else r

unfoldable pub fail_claim : ReceiptKey → String → Bool → String → List Receipt → List Receipt × Bool
fail_claim k claim again class rows =
    (map (fail_row k claim again class) rows, changed_one (is_claimed_by k claim) rows)

abbrev pub begin_row : ReceiptKey → String → ℕ → Receipt → Receipt
begin_row k claim now r =
    if has_key k r && r.status == pending
    then record r {
      status = processing;
      claim_id = some claim;
      claim_expires_at = some (now + 60000);
      attempts = r.attempts + 1;
    }
    else r

-- The claim of `normalize` when it was given none.
unfoldable pub begin_claim : ReceiptKey → String → ℕ → List Receipt → List Receipt × Bool
begin_claim k claim now rows =
    (map (begin_row k claim now) rows, changed_one (λ r. has_key k r && r.status == pending) rows)
