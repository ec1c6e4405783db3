-- ===== src/Jobs/States.antt =====
-- src/application/echohoard.ts: the statuses of deliveries, snapshots and import jobs, and their moves.
use echohoard.Base.{
  Bool, Comparable, List, Option, Result, String, [], any, arith, err, if◌then◌else◌, nat_eq, none,
  ok, string_eq, true, ℕ, ◌==◌, ◌↔◌, ◌∷◌, ◌≡◌,
}

pub data DeliveryStatus : Type 0 where
  discovered settling claimed completed failed : DeliveryStatus

pub data SnapshotStatus : Type 0 where
  pending ready failed : SnapshotStatus

pub data JobStatus : Type 0 where
  queued leased decrypting adapting importing finalizing completed failed : JobStatus

abbrev pub delivery_index : DeliveryStatus → ℕ
delivery_index discovered = 0
delivery_index settling = 1
delivery_index claimed = 2
delivery_index completed = 3
delivery_index failed = 4

abbrev pub snapshot_index : SnapshotStatus → ℕ
snapshot_index pending = 0
snapshot_index ready = 1
snapshot_index failed = 2

abbrev pub job_index : JobStatus → ℕ
job_index queued = 0
job_index leased = 1
job_index decrypting = 2
job_index adapting = 3
job_index importing = 4
job_index finalizing = 5
job_index completed = 6
job_index failed = 7

pub job_index_iff : (a b : JobStatus) → ((job_index a == job_index b) ≡ true) ↔ (a ≡ b)
job_index_iff a b = ground arith

instance abbrev pub job_status_eq : Comparable JobStatus
job_status_eq = record { same = λ a b. job_index a == job_index b; same_iff = job_index_iff }

abbrev pub delivery_transitions : DeliveryStatus → List DeliveryStatus
delivery_transitions discovered = settling ∷ DeliveryStatus.failed ∷ []
delivery_transitions settling = discovered ∷ claimed ∷ DeliveryStatus.failed ∷ []
delivery_transitions claimed = DeliveryStatus.completed ∷ DeliveryStatus.failed ∷ []
delivery_transitions completed = []
delivery_transitions failed = settling ∷ claimed ∷ []

abbrev pub snapshot_transitions : SnapshotStatus → List SnapshotStatus
snapshot_transitions pending = ready ∷ SnapshotStatus.failed ∷ []
snapshot_transitions ready = []
snapshot_transitions failed = pending ∷ []

abbrev pub job_transitions : JobStatus → List JobStatus
job_transitions queued = leased ∷ JobStatus.failed ∷ []
job_transitions leased = decrypting ∷ queued ∷ JobStatus.failed ∷ []
job_transitions decrypting = adapting ∷ JobStatus.completed ∷ JobStatus.failed ∷ []
job_transitions adapting = importing ∷ JobStatus.failed ∷ []
job_transitions importing = finalizing ∷ JobStatus.failed ∷ []
job_transitions finalizing = JobStatus.completed ∷ JobStatus.failed ∷ []
job_transitions completed = []
job_transitions failed = queued ∷ leased ∷ []

-- `InvalidTransitionError`: the entity, the status that it has and the one that was asked for.
pub data InvalidTransition : Type 0 where
  delivery_move : DeliveryStatus → DeliveryStatus → InvalidTransition
  snapshot_move : SnapshotStatus → SnapshotStatus → InvalidTransition
  job_move : JobStatus → JobStatus → InvalidTransition

pub record DeliveryFile : Type 0 where
  pub name : String
  pub size : ℕ
  pub modified_at : ℕ

pub record Delivery : Type 0 where
  pub id : String
  pub path : String
  pub files : List DeliveryFile
  pub discovered_at : ℕ
  pub status : DeliveryStatus

pub record Snapshot : Type 0 where
  pub id : String
  pub delivery_id : String
  pub source_hash : String
  pub path : String
  pub created_at : ℕ
  pub status : SnapshotStatus

pub record ImportJob : Type 0 where
  pub id : String
  pub archive_id : Option String
  pub owned_account_id : Option String
  pub source_id : Option String
  pub snapshot_id : Option String
  pub status : JobStatus
  pub lease : Option String
  pub retryable : Option Bool
  pub observed_at : Option ℕ
  pub updated_at : ℕ

abbrev delivery_allows : DeliveryStatus → DeliveryStatus → Bool
delivery_allows from to =
    any (λ s. delivery_index s == delivery_index to) (delivery_transitions from)

abbrev snapshot_allows : SnapshotStatus → SnapshotStatus → Bool
snapshot_allows from to =
    any (λ s. snapshot_index s == snapshot_index to) (snapshot_transitions from)

abbrev pub job_allows : JobStatus → JobStatus → Bool
job_allows from to = any (λ s. s == to) (job_transitions from)

unfoldable pub transition_delivery : Delivery → DeliveryStatus → Result InvalidTransition Delivery
transition_delivery delivery status =
    if delivery_allows delivery.status status
    then ok (record delivery { status = status })
    else err (delivery_move delivery.status status)

unfoldable pub transition_snapshot : Snapshot → SnapshotStatus → Result InvalidTransition Snapshot
transition_snapshot snapshot status =
    if snapshot_allows snapshot.status status
    then ok (record snapshot { status = status })
    else err (snapshot_move snapshot.status status)

-- A job that goes back to the queue loses its lease.
unfoldable pub transition_import_job : ImportJob → JobStatus → Result InvalidTransition ImportJob
transition_import_job job status =
    if job_allows job.status status
    then ok (record job {
      status = status;
      lease = if status == JobStatus.queued then none else job.lease;
    })
    else err (job_move job.status status)
