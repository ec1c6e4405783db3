-- ===== src/Runner/Run.antt =====
-- src/application/intake.ts: `DecryptJobRunner.run`, its `try`, `catch` and `finally` one by one.
use echohoard.Base.{
  Bool, List, Option, Result, String, [], err, false, if◌then◌else◌, is_empty, nat_eq, none, not,
  ok, some, string_eq, true, ◌&&◌, ◌==◌, ◌||◌, ◌∷◌,
}
use echohoard.Jobs.States.{ImportJob, JobStatus, job_status_eq}
use echohoard.Jobs.Failure.{adaptation, decryption, finalization, import, to_failure}
use echohoard.Runner.Ports.{
  Entry, Fault, M, Reply, RunState, World, abandon, acquire_lease, adapt, cleanup, cleanup_stale,
  decrypt, fence, get_job, import_records, kept, lost_after, lost_first, mark_adapting,
  mark_completed, mark_decrypting, mark_failed, mark_finalizing, mark_importing, mark_leased,
  monitored, need, note, other, plain_error, prepare, race, release, return, set_path, set_phase,
  snapshot_path, throw, ◌>>=◌, ◌>>◌,
}

-- Which of the optional ports the runner was built with.
pub record Options : Type 0 where
  pub has_adapter : Bool
  pub has_importer : Bool

-- What follows the call of `snapshots.path`, with its reply and that of `decrypt`: where the lease is
-- lost before the path is there or is used, the operation is abandoned and begins `decrypt` later.
unfoldable pub with_path : Reply String → Reply String → String → M String
with_path found reply work s = elim found.answer [
  | err e ↦ race s (record { answer = err e; beat = found.beat })
  | ok path ↦ elim found.beat [
    | kept ↦ race (note (decrypt path work) s) reply
    | lost_first ↦ abandon (decrypt path work) s
    | lost_after ↦ abandon (decrypt path work) s
  ]
]

-- `LeaseMonitor.run` of `this.decrypt.decrypt(await this.snapshots.path(...), ...)`.
unfoldable pub decrypt_operation : World → String → String → M String
decrypt_operation w snapshot work s =
    if s.lost
    then (s, err fence)
    else with_path w.on_path w.on_decrypt work (note (snapshot_path snapshot) s)

-- From `phase = "import"` before the import itself.
unfoldable pub last_steps : World → ImportJob → M Bool
last_steps w job = do
  set_phase import
  archive ← need job.archive_id
  source ← need job.source_id
  monitored (import_records ∷ []) w.on_import
  return true

unfoldable pub late_steps : World → ImportJob → String → M Bool
late_steps w job version = do
  set_phase import
  monitored (mark_importing version ∷ []) w.on_importing
  set_phase finalization
  monitored (mark_finalizing ∷ []) w.on_finalizing
  last_steps w job

unfoldable pub import_steps : World → ImportJob → String → String → String → M Bool
import_steps w job snapshot work output = do
  set_phase adaptation
  monitored (mark_adapting ∷ []) w.on_adapting
  account ← need job.owned_account_id
  version ← monitored (adapt output work snapshot account ∷ []) w.on_adapt
  late_steps w job version

unfoldable pub finish : Options → World → ImportJob → String → String → String → M Bool
finish o w job snapshot work output =
    if o.has_adapter && o.has_importer
    then import_steps w job snapshot work output
    else if o.has_adapter || o.has_importer
    then throw plain_error
    else (do monitored (mark_completed ∷ []) w.on_completed; return true)

-- The body of `try`.
unfoldable pub attempt : Options → World → ImportJob → M Bool
attempt o w job = do
  monitored (mark_leased ∷ []) w.on_leased
  work ← monitored (prepare ∷ []) w.on_prepare
  set_path work
  monitored (mark_decrypting ∷ []) w.on_decrypting
  snapshot ← need job.snapshot_id
  output ← decrypt_operation w snapshot work
  finish o w job snapshot work output

-- The body of `catch`.
unfoldable pub handle : World → Fault → M Bool
handle w fence s = (s, ok false)
handle w (other t) s =
    let failed = monitored {A = Unit {0}} (mark_failed (to_failure t s.phase) ∷ []) w.on_failed s in
    if s.lost then (s, ok false) else (
      failed.0,
      elim failed.1 [ ok _ ↦ ok false | err fence ↦ ok false | err (other u) ↦ err (other u) ],
    )

abbrev pub caught : World → RunState × Result Fault Bool → RunState × Result Fault Bool
caught w (s, ok b) = (s, ok b)
caught w (s, err e) = handle w e s

-- A `finally` block that throws replaces what was returned or thrown before it.
abbrev pub overridden : {A : Type 0} → Result Fault A → Result Fault (Unit {0}) → Result Fault A
overridden r (ok _) = r
overridden r (err e) = err e

-- The body of `finally`.
unfoldable pub clean : World → RunState × Result Fault Bool → RunState × Result Fault Bool
clean w (s, r) =
    if not (is_empty s.work_path)
    then (note (cleanup s.work_path) s, overridden r w.on_cleanup)
    else if s.lost
    then (note cleanup_stale s, overridden r w.on_cleanup_stale)
    else (s, r)

unfoldable pub settle : World → RunState × Result Fault Bool → RunState × Result Fault Bool
settle w (s, r) = (note release s, overridden r w.on_release)

abbrev pub started : RunState
started = record {
  log =
      record { call = acquire_lease; after_loss = false }
      ∷ record { call = get_job; after_loss = false }
      ∷ [];
  lost = false;
  abandoned = [];
  work_path = "";
  phase = decryption;
}

-- `value !== false`
abbrev not_false : Option Bool → Bool
not_false none = true
not_false (some b) = b

-- `job.status !== "queued" && (job.status !== "failed" || job.retryable === false)`, negated.
unfoldable pub may_run : ImportJob → Bool
may_run job =
    job.status == JobStatus.queued || (job.status == JobStatus.failed && not_false job.retryable)

abbrev pub asked : List Entry
asked = record { call = get_job; after_loss = false } ∷ []

-- What follows `acquire`.
unfoldable pub with_lease :
    Options → World → ImportJob → Result Fault (Option String) → List Entry × Result Fault Bool
with_lease o w job (err e) = (started.log, err e)
with_lease o w job (ok none) = (started.log, ok false)
with_lease o w job (ok (some lease)) =
    if is_empty lease
    then (started.log, ok false)
    else let done = settle w (clean w (caught w (attempt o w job started))) in (done.0.log, done.1)

-- What follows `get`.
unfoldable pub with_job :
    Options → World → Result Fault (Option ImportJob) → List Entry × Result Fault Bool
with_job o w (err e) = (asked, err e)
with_job o w (ok none) = (asked, ok false)
with_job o w (ok (some job)) =
    if may_run job then with_lease o w job w.acquired else (asked, ok false)

-- The log of the run, and what it returned or threw.
unfoldable pub run : Options → World → List Entry × Result Fault Bool
unfolding with_lease with_job
run o w = with_job o w w.got_job
