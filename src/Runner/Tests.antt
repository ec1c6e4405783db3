-- ===== src/Runner/Tests.antt =====
-- Concrete runs of the worker, and the theorems about it at concrete inputs.
use echohoard.Base.{
  All, Bool, List, Result, [], err, false, length, none, ok, refl, some, true, ◌∷◌, ◌≡◌, ◌≢◌,
}
use echohoard.Jobs.States.{ImportJob, queued}
use echohoard.Jobs.Failure.{Thrown, decryption, to_failure}
use echohoard.Runner.Ports.{
  Entry, Fault, Reply, RunState, World, cleanup, decrypt, import_records, lost_after, lost_first,
  mark_failed, monitored, need, other, release, set_path, set_phase, ◌>>=◌,
}
use echohoard.Runner.Run.{
  Options, attempt, clean, decrypt_operation, finish, handle, import_steps, last_steps, late_steps,
  may_run, run, settle, with_path,
}
use echohoard.Runner.Order.{IsClaimed, claimed_run, run-releases}
use echohoard.Runner.Abandoned.{Abandons, run-IsQuiet}
use echohoard.Runner.Steps.{Falls}
use echohoard.Runner.Outcomes.{
  after_settling, decrypt-failure, decrypt-loss, early_calls, entry, settles,
}
use echohoard.Runner.Success.{IsDone, true-IsDone}

abbrev job : ImportJob
job = record {
  id = "job-1";
  archive_id = some "archive-1";
  owned_account_id = some "account-1";
  source_id = some "source-1";
  snapshot_id = some "snapshot-1";
  status = queued;
  lease = none;
  retryable = none;
  observed_at = none;
  updated_at = 1000;
}

abbrev done : Reply (Unit {0})
done = settles (ok tt)

abbrev smooth : World
smooth = record {
  got_job = ok (some job);
  acquired = ok (some "lease-a");
  on_leased = done;
  on_prepare = settles (ok "/work/1");
  on_decrypting = done;
  on_path = settles (ok "/snapshots/1");
  on_decrypt = settles (ok "/work/1/msgstore.db");
  on_adapting = done;
  on_adapt = settles (ok "v1");
  on_importing = done;
  on_finalizing = done;
  on_completed = done;
  on_import = done;
  on_failed = done;
  on_cleanup = ok tt;
  on_cleanup_stale = ok tt;
  on_release = ok tt;
}

abbrev bad_key : Thrown
bad_key = record { kind = some "invalid-key"; phase = none }

abbrev rejected : World
rejected = record smooth { on_decrypt = settles (err (other bad_key)) }

abbrev overtaken : World
overtaken = record smooth { on_decrypt = record { answer = ok "/work/1/out"; beat = lost_after } }

abbrev stalled : World
stalled = record smooth { on_path = record { answer = ok "/snapshots/1"; beat = lost_first } }

abbrev full : Options
full = record { has_adapter = true; has_importer = true }

-- What a concrete run computes through.
whole_run : Options → World → List Entry × Result Fault Bool
unfolding run may_run attempt decrypt_operation with_path finish import_steps late_steps last_steps
    set_path set_phase need monitored settle clean ◌>>=◌
whole_run = run

computed_run : Options → World → ImportJob → RunState × Result Fault Bool
unfolding claimed_run attempt decrypt_operation with_path set_path need monitored handle clean ◌>>=◌
computed_run = claimed_run

smooth-run : (run full smooth).1 ≡ ok true
unfolding whole_run
smooth-run = refl

smooth_calls : length (run full smooth).0 ≡ 14
unfolding whole_run
smooth_calls = refl

claimed :
    {w : World}
    → w.got_job ≡ ok (some job)
    → w.acquired ≡ ok (some "lease-a")
    → IsClaimed w job "lease-a"
unfolding may_run
claimed j l = record { job_found = j; runnable = refl; lease_given = l; lease_named = refl }

-- The path is found only after the loss, and the decryption is begun all the same.
left_behind : (claimed_run full stalled job).0.abandoned ≡ decrypt "/snapshots/1" "/work/1" ∷ []
unfolding computed_run
left_behind = refl

run-IsQuiet_example :
    Falls 17 (run full stalled).0 × Abandons stalled (claimed_run full stalled job).0.abandoned
run-IsQuiet_example = run-IsQuiet full stalled job

run-releases_example :
    (last : Entry) × (earlier : List Entry) × ((run full rejected).0 ≡ last ∷ earlier)
    × (last.call ≡ release)
    × All (λ e. e.call ≢ release) earlier
run-releases_example = run-releases full rejected job "lease-a" (claimed refl refl)

true-IsDone_example : IsDone import_records smooth.on_import (run full smooth).0
true-IsDone_example = true-IsDone full smooth job "lease-a" (claimed refl refl) smooth-run

decrypt-failure_example : run full rejected ≡ (
  entry release
      ∷ entry (cleanup "/work/1")
      ∷ entry (mark_failed (to_failure bad_key decryption))
      ∷ early_calls "snapshot-1" "/snapshots/1" "/work/1",
  ok false,
)
decrypt-failure_example =
    decrypt-failure full rejected job "lease-a" "/work/1" "snapshot-1" "/snapshots/1" bad_key
      (claimed refl refl)
      (record {
        leased = refl;
        prepared = refl;
        decrypting_marked = refl;
        has_snapshot = refl;
        snapshot_named = refl;
        path_found = refl;
      })
      (record { work_named = refl; cleaned = refl; released = refl }) refl refl

decrypt-loss_example : run full overtaken ≡ (
  record { call = release; after_loss = true }
      ∷ record { call = cleanup "/work/1"; after_loss = true }
      ∷ early_calls "snapshot-1" "/snapshots/1" "/work/1",
  ok false,
)
decrypt-loss_example =
    decrypt-loss full overtaken job "lease-a" "/work/1" "snapshot-1" "/snapshots/1"
      (claimed refl refl)
      (record {
        leased = refl;
        prepared = refl;
        decrypting_marked = refl;
        has_snapshot = refl;
        snapshot_named = refl;
        path_found = refl;
      })
      (record { work_named = refl; cleaned = refl; released = refl }) (after_settling _)
