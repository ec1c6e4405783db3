-- ===== src/Lifecycle.antt =====
-- src/worker/lifecycle.ts: `WorkerLifecycle` and `installSignalHandlers`, as steps of the event loop.
-- The hooks `onStart` and `onDrain` settle at any later step, with success or not.
pub mod Once
mod Tests
use echohoard.Base.{
  Bool, List, Option, [], false, if◌then◌else◌, nat_eq, none, some, string_eq, true, ℕ, ◌+◌, ◌-◌,
  ◌==◌, ◌∷◌,
}

pub data WorkerLifecycleState : Type 0 where
  starting ready draining stopped failed : WorkerLifecycleState

pub data Signal : Type 0 where
  sigterm sigint : Signal

-- `starts` counts the calls of `start` that wait for `onStart`. `outcome` is how the shutdown promise
-- settled, `drains` are the calls of `onDrain`, `exits` those of `exit`; `waiting` says that the
-- signal handler waits for the promise.
pub record Lifecycle : Type 0 where
  pub current : WorkerLifecycleState
  pub starts : ℕ
  pub is_shutdown : Bool
  pub is_drain_pending : Bool
  pub outcome : Option Bool
  pub drains : List Signal
  pub handled : Bool
  pub waiting : Bool
  pub exits : List ℕ

pub data LifecycleStep : Type 0 where
  start_called : LifecycleStep
  start_settled : Bool → LifecycleStep
  shutdown_called : Signal → LifecycleStep
  drain_settled : Bool → LifecycleStep
  signal_sent : Signal → LifecycleStep

abbrev pub initial : Lifecycle
initial = record {
  current = starting;
  starts = 0;
  is_shutdown = false;
  is_drain_pending = false;
  outcome = none;
  drains = [];
  handled = false;
  waiting = false;
  exits = [];
}

abbrev pub is_starting : WorkerLifecycleState → Bool
is_starting starting = true
is_starting _ = false

-- `exit(0)` after a drain that succeeded, `exit(1)` after one that did not.
abbrev pub exit_code : Bool → ℕ
exit_code true = 0
exit_code false = 1

unfoldable pub start : Lifecycle → Lifecycle
start s = if is_starting s.current then record s { starts = s.starts + 1 } else s

-- What follows `await this.options.onStart?.()`.
unfoldable pub started : Bool → Lifecycle → Lifecycle
started success s = if s.starts == 0 then s else record s {
  starts = s.starts - 1;
  current = if success then ready else WorkerLifecycleState.failed;
}

unfoldable pub shutdown : Signal → Lifecycle → Lifecycle
shutdown signal s = if s.is_shutdown then s else record s {
  is_shutdown = true;
  current = draining;
  drains = signal ∷ s.drains;
  is_drain_pending = true;
}

-- What follows `await this.options.onDrain?.(signal)`, and the handlers on the promise.
unfoldable pub drained : Bool → Lifecycle → Lifecycle
drained success s =
    if s.is_drain_pending
    then record s {
      is_drain_pending = false;
      current = if success then stopped else WorkerLifecycleState.failed;
      outcome = some success;
      waiting = false;
      exits = if s.waiting then exit_code success ∷ s.exits else s.exits;
    }
    else s

-- What `handle` attaches to the promise, which may have settled before.
abbrev pub await_exit : Option Bool → Lifecycle → Lifecycle
await_exit none s = record s { handled = true; waiting = true }
await_exit (some success) s = record s { handled = true; exits = exit_code success ∷ s.exits }

unfoldable pub handle_signal : Signal → Lifecycle → Lifecycle
handle_signal signal s = if s.handled then s else await_exit s.outcome (shutdown signal s)

unfoldable pub lifecycle_step : LifecycleStep → Lifecycle → Lifecycle
lifecycle_step start_called s = start s
lifecycle_step (start_settled success) s = started success s
lifecycle_step (shutdown_called signal) s = shutdown signal s
lifecycle_step (drain_settled success) s = drained success s
lifecycle_step (signal_sent signal) s = handle_signal signal s

unfoldable pub lifecycle_run : List LifecycleStep → Lifecycle → Lifecycle
lifecycle_run [] s = s
lifecycle_run (step ∷ later) s = lifecycle_run later (lifecycle_step step s)
