-- ===== src/Lifecycle/Once.antt =====
-- A process drains once and exits once: src/worker/lifecycle.ts.
use echohoard.Base.{Bool, List, [], arith, false, length, true, ℕ, ◌++◌, ◌+◌, ◌∷◌, ◌≡◌, ◌≤◌}
use echohoard.Lifecycle.{
  Lifecycle, LifecycleStep, Signal, drain_settled, drained, handle_signal, lifecycle_run,
  lifecycle_step, ready, shutdown, shutdown_called, signal_sent, start, start_called, start_settled,
  started, starting, stopped,
}

abbrev bit : Bool → ℕ
bit true = 1
bit false = 0

-- The drain was called exactly if a shutdown began, and each signal handler that ran has exited or
-- waits to exit.
pub record IsOrderly (s : Lifecycle) : Type 0 where
  pub one_drain : length s.drains ≡ bit s.is_shutdown
  pub one_exit : length s.exits + bit s.waiting ≡ bit s.handled

step-IsOrderly :
    (step : LifecycleStep) (s : Lifecycle) → IsOrderly s → IsOrderly (lifecycle_step step s)
unfolding lifecycle_step start started shutdown drained handle_signal
step-IsOrderly start_called s h = record {
  one_drain = ground (arith, h.one_drain);
  one_exit = ground (arith, h.one_exit);
}
step-IsOrderly (start_settled success) s h = record {
  one_drain = ground (arith, h.one_drain);
  one_exit = ground (arith, h.one_exit);
}
step-IsOrderly (shutdown_called signal) s h = record {
  one_drain = ground (arith, h.one_drain);
  one_exit = ground (arith, h.one_exit);
}
step-IsOrderly (drain_settled success) s h = record {
  one_drain = ground (arith, h.one_drain);
  one_exit = ground (arith, h.one_exit);
}
step-IsOrderly (signal_sent signal) s h = record {
  one_drain = ground (arith, h.one_drain);
  one_exit = ground (arith, h.one_exit);
}

-- Whatever calls, signals and settled hooks come in whatever order to an orderly process, it stays
-- orderly, the drain is called at most once and the process exits at most once.
pub run-IsOrderly :
    (steps : List LifecycleStep) (s : Lifecycle)
    → IsOrderly s
    → IsOrderly (lifecycle_run steps s)
      × (length (lifecycle_run steps s).drains ≤ 1)
      × (length (lifecycle_run steps s).exits ≤ 1)
unfolding lifecycle_run
run-IsOrderly [] s h = (h, ground (arith, h.one_drain), ground (arith, h.one_exit))
run-IsOrderly (step ∷ later) s h = run-IsOrderly later _ (step-IsOrderly step s h)

-- A start that is still waiting for its hook when a shutdown begins takes the worker from stopped
-- back to ready when the hook settles after the drain.
pub started-shutdown :
    (signal : Signal) (s : Lifecycle)
    → s.current ≡ starting
    → s.is_shutdown ≡ false
    → let stopping = start_called ∷ shutdown_called signal ∷ drain_settled true ∷ [] in
      ((lifecycle_run stopping s).current ≡ stopped)
      × ((lifecycle_run (stopping ++ (start_settled true ∷ [])) s).current ≡ ready)
unfolding lifecycle_run lifecycle_step start started shutdown drained
started-shutdown signal s at_start fresh = (ground arith, ground arith)
