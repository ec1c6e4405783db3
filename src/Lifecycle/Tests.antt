-- ===== src/Lifecycle/Tests.antt =====
-- Concrete processes, and the theorems about them at concrete inputs.
use echohoard.Base.{List, [], length, refl, true, ◌∷◌, ◌≤◌}
use echohoard.Lifecycle.{
  LifecycleStep, drain_settled, initial, lifecycle_run, shutdown_called, sigint, signal_sent,
  sigterm, start_called, start_settled,
}
use echohoard.Lifecycle.Once.{IsOrderly, run-IsOrderly}

noisy : List LifecycleStep
noisy =
    start_called
    ∷ signal_sent sigterm
    ∷ signal_sent sigint
    ∷ drain_settled true
    ∷ shutdown_called sigint
    ∷ start_settled true
    ∷ []

run-IsOrderly_example :
    IsOrderly (lifecycle_run noisy initial)
    × (length (lifecycle_run noisy initial).drains ≤ 1)
    × (length (lifecycle_run noisy initial).exits ≤ 1)
run-IsOrderly_example = run-IsOrderly noisy initial (record { one_drain = refl; one_exit = refl })
