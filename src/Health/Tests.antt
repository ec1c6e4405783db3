-- ===== src/Health/Tests.antt =====
-- A concrete archive, and the theorem about health at it.
use echohoard.Base.{false, none, refl, some, ◌↔◌, ◌≡◌}
use echohoard.Numbers.{finite, nought}
use echohoard.Health.{HealthInput, HealthResult, classify_health, healthy, idle}
use echohoard.Health.States.{IsSound, classify_health-IsSound, whole}

abbrev archive : HealthInput
archive = record {
  now = 5000;
  latest_completed_snapshot_at = some 4000;
  import_status = idle;
  message_count = finite false 3 0;
  media_referenced_count = finite false 2 0;
  media_available_count = finite false 2 0;
  unsupported_count = nought;
  diagnostics = none;
}

classify_health-IsSound_example :
    (r : HealthResult) × (classify_health archive (whole 2000) ≡ some r)
    × ((r.state ≡ healthy) ↔ IsSound archive 2000 3 2 2 0)
classify_health-IsSound_example = classify_health-IsSound archive 2000 3 2 2 0 (record {
  messages_are = refl;
  referenced_are = refl;
  available_are = refl;
  unsupported_are = refl;
})
