-- ===== src/Jobs/Leases.antt =====
-- src/infrastructure/db/worker-persistence.ts, `PrismaImportJobLeases`. A statement reads the database's
-- clock once, as `now`.
use echohoard.Base.{
  Bool, List, Option, Result, String, err, false, if◌then◌else◌, is_some_of, leb, ltb, map, nat_eq,
  none, ok, some, string_eq, ℕ, ◌&&◌, ◌+◌, ◌==◌, ◌^◌,
}
use echohoard.Jobs.States.{job_status_eq, queued}
use echohoard.Jobs.Table.{
  JobRow, StoreError, active_statuses, bad_duration, claimable, exactly_one, expires_after, known,
  returning, status_in, update_where, without_lease,
}

-- `Number.isSafeInteger(value) && value > 0`
abbrev pub valid_duration : ℕ → Bool
valid_duration d = ltb 0 d && ltb d (2 ^ 53)

-- `PrismaImportJobLeases.acquire`, where `lease` is the new random id.
unfoldable pub acquire :
    String → String → ℕ → String → ℕ → List JobRow → List JobRow × Result StoreError (Option String)
acquire job owner duration lease now rows =
    let p = λ (r : JobRow). r.id == job && claimable now r in
    if valid_duration duration
    then (
      update_where p
          (λ r. record r {
            lease_id = some lease;
            lease_owner = some owner;
            lease_expires_at = some (now + duration);
            updated_at = now;
          })
          rows,
      ok (if exactly_one (returning p rows) then some lease else none),
    )
    else (rows, err bad_duration)

unfoldable pub renew : String → ℕ → ℕ → List JobRow → List JobRow × Result StoreError Bool
renew lease duration now rows =
    let p = λ (r : JobRow).
      is_some_of r.lease_id lease
      && status_in r.status active_statuses
      && expires_after now r.lease_expires_at in
    if valid_duration duration
    then (
      update_where p (λ r. record r { lease_expires_at = some (now + duration); updated_at = now })
          rows,
      ok (exactly_one (returning p rows)),
    )
    else (rows, err bad_duration)

unfoldable pub release : String → ℕ → List JobRow → List JobRow
release lease now rows =
    update_where (λ r. is_some_of r.lease_id lease && expires_after now r.lease_expires_at)
      (λ r. record (without_lease r) { updated_at = now }) rows

-- `"leaseId" IS NOT NULL AND "leaseExpiresAt" IS NOT NULL AND "leaseExpiresAt" <= now`
abbrev pub has_expired : ℕ → Option String → Option ℕ → Bool
has_expired now none e = false
has_expired now (some l) none = false
has_expired now (some l) (some e) = leb e now

abbrev pub is_stale : ℕ → JobRow → Bool
is_stale now r = status_in r.status active_statuses && has_expired now r.lease_id r.lease_expires_at

unfoldable pub recover_expired : ℕ → List JobRow → List JobRow × List (String × Option String)
recover_expired now rows = (
  update_where (is_stale now)
      (λ r. record (without_lease r) { status = known queued; updated_at = now }) rows,
  map (λ r. (r.id, r.lease_id)) (returning (is_stale now) rows),
)
