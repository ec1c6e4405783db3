-- ===== src/Health/States.antt =====
-- When an archive is healthy, and what its diagnostics reveal: src/domain/health.ts.
use echohoard.Base.{
  Bool, Bool-cases, Option, arith, false, if◌then◌else◌, inl, inr, leb, nat_eq, none, refl, some,
  string_eq, sym, true, ℕ, ◌+◌, ◌-◌, ◌<◌, ◌==◌, ◌↔◌, ◌∙◌, ◌≡◌, ◌≤◌,
}
use echohoard.Numbers.{Number, difference, finite, is_nought, less, nought}
use echohoard.Health.{
  FreshnessState, HealthInput, HealthResult, ImportHealthStatus, classify_freshness,
  classify_health, completed, failed, fresh, health_report, healthy, idle, in_progress, is_stale,
  state_for,
}

-- The import is neither failed nor running.
abbrev pub IsQuiet : ImportHealthStatus → Type 0
IsQuiet idle = Unit
IsQuiet completed = Unit
IsQuiet _ = ⊥

-- Counts and a threshold that are whole numbers.
abbrev pub whole : ℕ → Number
whole n = finite false n 0

-- An archive with whole counts.
pub record IsCounted (i : HealthInput) (messages referenced available foreign : ℕ) : Type 0 where
  pub messages_are : i.message_count ≡ whole messages
  pub referenced_are : i.media_referenced_count ≡ whole referenced
  pub available_are : i.media_available_count ≡ whole available
  pub unsupported_are : i.unsupported_count ≡ whole foreign

-- No snapshot is older than the limit.
abbrev pub IsRecent : Option ℕ → ℕ → ℕ → Type 0
IsRecent none now limit = Unit
IsRecent (some t) now limit = now ≤ t + limit

-- What a healthy archive shows.
abbrev pub IsSound : HealthInput → ℕ → ℕ → ℕ → ℕ → ℕ → Type 0
IsSound i limit messages referenced available foreign =
    IsQuiet i.import_status
    × (foreign ≡ 0)
    × (0 < messages)
    × IsRecent i.latest_completed_snapshot_at i.now limit
    × (referenced ≤ available)

module _ (i : HealthInput) (f : FreshnessState) where
  abbrev IsCalm : Type 0
  IsCalm =
      (less nought i.unsupported_count ≡ false)
      × (is_nought i.message_count ≡ false)
      × (is_stale f ≡ false)
      × (less i.media_available_count i.media_referenced_count ≡ false)

  calm-healthy :
      (status : ImportHealthStatus) → IsQuiet status → IsCalm → state_for status i f ≡ healthy
  unfolding state_for
  calm-healthy idle quiet (a, b, c, d) = rw (a, b, c, d) refl
  calm-healthy completed quiet (a, b, c, d) = rw (a, b, c, d) refl
  calm-healthy failed quiet calm = elim quiet [ ]
  calm-healthy in_progress quiet calm = elim quiet [ ]

  healthy-calm :
      (status : ImportHealthStatus) → state_for status i f ≡ healthy → IsQuiet status × IsCalm
  unfolding state_for
  healthy-calm idle h = (tt, ground arith)
  healthy-calm completed h = (tt, ground arith)
  healthy-calm failed h = cc
  healthy-calm in_progress h = cc

less_whole : (m n : ℕ) → (less (whole m) (whole n) ≡ true) ↔ (m < n)
less_whole m n = (λ h. ground (arith, h), λ h. ground (arith, h))

not_less_whole : (m n : ℕ) → (less (whole m) (whole n) ≡ false) ↔ (n ≤ m)
not_less_whole m n = (λ h. ground (arith, h), λ h. ground (arith, h))

stale_of : (b : Bool) → is_stale (if b then FreshnessState.stale else fresh) ≡ b
stale_of true = refl
stale_of false = refl

IsRecent-iff :
    (latest : Option ℕ) (now limit : ℕ)
    → (is_stale (classify_freshness latest now (whole limit)) ≡ false) ↔ IsRecent latest now limit
unfolding classify_freshness
IsRecent-iff none now limit = (λ h. tt, λ h. refl)
IsRecent-iff (some t) now limit =
    let same = stale_of (less (whole limit) (difference now t)) in
    elim (Bool-cases (leb t now)) [
      | inl past ↦
          let age : less (whole limit) (difference now t) ≡ less (whole limit) (whole (now - t)) =
            rw past refl in
          let old = not_less_whole limit (now - t) in
          (
            λ h. let young = old.0 (sym age ∙ sym same ∙ h) in omega (arith, young),
            λ h. same ∙ age ∙ old.1 (omega (arith, h)),
          )
      | inr future ↦
          let none_yet : less (whole limit) (difference now t) ≡ false = rw future refl in
          (λ h. ground (arith, future), λ h. same ∙ none_yet)
    ]

module _ (i : HealthInput) (limit messages referenced available foreign : ℕ)
    (counted : IsCounted i messages referenced available foreign) where
  abbrev freshness_of : FreshnessState
  freshness_of = classify_freshness i.latest_completed_snapshot_at i.now (whole limit)

  healthy-IsSound :
      state_for i.import_status i freshness_of ≡ healthy
      → IsSound i limit messages referenced available foreign
  healthy-IsSound h =
      let (quiet, (a, b, c, d)) = healthy-calm i freshness_of i.import_status h in
      let none_foreign = (not_less_whole 0 foreign).0 (rw (counted.unsupported_are) at a) in
      let filled : (messages == 0) ≡ false = rw (counted.messages_are) at b in
      (
        quiet,
        omega (arith, none_foreign),
        ground (arith, filled),
        (IsRecent-iff i.latest_completed_snapshot_at i.now limit).0 c,
        (not_less_whole available referenced).0
            (rw (counted.available_are, counted.referenced_are) at d),
      )

  IsSound-healthy :
      IsSound i limit messages referenced available foreign
      → state_for i.import_status i freshness_of ≡ healthy
  IsSound-healthy (quiet, a, b, c, d) =
      let filled : (messages == 0) ≡ false = ground (arith, b) in
      calm-healthy i freshness_of i.import_status quiet (
        rw (counted.unsupported_are) ((not_less_whole 0 foreign).1 (omega (arith, a))),
        rw (counted.messages_are) filled,
        (IsRecent-iff i.latest_completed_snapshot_at i.now limit).1 c,
        rw (counted.available_are, counted.referenced_are)
            ((not_less_whole available referenced).1 d),
      )

  -- Where the counts and the threshold are whole numbers, the classification gives a result, and it is
  -- healthy exactly if the import neither failed nor runs, nothing is unsupported, there is a message,
  -- the latest completed snapshot, if any, is not older than the threshold, and as many media are
  -- available as are referenced.
  pub classify_health-IsSound :
      (r : HealthResult) × (classify_health i (whole limit) ≡ some r)
      × ((r.state ≡ healthy) ↔ IsSound i limit messages referenced available foreign)
  unfolding classify_health health_report
  classify_health-IsSound = (
    health_report i (whole limit),
    rw ((not_less_whole limit 0).1 (omega arith)) refl,
    (healthy-IsSound, IsSound-healthy),
  )
