-- ===== src/Runner/Order.antt =====
-- The order of the runner's calls, and its silence after the lease was lost: src/application/intake.ts.
use echohoard.Base.{
  All, Bool, Bool-cases, List, Option, Result, String, [], ap, arith, err, false, inl, inr,
  is_empty, none, ok, refl, some, true, ℕ, ◌∙◌, ◌∷◌, ◌≡◌, ◌≢◌,
}
use echohoard.Jobs.States.{ImportJob}
use echohoard.Jobs.Failure.{to_failure}
use echohoard.Runner.Ports.{
  Entry, Fault, RunState, World, fence, mark_failed, monitored, other, release,
}
use echohoard.Runner.Run.{
  Options, attempt, caught, clean, handle, may_run, run, settle, started, with_job, with_lease,
}
use echohoard.Runner.Steps.{After, Falls, Falls-mono, attempt-After, monitored-After, rank}

After-log : {A : Type 0} (k : ℕ) (p : RunState × Result Fault A) → After k k p → Falls k p.0.log
After-log k (s, ok a) f = f
After-log k (s, err e) f = f

handle-Falls :
    (w : World) (e : Fault) (s : RunState) → Falls 13 s.log → Falls 14 (handle w e s).0.log
unfolding handle
handle-Falls w fence s f = Falls-mono s.log (omega arith) f
handle-Falls w (other t) s f = elim (Bool-cases s.lost) [
  | inl lost ↦ simp lost (Falls-mono s.log (omega arith) f)
  | inr held ↦ simp held (
      After-log {A = Unit {0}} 14
        (monitored {A = Unit {0}} (mark_failed (to_failure t s.phase) ∷ []) w.on_failed s)
        (monitored-After 14 14 (mark_failed (to_failure t s.phase) ∷ []) w.on_failed s (omega arith)
          (Falls-mono s.log (omega arith) f) λ _. (omega arith, λ _. held, f)))
]

caught-Falls :
    (w : World) (p : RunState × Result Fault Bool) → After 13 13 p → Falls 14 (caught w p).0.log
caught-Falls w (s, ok b) f = Falls-mono s.log (omega arith) f
caught-Falls w (s, err e) f = handle-Falls w e s f

clean-Falls :
    (w : World) (p : RunState × Result Fault Bool) → Falls 14 p.0.log → Falls 16 (clean w p).0.log
unfolding clean
clean-Falls w (s, r) f = elim (Bool-cases (is_empty s.work_path)) [
  | inl no_path ↦ elim (Bool-cases s.lost) [
    | inl lost ↦
        simp (no_path, lost)
          (omega arith, (λ h. absurd (omega arith)), Falls-mono s.log (omega arith) f)
    | inr held ↦ simp (no_path, held) (Falls-mono s.log (omega arith) f)
  ]
  | inr some_path ↦
      simp some_path (omega arith, (λ h. absurd (omega arith)), Falls-mono s.log (omega arith) f)
]

settled-Falls :
    (w : World) (p : RunState × Result Fault Bool) → Falls 16 p.0.log → Falls 17 (settle w p).0.log
unfolding settle
settled-Falls w (s, r) f = (omega arith, (λ h. absurd (omega arith)), f)

-- Where a lease was acquired.
pub record IsClaimed (w : World) (job : ImportJob) (lease : String) : Type 0 where
  pub job_found : w.got_job ≡ ok (some job)
  pub runnable : may_run job ≡ true
  pub lease_given : w.acquired ≡ ok (some lease)
  pub lease_named : is_empty lease ≡ false

unfoldable pub claimed_run : Options → World → ImportJob → RunState × Result Fault Bool
claimed_run o w job = clean w (caught w (attempt o w job started))

pub run-claimed :
    (o : Options) (w : World) (job : ImportJob) (lease : String)
    → IsClaimed w job lease
    → run o w ≡ (let done = settle w (claimed_run o w job) in (done.0.log, done.1))
unfolding run claimed_run
run-claimed o w job lease c =
    ap (with_job o w) (c.job_found)
    ∙ rw (c.runnable) (ap (with_lease o w job) (c.lease_given) ∙ rw (c.lease_named))

claimed_run-Falls :
    (o : Options) (w : World) (job : ImportJob) → Falls 16 (claimed_run o w job).0.log
unfolding claimed_run
claimed_run-Falls o w job =
    clean-Falls w (caught w (attempt o w job started))
      (caught-Falls w (attempt o w job started) (attempt-After o w job started (ground arith)))

with_lease-Falls :
    (o : Options) (w : World) (job : ImportJob) (r : Result Fault (Option String))
    → Falls 17 (with_lease o w job r).0
unfolding with_lease
with_lease-Falls o w job (err e) = ground arith
with_lease-Falls o w job (ok none) = ground arith
with_lease-Falls o w job (ok (some lease)) = elim (Bool-cases (is_empty lease)) [
  | inl unnamed ↦ rw unnamed (ground arith)
  | inr named ↦ rw named (
      settled-Falls w (clean w (caught w (attempt o w job started)))
        (unfold claimed_run in claimed_run-Falls o w job))
]

with_job-Falls :
    (o : Options) (w : World) (r : Result Fault (Option ImportJob)) → Falls 17 (with_job o w r).0
unfolding with_job
with_job-Falls o w (err e) = ground arith
with_job-Falls o w (ok none) = ground arith
with_job-Falls o w (ok (some job)) = elim (Bool-cases (may_run job)) [
  | inl runs ↦ rw runs (with_lease-Falls o w job w.acquired)
  | inr waits ↦ rw waits (ground arith)
]

pub run-Falls : (o : Options) (w : World) → Falls 17 (run o w).0
unfolding run
run-Falls o w = with_job-Falls o w w.got_job

below-release : (log : List Entry) → Falls 16 log → All (λ e. e.call ≢ release) log
below-release [] f = tt
below-release (e ∷ log) f =
    ((λ q. absurd (omega (arith, ap rank q))), below-release log (Falls-mono log (omega arith) f.2))

-- A run that was given a lease ends its own calls with one that releases it, and makes that call only
-- once, whatever the other ports answer, throw, or do to the lease.
pub run-releases :
    (o : Options) (w : World) (job : ImportJob) (lease : String)
    → IsClaimed w job lease
    → (last : Entry) × (earlier : List Entry) × ((run o w).0 ≡ last ∷ earlier)
      × (last.call ≡ release)
      × All (λ e. e.call ≢ release) earlier
unfolding settle
run-releases o w job lease c =
    let (s, r) = claimed_run o w job in
    (
      record { call = release; after_loss = s.lost },
      s.log,
      ap (λ (p : List Entry × Result Fault Bool). p.0) (run-claimed o w job lease c),
      refl,
      below-release s.log (claimed_run-Falls o w job),
    )
