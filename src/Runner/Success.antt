-- ===== src/Runner/Success.antt =====
-- When a run returns true: src/application/intake.ts.
use echohoard.Base.{
  Any, Bool, Bool-cases, List, Result, String, [], ap, arith, err, false, if◌then◌else◌, inl, inr,
  is_empty, ok, refl, subst, sym, true, ◌&&◌, ◌∙◌, ◌∷◌, ◌≡◌, ◌≢◌,
}
use echohoard.Jobs.States.{ImportJob}
use echohoard.Runner.Ports.{
  Beat, Call, Entry, Fault, M, Reply, RunState, World, fence, import_records, kept, lost_after,
  lost_first, mark_completed, monitored, other, return, ◌>>=◌,
}
use echohoard.Runner.Run.{
  Options, attempt, caught, clean, finish, handle, import_steps, last_steps, late_steps, overridden,
  run, settle, started,
}
use echohoard.Runner.Order.{IsClaimed, claimed_run, run-claimed}

abbrev pub Logs : Call → List Entry → Type 0
Logs c = Any (λ (e : Entry). e.call ≡ c)

-- The operation has succeeded, before any loss of the lease.
pub record Succeeds (reply : Reply (Unit {0})) : Type 0 where
  pub answered : reply.answer ≡ ok tt
  pub before_loss : reply.beat ≢ lost_first

-- The call is in the log and has succeeded.
abbrev pub IsDone : Call → Reply (Unit {0}) → List Entry → Type 0
IsDone c reply log = Logs c log × Succeeds reply

abbrev Ends : {A : Type 0} → Call → Reply (Unit {0}) → RunState × Result Fault A → Type 0
Ends c reply (s, ok a) = IsDone c reply s.log
Ends c reply (s, err e) = Unit

bind-Ends :
    {A B : Type 0} (c : Call) (reply : Reply (Unit {0})) (m : M A) (f : A → M B) (s : RunState)
    → ((a : A) (t : RunState) → Ends c reply (f a t))
    → Ends c reply ((m >>= f) s)
unfolding ◌>>=◌
bind-Ends {A} {B} c reply m f s g = go (m s)
  where
    go :
        (p : RunState × Result Fault A)
        → Ends {A = B} c reply (elim p.1 [ ok a ↦ f a p.0 | err e ↦ (p.0, err e) ])
    go (t, ok a) = g a t
    go (t, err x) = tt

-- The last step of a pipeline is one call.
last-Ends :
    (c : Call) (reply : Reply (Unit {0})) (s : RunState)
    → Ends c reply ((monitored (c ∷ []) reply >>= λ _. return true) s)
unfolding monitored ◌>>=◌
last-Ends c reply s = go s.lost reply.beat reply.answer
  where
    go :
        (lost : Bool) (b : Beat) (r : Result Fault (Unit {0}))
        → let q : Reply (Unit {0}) = record { answer = r; beat = b } in
          Ends c q ((monitored (c ∷ []) q >>= λ _. return true) (record s { lost = lost }))
    go true b r = tt
    go false kept (ok u) = (inl refl, record { answered = refl; before_loss = λ e. cc e })
    go false kept (err e) = tt
    go false lost_first r = tt
    go false lost_after (ok u) = (inl refl, record { answered = refl; before_loss = λ e. cc e })
    go false lost_after (err e) = tt

-- The call with which the runner's work is done.
abbrev pub final_call : Options → Call
final_call o = if o.has_adapter && o.has_importer then import_records else mark_completed

abbrev pub final_reply : Options → World → Reply (Unit {0})
final_reply o w = if o.has_adapter && o.has_importer then w.on_import else w.on_completed

import_steps-Ends :
    (w : World) (job : ImportJob) (snapshot work output : String) (s : RunState)
    → Ends import_records w.on_import (import_steps w job snapshot work output s)
unfolding import_steps late_steps last_steps
import_steps-Ends w job snapshot work output s = bind-Ends _ _ _ _ s λ _ s₁.
    bind-Ends _ _ _ _ s₁ λ _ s₂. bind-Ends _ _ _ _ s₂ λ _ s₃. bind-Ends _ _ _ _ s₃ λ _ s₄.
      bind-Ends _ _ _ _ s₄ λ _ s₅. bind-Ends _ _ _ _ s₅ λ _ s₆. bind-Ends _ _ _ _ s₆ λ _ s₇.
        bind-Ends _ _ _ _ s₇ λ _ s₈. bind-Ends _ _ _ _ s₈ λ _ s₉.
          bind-Ends _ _ _ _ s₉
            λ _ s₁₀. bind-Ends _ _ _ _ s₁₀ λ _ t. last-Ends import_records w.on_import t

finish-Ends :
    (adapter importer : Bool) (w : World) (job : ImportJob) (snapshot work output : String)
    (s : RunState)
    → let o : Options = record { has_adapter = adapter; has_importer = importer } in
      Ends (final_call o) (final_reply o w) (finish o w job snapshot work output s)
unfolding finish
finish-Ends true true w job snapshot work output s = import_steps-Ends w job snapshot work output s
finish-Ends true false w job snapshot work output s = tt
finish-Ends false true w job snapshot work output s = tt
finish-Ends false false w job snapshot work output s = last-Ends mark_completed w.on_completed s

attempt-Ends :
    (o : Options) (w : World) (job : ImportJob) (s : RunState)
    → Ends (final_call o) (final_reply o w) (attempt o w job s)
unfolding attempt
attempt-Ends o w job s = bind-Ends _ _ _ _ s λ _ s₁. bind-Ends _ _ _ _ s₁ λ work s₂.
    bind-Ends _ _ _ _ s₂ λ _ s₃. bind-Ends _ _ _ _ s₃ λ _ s₄. bind-Ends _ _ _ _ s₄ λ snapshot s₅.
      bind-Ends _ _ _ _ s₅
        λ output t. finish-Ends o.has_adapter o.has_importer w job snapshot work output t

handle-false : (w : World) (e : Fault) (s : RunState) → (handle w e s).1 ≢ ok true
unfolding handle
handle-false w fence s h = cc
handle-false w (other t) s h = ground arith

caught-IsDone :
    (c : Call) (q : Reply (Unit {0})) (w : World) (p : RunState × Result Fault Bool)
    → Ends c q p
    → (caught w p).1 ≡ ok true
    → IsDone c q (caught w p).0.log
caught-IsDone c q w (s, ok b) h e = h
caught-IsDone c q w (s, err x) h e = absurd (handle-false w x s e)

overridden-ok :
    (r : Result Fault Bool) (q : Result Fault (Unit {0})) → overridden r q ≡ ok true → r ≡ ok true
overridden-ok r (ok _) e = e
overridden-ok r (err x) e = cc

clean-IsDone :
    (c : Call) (q : Reply (Unit {0})) (w : World) (p : RunState × Result Fault Bool)
    → (p.1 ≡ ok true → IsDone c q p.0.log)
    → (clean w p).1 ≡ ok true
    → IsDone c q (clean w p).0.log
unfolding clean
clean-IsDone c q w (s, r) h = elim (Bool-cases (is_empty s.work_path)) [
  | inl no_path ↦ elim (Bool-cases s.lost) [
    | inl lost ↦
        simp (no_path, lost)
          (λ e. let k = h (overridden-ok r w.on_cleanup_stale e) in (inr k.0, k.1))
    | inr held ↦ simp (no_path, held) h
  ]
  | inr some_path ↦
      simp some_path (λ e. let k = h (overridden-ok r w.on_cleanup e) in (inr k.0, k.1))
]

settle-IsDone :
    (c : Call) (q : Reply (Unit {0})) (w : World) (p : RunState × Result Fault Bool)
    → (p.1 ≡ ok true → IsDone c q p.0.log)
    → (settle w p).1 ≡ ok true
    → IsDone c q (settle w p).0.log
unfolding settle
settle-IsDone c q w (s, r) h e = let k = h (overridden-ok r w.on_release e) in (inr k.0, k.1)

-- A run that was given a lease returns true only if the last step of its work was called and
-- succeeded before any loss of the lease: the import, where the runner has an adapter and an importer,
-- and else the mark of completion.
pub true-IsDone :
    (o : Options) (w : World) (job : ImportJob) (lease : String)
    → IsClaimed w job lease
    → (run o w).1 ≡ ok true
    → IsDone (final_call o) (final_reply o w) (run o w).0
unfolding claimed_run
true-IsDone o w job lease c e =
    let p = run-claimed o w job lease c in
    let tried = attempt o w job started in
    let done = settle w (clean w (caught w tried)) in
    let succeeded : done.1 ≡ ok true =
      sym (ap (λ (q : List Entry × Result Fault Bool). q.1) p) ∙ e in
    subst (IsDone (final_call o) (final_reply o w))
      (sym (ap (λ (q : List Entry × Result Fault Bool). q.0) p))
      (settle-IsDone (final_call o) (final_reply o w) w (clean w (caught w tried))
        (clean-IsDone (final_call o) (final_reply o w) w (caught w tried)
          (caught-IsDone (final_call o) (final_reply o w) w tried (attempt-Ends o w job started)))
        succeeded)
