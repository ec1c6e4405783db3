-- ===== src/Runner/Abandoned.antt =====
-- The calls that an abandoned operation still makes: src/application/intake.ts.
use echohoard.Base.{
  Bool, Bool-cases, List, Option, Result, String, [], err, false, if◌then◌else◌, inl, inr, is_empty,
  none, ok, refl, some, subst, sym, true, truthy, ◌&&◌, ◌||◌, ◌∙◌, ◌∷◌, ◌≡◌, ◌≢◌,
}
use echohoard.Jobs.States.{ImportJob}
use echohoard.Jobs.Failure.{Phase, to_failure}
use echohoard.Runner.Ports.{
  Beat, Call, Fault, M, Reply, RunState, World, decrypt, fence, kept, lost_after, lost_first,
  mark_failed, monitored, need, note, note_all, other, plain_error, race, return, set_path,
  set_phase, snapshot_path, ◌>>=◌,
}
use echohoard.Runner.Run.{
  Options, attempt, caught, clean, decrypt_operation, finish, handle, import_steps, last_steps,
  late_steps, run, started, with_path,
}
use echohoard.Runner.Steps.{Falls}
use echohoard.Runner.Order.{claimed_run, run-Falls}

-- What a run can have abandoned: nothing, or a decryption whose lease was lost while its path was
-- awaited.
pub data Abandons (w : World) : List Call → Type 0 where
  nothing : Abandons w []
  late_decrypt :
      (path work : String)
      → w.on_path.answer ≡ ok path
      → w.on_path.beat ≢ kept
      → Abandons w (decrypt path work ∷ [])

Keeps : {A : Type 0} → M A → Type 0
Keeps m = (s : RunState) → (m s).0.abandoned ≡ s.abandoned

bind-abandoned :
    {A B : Type 0} (P : List Call → Type 0) (m : M A) (f : A → M B) (s : RunState)
    → P (m s).0.abandoned
    → ((a : A) → Keeps (f a))
    → P ((m >>= f) s).0.abandoned
unfolding ◌>>=◌ Keeps
bind-abandoned {A} {B} P m f s h keeps = go (m s) h
  where
    go :
        (p : RunState × Result Fault A)
        → P p.0.abandoned
        → P (
            let r : RunState × Result Fault B = elim p.1 [
              | ok a ↦ f a p.0
              | err e ↦ (p.0, err e)
            ] in
            r.0.abandoned)
    go (t, ok a) h = subst P (sym (keeps a t)) h
    go (t, err e) h = h

bind-Keeps :
    {A B : Type 0} (m : M A) (f : A → M B) → Keeps m → ((a : A) → Keeps (f a)) → Keeps (m >>= f)
unfolding Keeps
bind-Keeps m f h keeps s = bind-abandoned (λ c. c ≡ s.abandoned) m f s (h s) keeps

race-abandoned :
    {A : Type 0} (s : RunState) (reply : Reply A) → (race s reply).0.abandoned ≡ s.abandoned
race-abandoned {A} s reply = go reply.beat
  where
    go :
        (b : Beat) → (race s (record { answer = reply.answer; beat = b })).0.abandoned ≡ s.abandoned
    go kept = refl
    go lost_first = refl
    go lost_after = refl

note_all-abandoned : (calls : List Call) (s : RunState) → (note_all calls s).abandoned ≡ s.abandoned
note_all-abandoned [] s = refl
note_all-abandoned (c ∷ cs) s = note_all-abandoned cs (note c s)

monitored-Keeps : {A : Type 0} (calls : List Call) (reply : Reply A) → Keeps (monitored calls reply)
unfolding monitored Keeps
monitored-Keeps calls reply s = elim (Bool-cases s.lost) [
  | inl lost ↦ simp lost refl
  | inr held ↦ simp held (race-abandoned (note_all calls s) reply ∙ note_all-abandoned calls s)
]

need-Keeps : (value : Option String) → Keeps (need value)
unfolding need Keeps
need-Keeps value s = go (truthy value)
  where
    go :
        (o : Option String)
        → (let r : RunState × Result Fault String = elim o [
          | none ↦ (s, err plain_error)
          | some v ↦ (s, ok v)
        ] in
            r.0.abandoned)
          ≡ s.abandoned
    go none = refl
    go (some v) = refl

return-Keeps : {A : Type 0} (a : A) → Keeps (return a)
unfolding Keeps
return-Keeps a s = refl

phase-Keeps : (p : Phase) → Keeps (set_phase p)
unfolding Keeps set_phase
phase-Keeps p s = refl

last_steps-Keeps : (w : World) (job : ImportJob) → Keeps (last_steps w job)
unfolding last_steps
last_steps-Keeps w job = bind-Keeps _ _ (phase-Keeps _) λ _. bind-Keeps _ _ (need-Keeps _) λ _.
    bind-Keeps _ _ (need-Keeps _)
      λ _. bind-Keeps _ _ (monitored-Keeps _ w.on_import) λ _. return-Keeps true

late_steps-Keeps :
    (w : World) (job : ImportJob) (version : String) → Keeps (late_steps w job version)
unfolding late_steps
late_steps-Keeps w job version = bind-Keeps _ _ (phase-Keeps _) λ _.
    bind-Keeps _ _ (monitored-Keeps _ w.on_importing) λ _.
      bind-Keeps _ _ (phase-Keeps _)
        λ _. bind-Keeps _ _ (monitored-Keeps _ w.on_finalizing) λ _. last_steps-Keeps w job

import_steps-Keeps :
    (w : World) (job : ImportJob) (snapshot work output : String)
    → Keeps (import_steps w job snapshot work output)
unfolding import_steps
import_steps-Keeps w job snapshot work output = bind-Keeps _ _ (phase-Keeps _) λ _.
    bind-Keeps _ _ (monitored-Keeps _ w.on_adapting) λ _.
      bind-Keeps _ _ (need-Keeps _)
        λ _. bind-Keeps _ _ (monitored-Keeps _ w.on_adapt) λ version. late_steps-Keeps w job version

if-Keeps : {A : Type 0} (b : Bool) (m n : M A) → Keeps m → Keeps n → Keeps (if b then m else n)
if-Keeps true m n f g = f
if-Keeps false m n f g = g

finish-Keeps :
    (o : Options) (w : World) (job : ImportJob) (snapshot work output : String)
    → Keeps (finish o w job snapshot work output)
unfolding finish Keeps
finish-Keeps o w job snapshot work output =
    if-Keeps (o.has_adapter && o.has_importer) _ _ (import_steps-Keeps w job snapshot work output) (
      if-Keeps (o.has_adapter || o.has_importer) _ _ (λ s. refl)
        (bind-Keeps _ _ (monitored-Keeps _ w.on_completed) λ _. return-Keeps true))

Gives : {A : Type 0} → World → M A → Type 0
Gives w m = (s : RunState) → s.abandoned ≡ [] → Abandons w (m s).0.abandoned

Keeps-Gives : {A : Type 0} (w : World) (m : M A) → Keeps m → Gives w m
unfolding Keeps Gives
Keeps-Gives w m keeps s e = subst (Abandons w) (sym (keeps s ∙ e)) nothing

bind-Gives :
    {A B : Type 0} (w : World) (m : M A) (f : A → M B)
    → Keeps m
    → ((a : A) → Gives w (f a))
    → Gives w (m >>= f)
unfolding ◌>>=◌ Keeps Gives
bind-Gives {A} {B} w m f keeps gives s e = go (m s) (keeps s ∙ e)
  where
    go :
        (p : RunState × Result Fault A)
        → p.0.abandoned ≡ []
        → Abandons w (
            let r : RunState × Result Fault B = elim p.1 [
              | ok a ↦ f a p.0
              | err e ↦ (p.0, err e)
            ] in
            r.0.abandoned)
    go (t, ok a) h = gives a t h
    go (t, err x) h = subst (Abandons w) (sym h) nothing

with_path-Gives :
    (w : World) (reply : Reply String) (work : String) → Gives w (with_path w.on_path reply work)
unfolding with_path Gives
with_path-Gives w reply work s e = go w.on_path.answer w.on_path.beat refl refl
  where
    go :
        (r : Result Fault String) (b : Beat)
        → w.on_path.answer ≡ r
        → w.on_path.beat ≡ b
        → Abandons w (with_path (record { answer = r; beat = b }) reply work s).0.abandoned
    go (err x) b answered beats =
        subst (Abandons w)
          (sym (race-abandoned {A = String} s (record { answer = err x; beat = b }) ∙ e)) nothing
    go (ok path) kept answered beats =
        subst (Abandons w) (sym (race-abandoned (note (decrypt path work) s) reply ∙ e)) nothing
    go (ok path) lost_first answered beats =
        subst (λ c. Abandons w (decrypt path work ∷ c)) (sym e)
          (late_decrypt path work answered λ q. cc (q, beats))
    go (ok path) lost_after answered beats =
        subst (λ c. Abandons w (decrypt path work ∷ c)) (sym e)
          (late_decrypt path work answered λ q. cc (q, beats))

decrypt-Gives : (w : World) (snapshot work : String) → Gives w (decrypt_operation w snapshot work)
unfolding decrypt_operation Gives
decrypt-Gives w snapshot work s e = go s.lost
  where
    t : RunState
    t = note (snapshot_path snapshot) s

    go :
        (b : Bool)
        → Abandons w (
            let r : RunState × Result Fault String =
              if b then (s, err fence) else with_path w.on_path w.on_decrypt work t in
            r.0.abandoned)
    go true = subst (Abandons w) (sym e) nothing
    go false = with_path-Gives w w.on_decrypt work t e

attempt-Gives : (o : Options) (w : World) (job : ImportJob) → Gives w (attempt o w job)
unfolding attempt set_path Gives Keeps
attempt-Gives o w job = bind-Gives w _ _ (monitored-Keeps _ w.on_leased) λ _.
    bind-Gives w _ _ (monitored-Keeps _ w.on_prepare) λ work.
      bind-Gives w _ _ (λ s. refl)
        λ _. bind-Gives w _ _ (monitored-Keeps _ w.on_decrypting) λ _.
          bind-Gives w _ _ (need-Keeps _) λ snapshot s e.
            bind-abandoned (Abandons w) _ _ s (decrypt-Gives w snapshot work s e)
              λ output. finish-Keeps o w job snapshot work output

handle-Keeps : (w : World) (e : Fault) → Keeps (handle w e)
unfolding handle Keeps
handle-Keeps w fence s = refl
handle-Keeps w (other t) s = elim (Bool-cases s.lost) [
  | inl lost ↦ simp lost refl
  | inr held ↦
      simp held
        (monitored-Keeps {A = Unit {0}} (mark_failed (to_failure t s.phase) ∷ []) w.on_failed s)
]

caught-abandoned :
    (w : World) (p : RunState × Result Fault Bool) → (caught w p).0.abandoned ≡ p.0.abandoned
unfolding Keeps
caught-abandoned w (s, ok b) = refl
caught-abandoned w (s, err e) = handle-Keeps w e s

clean-abandoned :
    (w : World) (p : RunState × Result Fault Bool) → (clean w p).0.abandoned ≡ p.0.abandoned
unfolding clean
clean-abandoned w (s, r) = elim (Bool-cases (is_empty s.work_path)) [
  | inr named ↦ simp named refl
  | inl unnamed ↦ elim (Bool-cases s.lost) [
    | inl lost ↦ simp (unnamed, lost) refl
    | inr held ↦ simp (unnamed, held) refl
  ]
]

-- Whatever the ports answer, throw, or do to the lease: the run itself, and the operations while it
-- waits for them, make their calls in one fixed order, each at most once, and begin none after the
-- monitor knew of a loss, except those of the `finally` block. What is left behind by a run that was
-- given a lease is nothing, or one decryption, and that only where the lease was lost while the path of
-- the snapshot was awaited.
pub run-IsQuiet :
    (o : Options) (w : World) (job : ImportJob)
    → Falls 17 (run o w).0 × Abandons w (claimed_run o w job).0.abandoned
unfolding claimed_run Gives
run-IsQuiet o w job = (
  run-Falls o w,
  subst (Abandons w)
      (sym (
        clean-abandoned w (caught w (attempt o w job started))
        ∙ caught-abandoned w (attempt o w job started)))
      (attempt-Gives o w job started refl),
)
