-- ===== src/Runner/Outcomes.antt =====
-- What a run returns and leaves behind: src/application/intake.ts.
use echohoard.Base.{
  Bool, List, Option, Result, String, [], ap, err, false, if◌then◌else◌, is_empty, ok, refl, some,
  true, ◌∙◌, ◌∷◌, ◌≡◌,
}
use echohoard.Jobs.States.{ImportJob}
use echohoard.Jobs.Failure.{Phase, Thrown, adaptation, decryption, to_failure}
use echohoard.Runner.Ports.{
  Call, Entry, Fault, M, Reply, RunState, World, cleanup, decrypt, fence, kept, lost_after,
  lost_first, mark_decrypting, mark_failed, mark_leased, monitored, need, note, note_all, other,
  prepare, race, release, set_path, set_phase, snapshot_path, ◌>>=◌,
}
use echohoard.Runner.Run.{
  Options, attempt, caught, clean, decrypt_operation, finish, handle, import_steps, run, settle,
  started, with_path,
}
use echohoard.Runner.Order.{IsClaimed, claimed_run, run-claimed}

bind-ok :
    {A B : Type 0} (m : M A) (f : A → M B) (s t : RunState) (a : A)
    → m s ≡ (t, ok a)
    → (m >>= f) s ≡ f a t
unfolding ◌>>=◌
bind-ok {A} {B} m f s t a e =
    ap
      (λ (p : RunState × Result Fault A).
        let x : RunState × Result Fault B = elim p.1 [ ok b ↦ f b p.0 | err x ↦ (p.0, err x) ] in x)
      e

bind-err :
    {A B : Type 0} (m : M A) (f : A → M B) (s t : RunState) (x : Fault)
    → m s ≡ (t, err x)
    → (m >>= f) s ≡ (t, err x)
unfolding ◌>>=◌
bind-err {A} {B} m f s t x e =
    ap
      (λ (p : RunState × Result Fault A).
        let y : RunState × Result Fault B = elim p.1 [ ok b ↦ f b p.0 | err z ↦ (p.0, err z) ] in y)
      e

-- An operation that settles while the lease is kept.
abbrev pub settles : {A : Type 0} → Result Fault A → Reply A
settles r = record { answer = r; beat = kept }

monitored-kept :
    {A : Type 0} (calls : List Call) (reply : Reply A) (s : RunState) (r : Result Fault A)
    → s.lost ≡ false
    → reply ≡ settles r
    → monitored calls reply s ≡ (note_all calls s, r)
unfolding monitored
monitored-kept calls reply s r held e =
    ap (λ b. if b then (s, err fence) else race (note_all calls s) reply) held
    ∙ ap (race (note_all calls s)) e

need-some :
    (value : Option String) (v : String) (s : RunState)
    → value ≡ some v
    → is_empty v ≡ false
    → need value s ≡ (s, ok v)
unfolding need
need-some value v s e named = ap (λ o. need o s) e ∙ rw (named, need)

-- The run comes as far as the decryption with its lease kept.
pub record Decrypts (w : World) (job : ImportJob) (work snapshot path : String) : Type 0 where
  pub leased : w.on_leased ≡ settles (ok tt)
  pub prepared : w.on_prepare ≡ settles (ok work)
  pub decrypting_marked : w.on_decrypting ≡ settles (ok tt)
  pub has_snapshot : job.snapshot_id ≡ some snapshot
  pub snapshot_named : is_empty snapshot ≡ false
  pub path_found : w.on_path ≡ settles (ok path)

abbrev pub entry : Call → Entry
entry c = record { call = c; after_loss = false }

abbrev pub at_decrypt : String → RunState
at_decrypt work = record {
  log = entry mark_decrypting ∷ entry prepare ∷ entry mark_leased ∷ started.log;
  lost = false;
  abandoned = [];
  work_path = work;
  phase = decryption;
}

attempt-decrypt :
    (o : Options) (w : World) (job : ImportJob) (work snapshot path : String)
    → Decrypts w job work snapshot path
    → attempt o w job started
      ≡ (decrypt_operation w snapshot work >>= λ output. finish o w job snapshot work output)
          (at_decrypt work)
unfolding attempt set_path need
attempt-decrypt o w job work snapshot path d =
    bind-ok _ _ started _ tt (monitored-kept _ _ started _ refl d.leased)
    ∙ bind-ok _ _ _ _ work (monitored-kept _ _ _ _ refl d.prepared)
    ∙ bind-ok _ _ _ _ tt refl
    ∙ bind-ok _ _ _ _ tt (monitored-kept _ _ _ _ refl d.decrypting_marked)
    ∙ bind-ok _ _ _ _ snapshot (need-some _ snapshot _ d.has_snapshot d.snapshot_named)

abbrev decrypting_calls : String → String → String → List Call
decrypting_calls snapshot path work = snapshot_path snapshot ∷ decrypt path work ∷ []

bind-same :
    {A B : Type 0} (m n : M A) (f : A → M B) (s : RunState) → m s ≡ n s → (m >>= f) s ≡ (n >>= f) s
unfolding ◌>>=◌
bind-same {A} {B} m n f s e =
    ap
      (λ (p : RunState × Result Fault A).
        let x : RunState × Result Fault B = elim p.1 [ ok b ↦ f b p.0 | err x ↦ (p.0, err x) ] in x)
      e

decrypt_operation-path :
    (w : World) (snapshot work path : String) (reply : Reply String)
    → w.on_path ≡ settles (ok path)
    → w.on_decrypt ≡ reply
    → decrypt_operation w snapshot work (at_decrypt work)
      ≡ monitored (decrypting_calls snapshot path work) reply (at_decrypt work)
unfolding decrypt_operation with_path monitored
decrypt_operation-path w snapshot work path reply e d =
    ap (λ r. with_path r w.on_decrypt work (note (snapshot_path snapshot) (at_decrypt work))) e
    ∙ ap (race (note_all (decrypting_calls snapshot path work) (at_decrypt work))) d

-- The run up to the answer of the decryption.
attempt-reply :
    (o : Options) (w : World) (job : ImportJob) (work snapshot path : String) (reply : Reply String)
    → Decrypts w job work snapshot path
    → w.on_decrypt ≡ reply
    → attempt o w job started
      ≡ (monitored (decrypting_calls snapshot path work) reply >>= λ output.
            finish o w job snapshot work output)
          (at_decrypt work)
attempt-reply o w job work snapshot path reply d e =
    attempt-decrypt o w job work snapshot path d
    ∙ bind-same (decrypt_operation w snapshot work)
        (monitored (decrypting_calls snapshot path work) reply) _ (at_decrypt work)
        (decrypt_operation-path w snapshot work path reply d.path_found e)

abbrev pub early_calls : String → String → String → List Entry
early_calls snapshot path work =
    entry (decrypt path work) ∷ entry (snapshot_path snapshot) ∷ (at_decrypt work).log

-- Where clean-up and release succeed, and there is a work path to clean up.
pub record Cleans (w : World) (work : String) : Type 0 where
  pub work_named : is_empty work ≡ false
  pub cleaned : w.on_cleanup ≡ ok tt
  pub released : w.on_release ≡ ok tt

settle-clean :
    (w : World) (s : RunState) (b : Bool)
    → Cleans w s.work_path
    → settle w (clean w (s, ok b)) ≡ (note release (note (cleanup s.work_path) s), ok b)
unfolding settle clean
settle-clean w s b c = simp (c.work_named, c.cleaned, c.released)

handle-failed :
    (w : World) (t : Thrown) (s : RunState)
    → s.lost ≡ false
    → w.on_failed ≡ settles (ok tt)
    → handle w (other t) s ≡ (note (mark_failed (to_failure t s.phase)) s, ok false)
unfolding handle
handle-failed w t s held e =
    simp
      (held, monitored-kept (mark_failed (to_failure t s.phase) ∷ []) w.on_failed s (ok tt) held e)

abbrev logged : RunState × Result Fault Bool → List Entry × Result Fault Bool
logged p = (p.0.log, p.1)

-- A decryption that fails while the lease is kept is recorded as the failure that its error stands
-- for in the phase `decryption`, then the work directory is cleaned up and the lease released, and
-- the run returns false; nothing after the decryption was begun.
pub decrypt-failure :
    (o : Options) (w : World) (job : ImportJob) (lease work snapshot path : String) (t : Thrown)
    → IsClaimed w job lease
    → Decrypts w job work snapshot path
    → Cleans w work
    → w.on_decrypt ≡ settles (err (other t))
    → w.on_failed ≡ settles (ok tt)
    → run o w ≡ (
      entry release
          ∷ entry (cleanup work)
          ∷ entry (mark_failed (to_failure t decryption))
          ∷ early_calls snapshot path work,
      ok false,
    )
unfolding claimed_run
decrypt-failure o w job lease work snapshot path t c d k e f =
    let tried =
      attempt-reply o w job work snapshot path _ d e
      ∙ bind-err (monitored (decrypting_calls snapshot path work) (settles (err (other t)))) _
          (at_decrypt work) _ (other t) (monitored-kept _ _ (at_decrypt work) _ refl refl) in
    run-claimed o w job lease c
    ∙ ap (λ p. logged (settle w (clean w (caught w p)))) tried
    ∙ ap (λ p. logged (settle w (clean w p)))
        (handle-failed w t (note_all (decrypting_calls snapshot path work) (at_decrypt work)) refl
          f)
    ∙ ap logged (settle-clean w _ false k)

-- A decryption during which the lease turns out to be lost, and how it settles.
pub data Loses : Reply String → Type 0 where
  before_settling : (r : Result Fault String) → Loses (record { answer = r; beat = lost_first })
  after_settling : (r : Result Fault String) → Loses (record { answer = r; beat = lost_after })

abbrev lost_state : String → String → String → Phase → RunState
lost_state snapshot path work phase = record {
  log = early_calls snapshot path work;
  lost = true;
  abandoned = [];
  work_path = work;
  phase = phase;
}

finish-lost :
    (adapter importer : Bool) (w : World) (job : ImportJob) (snapshot path work output : String)
    → (phase : Phase) × (caught w (
          finish
            (record { has_adapter = adapter; has_importer = importer })
            w
            job
            snapshot
            work
            output
            (lost_state snapshot path work decryption))
        ≡ (lost_state snapshot path work phase, ok false))
unfolding finish import_steps set_phase monitored handle ◌>>=◌
finish-lost true true w job snapshot path work output = (adaptation, refl)
finish-lost true false w job snapshot path work output = (decryption, refl)
finish-lost false true w job snapshot path work output = (decryption, refl)
finish-lost false false w job snapshot path work output = (decryption, refl)

caught-lost :
    (o : Options) (w : World) (job : ImportJob) (snapshot path work : String) (reply : Reply String)
    → Loses reply
    → (phase : Phase) × (caught w (
          (monitored (decrypting_calls snapshot path work) reply >>= λ output.
          finish o w job snapshot work output)
            (at_decrypt work))
        ≡ (lost_state snapshot path work phase, ok false))
unfolding monitored handle ◌>>=◌
caught-lost o w job snapshot path work reply (before_settling r) = (decryption, refl)
caught-lost o w job snapshot path work reply (after_settling (ok output)) =
    finish-lost o.has_adapter o.has_importer w job snapshot path work output
caught-lost o w job snapshot path work reply (after_settling (err fence)) = (decryption, refl)
caught-lost o w job snapshot path work reply (after_settling (err (other t))) = (decryption, refl)

-- If the lease is lost while the decryption runs, whether that succeeds, throws or never settles in
-- time, the run abandons the job: it marks nothing, not even a failure, cleans up, releases, and
-- returns false.
pub decrypt-loss :
    (o : Options) (w : World) (job : ImportJob) (lease work snapshot path : String)
    → IsClaimed w job lease
    → Decrypts w job work snapshot path
    → Cleans w work
    → Loses w.on_decrypt
    → run o w ≡ (
      record { call = release; after_loss = true }
          ∷ record { call = cleanup work; after_loss = true }
          ∷ early_calls snapshot path work,
      ok false,
    )
unfolding claimed_run
decrypt-loss o w job lease work snapshot path c d k l =
    let (phase, e) = caught-lost o w job snapshot path work w.on_decrypt l in
    run-claimed o w job lease c
    ∙ ap (λ p. logged (settle w (clean w (caught w p))))
        (attempt-reply o w job work snapshot path _ d refl)
    ∙ ap (λ p. logged (settle w (clean w p))) e
    ∙ ap logged (settle-clean w (lost_state snapshot path work phase) false k)
