-- ===== src/Runner/Steps.antt =====
-- The places of the calls of `try` in the log, step by step: src/application/intake.ts.
use echohoard.Base.{
  Bool, Bool-cases, List, Option, Result, String, [], arith, err, false, if◌then◌else◌, inl, inr,
  none, ok, some, subst, suc, sym, true, truthy, ℕ, ◌&&◌, ◌<◌, ◌||◌, ◌∷◌, ◌≡◌, ◌≤◌,
}
use echohoard.Jobs.States.{ImportJob}
use echohoard.Runner.Ports.{
  Beat, Call, Entry, Fault, M, Reply, RunState, World, acquire_lease, adapt, cleanup, cleanup_stale,
  decrypt, fence, get_job, import_records, kept, lost_after, lost_first, mark_adapting,
  mark_completed, mark_decrypting, mark_failed, mark_finalizing, mark_importing, mark_leased,
  monitored, need, note, note_all, plain_error, prepare, race, release, set_path, set_phase,
  snapshot_path, ◌>>=◌,
}
use echohoard.Runner.Run.{
  Options, attempt, decrypt_operation, finish, import_steps, last_steps, late_steps, with_path,
}

-- The place of a call in a run.
abbrev pub rank : Call → ℕ
rank get_job = 0
rank acquire_lease = 1
rank mark_leased = 2
rank prepare = 3
rank mark_decrypting = 4
rank (snapshot_path _) = 5
rank (decrypt _ _) = 6
rank mark_adapting = 7
rank (adapt _ _ _ _) = 8
rank (mark_importing _) = 9
rank mark_finalizing = 10
rank import_records = 11
rank mark_completed = 12
rank (mark_failed _) = 13
rank (cleanup _) = 14
rank cleanup_stale = 15
rank release = 16

-- Read from the newest call, the places fall and stay below a bound, and no call but those of the
-- `finally` block was begun after the loss of the lease was known.
abbrev pub Falls : ℕ → List Entry → Type 0
Falls n [] = Unit
Falls n (e ∷ log) =
    (rank e.call < n) × (rank e.call < 14 → e.after_loss ≡ false) × Falls (rank e.call) log

pub Falls-mono : {m n : ℕ} (log : List Entry) → m ≤ n → Falls m log → Falls n log
Falls-mono [] le f = tt
Falls-mono (e ∷ log) le f = (omega arith, f.1, f.2)

-- On success the places stay below one bound, on failure below another.
abbrev pub After : {A : Type 0} → ℕ → ℕ → RunState × Result Fault A → Type 0
After k hi (s, ok a) = Falls k s.log
After k hi (s, err e) = Falls hi s.log

bind-After :
    {A B : Type 0} (k k' hi : ℕ) (m : M A) (f : A → M B) (s : RunState)
    → After k hi (m s)
    → ((a : A) (t : RunState) → Falls k t.log → After k' hi (f a t))
    → After k' hi ((m >>= f) s)
unfolding ◌>>=◌
bind-After {A} {B} k k' hi m f s h g = go (m s) h
  where
    go :
        (p : RunState × Result Fault A)
        → After k hi p
        → After {A = B} k' hi (elim p.1 [ ok a ↦ f a p.0 | err e ↦ (p.0, err e) ])
    go (t, ok a) h = g a t h
    go (t, err e) h = h

race-After :
    {A : Type 0} (k hi : ℕ) (s : RunState) (reply : Reply A)
    → k ≤ hi
    → Falls k s.log
    → After k hi (race s reply)
race-After {A} k hi s reply le f = go reply.beat reply.answer
  where
    go : (b : Beat) (r : Result Fault A) → After k hi (race s (record { answer = r; beat = b }))
    go kept (ok a) = f
    go kept (err e) = Falls-mono s.log le f
    go lost_first r = Falls-mono s.log le f
    go lost_after (ok a) = f
    go lost_after (err e) = Falls-mono s.log le f

pub monitored-After :
    {A : Type 0} (k hi : ℕ) (calls : List Call) (reply : Reply A) (s : RunState)
    → k ≤ hi
    → Falls hi s.log
    → (s.lost ≡ false → Falls k (note_all calls s).log)
    → After k hi (monitored calls reply s)
unfolding monitored
monitored-After k hi calls reply s le f g = elim (Bool-cases s.lost) [
  | inl lost ↦ simp lost f
  | inr held ↦ simp held (race-After k hi (note_all calls s) reply le (g held))
]

one-After :
    {A : Type 0} (n : ℕ) (c : Call) (reply : Reply A) (s : RunState)
    → n ≤ rank c
    → rank c < 13
    → Falls n s.log
    → After (suc (rank c)) 13 (monitored (c ∷ []) reply s)
one-After n c reply s le below f =
    monitored-After (suc (rank c)) 13 (c ∷ []) reply s below (Falls-mono s.log (omega arith) f)
      λ held. (omega arith, λ _. held, Falls-mono s.log le f)

need-After :
    (k hi : ℕ) (value : Option String) (s : RunState)
    → k ≤ hi
    → Falls k s.log
    → After k hi (need value s)
unfolding need
need-After k hi value s le f = go (truthy value)
  where
    go :
        (o : Option String)
        → After {A = String} k hi (elim o [ none ↦ (s, err plain_error) | some v ↦ (s, ok v) ])
    go none = Falls-mono s.log le f
    go (some v) = f

with_path-After :
    (found reply : Reply String) (work : String) (s : RunState)
    → s.lost ≡ false
    → Falls 6 s.log
    → After 7 13 (with_path found reply work s)
unfolding with_path
with_path-After found reply work s held f = go found.answer found.beat
  where
    go :
        (r : Result Fault String) (b : Beat)
        → After 7 13 (with_path (record { answer = r; beat = b }) reply work s)
    go (err e) b =
        race-After 7 13 s (record { answer = err e; beat = b }) (omega arith)
          (Falls-mono s.log (omega arith) f)
    go (ok path) kept =
        race-After 7 13 (note (decrypt path work) s) reply (omega arith)
          (omega arith, (λ _. held), f)
    go (ok path) lost_first = Falls-mono s.log (omega arith) f
    go (ok path) lost_after = Falls-mono s.log (omega arith) f

decrypt-After :
    (w : World) (snapshot work : String) (s : RunState)
    → Falls 5 s.log
    → After 7 13 (decrypt_operation w snapshot work s)
unfolding decrypt_operation
decrypt-After w snapshot work s f = elim (Bool-cases s.lost) [
  | inl lost ↦ simp lost (Falls-mono s.log (omega arith) f)
  | inr held ↦
      let t = note (snapshot_path snapshot) s in
      subst
        (λ b. After 7 13 (if b then (s, err fence) else with_path w.on_path w.on_decrypt work t))
        (sym held)
        (with_path-After w.on_path w.on_decrypt work t held (omega arith, (λ _. held), f))
]

last_steps-After :
    (w : World) (job : ImportJob) (s : RunState) → Falls 11 s.log → After 12 13 (last_steps w job s)
unfolding last_steps set_phase
last_steps-After w job s f = bind-After 11 12 13 _ _ s f λ _ s₁ f₁.
    bind-After 11 12 13 _ _ s₁ (need-After 11 13 _ s₁ (omega arith) f₁) λ _ s₂ f₂.
      bind-After 11 12 13 _ _ s₂ (need-After 11 13 _ s₂ (omega arith) f₂) λ _ s₃ f₃.
        bind-After 12 12 13 _ _ s₃ (one-After 11 import_records _ s₃ (omega arith) (omega arith) f₃)
          λ _ s₄ f₄. f₄

late_steps-After :
    (w : World) (job : ImportJob) (version : String) (s : RunState)
    → Falls 9 s.log
    → After 12 13 (late_steps w job version s)
unfolding late_steps set_phase
late_steps-After w job version s f = bind-After 9 12 13 _ _ s f λ _ s₁ f₁.
    bind-After 10 12 13 _ _ s₁
      (one-After 9 (mark_importing version) _ s₁ (omega arith) (omega arith) f₁)
      λ _ s₂ f₂. bind-After 10 12 13 _ _ s₂ f₂ λ _ s₃ f₃.
        bind-After 11 12 13 _ _ s₃
          (one-After 10 mark_finalizing _ s₃ (omega arith) (omega arith) f₃)
          λ _ s₄ f₄. last_steps-After w job s₄ f₄

import_steps-After :
    (w : World) (job : ImportJob) (snapshot work output : String) (s : RunState)
    → Falls 7 s.log
    → After 12 13 (import_steps w job snapshot work output s)
unfolding import_steps set_phase
import_steps-After w job snapshot work output s f = bind-After 7 12 13 _ _ s f λ _ s₁ f₁.
    bind-After 8 12 13 _ _ s₁ (one-After 7 mark_adapting _ s₁ (omega arith) (omega arith) f₁)
      λ _ s₂ f₂. bind-After 8 12 13 _ _ s₂ (need-After 8 13 _ s₂ (omega arith) f₂) λ account s₃ f₃.
        bind-After 9 12 13 _ _ s₃
          (one-After 8 (adapt output work snapshot account) _ s₃ (omega arith) (omega arith) f₃)
          λ version s₄ f₄. late_steps-After w job version s₄ f₄

After-mono :
    {A : Type 0} (j k hi : ℕ) (p : RunState × Result Fault A) → j ≤ k → After j hi p → After k hi p
After-mono j k hi (s, ok a) le f = Falls-mono s.log le f
After-mono j k hi (s, err e) le f = f

if-After :
    {A : Type 0} (k hi : ℕ) (b : Bool) (m n : M A) (s : RunState)
    → After k hi (m s)
    → After k hi (n s)
    → After k hi ((if b then m else n) s)
if-After k hi true m n s f g = f
if-After k hi false m n s f g = g

finish-After :
    (o : Options) (w : World) (job : ImportJob) (snapshot work output : String) (s : RunState)
    → Falls 7 s.log
    → After 13 13 (finish o w job snapshot work output s)
unfolding finish
finish-After o w job snapshot work output s f =
    if-After 13 13 (o.has_adapter && o.has_importer) _ _ s
      (After-mono 12 13 13 (import_steps w job snapshot work output s) (omega arith)
        (import_steps-After w job snapshot work output s f))
      (if-After 13 13 (o.has_adapter || o.has_importer) _ _ s (Falls-mono s.log (omega arith) f) (
        bind-After 13 13 13 _ _ s
          (one-After 7 mark_completed w.on_completed s (omega arith) (omega arith) f) λ _ t g. g))

pub attempt-After :
    (o : Options) (w : World) (job : ImportJob) (s : RunState)
    → Falls 2 s.log
    → After 13 13 (attempt o w job s)
unfolding attempt set_path
attempt-After o w job s f =
    bind-After 3 13 13 _ _ s (one-After 2 mark_leased _ s (omega arith) (omega arith) f) λ _ s₁ f₁.
      bind-After 4 13 13 _ _ s₁ (one-After 3 prepare _ s₁ (omega arith) (omega arith) f₁)
        λ work s₂ f₂. bind-After 4 13 13 _ _ s₂ f₂ λ _ s₃ f₃.
          bind-After 5 13 13 _ _ s₃
            (one-After 4 mark_decrypting _ s₃ (omega arith) (omega arith) f₃)
            λ _ s₄ f₄.
              bind-After 5 13 13 _ _ s₄ (need-After 5 13 _ s₄ (omega arith) f₄) λ snapshot s₅ f₅.
                bind-After 7 13 13 _ _ s₅ (decrypt-After w snapshot work s₅ f₅)
                  λ output s₆ f₆. finish-After o w job snapshot work output s₆ f₆
