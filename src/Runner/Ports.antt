-- ===== src/Runner/Ports.antt =====
-- src/application/intake.ts: the ports of the runner as a world of answers, the calls that it makes,
-- and `LeaseMonitor.run`.
use echohoard.Base.{
  Bool, List, Option, Result, String, [], err, if◌then◌else◌, none, ok, some, true, truthy, ◌∷◌,
}
use echohoard.Jobs.States.{ImportJob}
use echohoard.Jobs.Failure.{Failure, Phase, Thrown}

-- What may be thrown: `LeaseFenceError`, or something that `toFailure` looks into.
pub data Fault : Type 0 where
  fence : Fault
  other : Thrown → Fault

-- `new Error(message)` has neither a kind nor a phase.
abbrev pub plain_error : Fault
plain_error = other (record { kind = none; phase = none })

-- What the heartbeat does while the runner waits for an operation: nothing, or the lease turns out
-- to be lost before the operation settles, or after that and before the runner's next step.
pub data Beat : Type 0 where
  kept lost_first lost_after : Beat

pub record Reply (A : Type 0) : Type 0 where
  pub answer : Result Fault A
  pub beat : Beat

pub data Call : Type 0 where
  get_job acquire_lease mark_leased prepare mark_decrypting : Call
  snapshot_path : String → Call
  decrypt : String → String → Call
  mark_adapting : Call
  adapt : String → String → String → String → Call
  mark_importing : String → Call
  mark_finalizing mark_completed import_records : Call
  mark_failed : Failure → Call
  cleanup : String → Call
  cleanup_stale release : Call

-- A call, and whether the monitor already knew that the lease was lost.
pub record Entry : Type 0 where
  pub call : Call
  pub after_loss : Bool

-- The newest call stands first in the log, which holds the calls of the run itself and of the operations
-- that it waits for. `abandoned` holds what an operation that lost the race against `lost` still calls
-- later, at any time, as nothing stops it.
pub record RunState : Type 0 where
  pub log : List Entry
  pub lost : Bool
  pub abandoned : List Call
  pub work_path : String
  pub phase : Phase

-- Each port answers one call of a run.
pub record World : Type 0 where
  pub got_job : Result Fault (Option ImportJob)
  pub acquired : Result Fault (Option String)
  pub on_leased : Reply (Unit {0})
  pub on_prepare : Reply String
  pub on_decrypting : Reply (Unit {0})
  pub on_path : Reply String
  pub on_decrypt : Reply String
  pub on_adapting : Reply (Unit {0})
  pub on_adapt : Reply String
  pub on_importing : Reply (Unit {0})
  pub on_finalizing : Reply (Unit {0})
  pub on_completed : Reply (Unit {0})
  pub on_import : Reply (Unit {0})
  pub on_failed : Reply (Unit {0})
  pub on_cleanup : Result Fault (Unit {0})
  pub on_cleanup_stale : Result Fault (Unit {0})
  pub on_release : Result Fault (Unit {0})

abbrev pub M : Type 0 → Type 0
M A = RunState → RunState × Result Fault A

infixl 5 ◌>>=◌ ◌>>◌
unfoldable pub ◌>>=◌ : {A B : Type 0} → M A → (A → M B) → M B
◌>>=◌ m f s = let (s', r) = m s in elim r [ ok a ↦ f a s' | err e ↦ (s', err e) ]

abbrev pub ◌>>◌ : {B : Type 0} → M (Unit {0}) → M B → M B
m >> k = m >>= λ _. k

abbrev pub return : {A : Type 0} → A → M A
return a s = (s, ok a)

abbrev pub throw : {A : Type 0} → Fault → M A
throw e s = (s, err e)

abbrev pub note : Call → RunState → RunState
note c s = record s { log = record { call = c; after_loss = s.lost } ∷ s.log }

abbrev pub note_all : List Call → RunState → RunState
note_all [] s = s
note_all (c ∷ cs) s = note_all cs (note c s)

-- `Promise.race([operation(), this.lost])`
abbrev pub race : {A : Type 0} → RunState → Reply A → RunState × Result Fault A
race s reply = elim reply.beat [
  | kept ↦ (s, reply.answer)
  | lost_first ↦ (record s { lost = true }, err fence)
  | lost_after ↦ (record s { lost = true }, reply.answer)
]

-- An operation that still makes a call when the race against `lost` is over.
abbrev pub abandon : {A : Type 0} → Call → M A
abandon c s = (record s { lost = true; abandoned = c ∷ s.abandoned }, err fence)

-- `LeaseMonitor.run` of an operation that makes the given calls, in their order, and none after it first
-- waits.
unfoldable pub monitored : {A : Type 0} → List Call → Reply A → M A
monitored calls reply s = if s.lost then (s, err fence) else race (note_all calls s) reply

unfoldable pub set_path : String → M (Unit {0})
set_path path s = (record s { work_path = path }, ok tt)

unfoldable pub set_phase : Phase → M (Unit {0})
set_phase phase s = (record s { phase = phase }, ok tt)

-- `if (!value) throw new Error(...)`
unfoldable pub need : Option String → M String
need value s = elim (truthy value) [ none ↦ (s, err plain_error) | some v ↦ (s, ok v) ]
