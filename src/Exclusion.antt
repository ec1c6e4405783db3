-- ===== src/Exclusion.antt =====
-- src/application/import-exclusion.ts: requests, runs, and which observation of a field is preferred.
pub mod Order
pub mod Preferred
mod Tests
use echohoard.Base.{
  Bool, List, Option, Result, String, [], any, differ, err, false, if◌then◌else◌, is_blank, ltb,
  nat_eq, none, not, ok, require, some, string_eq, true, ℕ, ◌&&◌, ◌==◌, ◌>>=◌, ◌>>◌, ◌||◌, ◌∷◌,
}

pub data ExclusionAction : Type 0 where
  exclude re_enable : ExclusionAction

pub data RunStatus : Type 0 where
  running completed failed : RunStatus

pub record ExclusionRequest : Type 0 where
  pub archive_id : String
  pub import_job_id : String
  pub action : String
  pub actor : String
  pub reason : String
  pub idempotency_key : String

pub data RequestError : Type 0 where
  missing : String → RequestError
  bad_action : RequestError

-- The text that `action` may hold.
abbrev pub action_of : String → Option ExclusionAction
action_of a =
    if a == "exclude" then some exclude else if a == "re-enable" then some re_enable else none

-- `validateRequest`: the entries in the order of the interface, then the action.
unfoldable pub validate_request : ExclusionRequest → Result RequestError ExclusionAction
validate_request r = do
  require (not (is_blank r.archive_id)) (missing "archiveId")
  require (not (is_blank r.import_job_id)) (missing "importJobId")
  require (not (is_blank r.action)) (missing "action")
  require (not (is_blank r.actor)) (missing "actor")
  require (not (is_blank r.reason)) (missing "reason")
  require (not (is_blank r.idempotency_key)) (missing "idempotencyKey")
  elim (action_of r.action) [ none ↦ err bad_action | some a ↦ ok a ]

abbrev run_index : RunStatus → ℕ
run_index running = 0
run_index completed = 1
run_index failed = 2

abbrev pub run_transitions : RunStatus → List RunStatus
run_transitions running = completed ∷ failed ∷ []
run_transitions failed = running ∷ []
run_transitions completed = completed ∷ []

-- `none` where the code throws.
unfoldable pub transition_run : RunStatus → RunStatus → Option RunStatus
transition_run status next =
    if any (λ s. run_index s == run_index next) (run_transitions status) then some next else none

-- `>` on texts: the first UTF-16 code unit that differs decides.
pub units_gt : List ℕ → List ℕ → Bool
units_gt [] ys = false
units_gt (x ∷ xs) [] = true
units_gt (x ∷ xs) (y ∷ ys) = ltb y x || (x == y && units_gt xs ys)

-- An observation with a value of any type; its key is a list of UTF-16 code units.
pub record Observation (V : Type 0) : Type 0 where
  pub observation_key : List ℕ
  pub observed_at : ℕ
  pub source_kind : String
  pub value : V

module _ {V : Type 0} (is_usable : V → Bool) where
  -- `sourceKind !== "live"`
  abbrev pub is_backup : Observation V → Bool
  is_backup o = if o.source_kind == "live" then false else true

  -- Whether `reduce` takes the candidate in place of the winner.
  pub replaces : Observation V → Observation V → Bool
  replaces candidate winner =
      if differ (is_usable candidate.value) (is_usable winner.value)
      then is_usable candidate.value
      else if differ (is_backup candidate) (is_backup winner)
      then is_backup candidate
      else if candidate.observed_at == winner.observed_at
      then units_gt candidate.observation_key winner.observation_key
      else ltb winner.observed_at candidate.observed_at

  pub reduce_from : Option (Observation V) → List (Observation V) → Option (Observation V)
  reduce_from winner [] = winner
  reduce_from none (c ∷ rest) = reduce_from (some c) rest
  reduce_from (some w) (c ∷ rest) = reduce_from (some (if replaces c w then c else w)) rest

  -- `selectPreferredObservation`
  unfoldable pub select_preferred_observation : List (Observation V) → Option (Observation V)
  unfolding reduce_from replaces units_gt
  select_preferred_observation = reduce_from none
