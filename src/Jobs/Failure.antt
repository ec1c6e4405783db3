-- ===== src/Jobs/Failure.antt =====
-- src/application/intake.ts: the class of a failed job, and whether it may be tried again.
use Prim.Native.String.{◌++◌}
use echohoard.Base.{
  Bool, List, Option, String, [], false, find, if◌then◌else◌, nat_eq, none, some, string_eq, true,
  ◌==◌, ◌∷◌,
}

pub data JobFailureClass : Type 0 where
  io invalid_key corrupt_source unsupported_format timeout resource_limit internal : JobFailureClass

pub data Phase : Type 0 where
  decryption adaptation import finalization : Phase

pub record Failure : Type 0 where
  pub failure_class : JobFailureClass
  pub retryable : Bool
  pub diagnostic : String

-- What a thrown value shows to `toFailure`: `error.kind` and `error.phase`, where it is an object
-- that has them.
pub record Thrown : Type 0 where
  pub kind : Option String
  pub phase : Option String

abbrev pub class_name : JobFailureClass → String
class_name io = "io"
class_name invalid_key = "invalid-key"
class_name corrupt_source = "corrupt-source"
class_name unsupported_format = "unsupported-format"
class_name timeout = "timeout"
class_name resource_limit = "resource-limit"
class_name internal = "internal"

abbrev pub phase_name : Phase → String
phase_name decryption = "decryption"
phase_name adaptation = "adaptation"
phase_name import = "import"
phase_name finalization = "finalization"

abbrev pub all_classes : List JobFailureClass
all_classes =
    io ∷ invalid_key ∷ corrupt_source ∷ unsupported_format ∷ timeout ∷ resource_limit ∷ internal
    ∷ []

abbrev pub all_phases : List Phase
all_phases = decryption ∷ adaptation ∷ import ∷ finalization ∷ []

unfoldable pub class_of : Option String → JobFailureClass
class_of none = internal
class_of (some kind) = elim (find (λ c. class_name c == kind) all_classes) [
  | none ↦ internal
  | some c ↦ c
]

unfoldable pub phase_of : Option String → Phase → Phase
phase_of none phase = phase
phase_of (some reported) phase = elim (find (λ p. phase_name p == reported) all_phases) [
  | none ↦ phase
  | some p ↦ p
]

abbrev pub may_retry : JobFailureClass → Bool
may_retry io = true
may_retry timeout = true
may_retry internal = true
may_retry _ = false

unfoldable pub to_failure : Thrown → Phase → Failure
unfolding class_of phase_of
to_failure error phase =
    let c = class_of error.kind in
    record {
      failure_class = c;
      retryable = may_retry c;
      diagnostic =
          phase_name (phase_of error.phase phase)
          ++ (if may_retry c then " retryable failure (" else " terminal failure (")
          ++ class_name c
          ++ ")";
    }
