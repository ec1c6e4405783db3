-- ===== src/Health.antt =====
-- src/domain/health.ts: the health of an archive, its freshness and its diagnostics.
pub mod States
mod Tests
use echohoard.Base.{
  Bool, List, Option, String, [], false, if◌then◌else◌, nat_eq, none, not, some, string_eq, true, ℕ,
  ◌==◌, ◌||◌, ◌∷◌,
}
use echohoard.Numbers.{
  Number, difference, is_finite, is_nought, less, non_negative_count, nought, or_none,
}

pub data HealthState : Type 0 where
  healthy warning failed empty in_progress stale unsupported : HealthState

pub data FreshnessState : Type 0 where
  fresh stale unknown : FreshnessState

pub data ImportHealthStatus : Type 0 where
  idle in_progress completed failed : ImportHealthStatus

pub data HealthDiagnosticCode : Type 0 where
  corrupt_source invalid_key io_failure unsupported_schema : HealthDiagnosticCode
  import_failure missing_media unsupported_content : HealthDiagnosticCode

pub record HealthDiagnosticInput : Type 0 where
  pub code : String
  pub retryable : Option Bool

pub record HealthDiagnostic : Type 0 where
  pub code : HealthDiagnosticCode
  pub message : String
  pub retryable : Bool

-- Times are valid dates, in milliseconds.
pub record HealthInput : Type 0 where
  pub now : ℕ
  pub latest_completed_snapshot_at : Option ℕ
  pub import_status : ImportHealthStatus
  pub message_count : Number
  pub media_referenced_count : Number
  pub media_available_count : Number
  pub unsupported_count : Number
  pub diagnostics : Option (List HealthDiagnosticInput)

pub record HealthCounts : Type 0 where
  pub messages : ℕ
  pub media_referenced : ℕ
  pub media_available : ℕ
  pub unsupported : ℕ

pub record HealthResult : Type 0 where
  pub state : HealthState
  pub freshness : FreshnessState
  pub latest_completed_snapshot_at : Option ℕ
  pub counts : HealthCounts
  pub diagnostics : List HealthDiagnostic

-- `diagnosticMessages`
abbrev pub diagnostic_messages : HealthDiagnosticCode → String
diagnostic_messages corrupt_source = "The source snapshot is corrupt or incomplete."
diagnostic_messages invalid_key = "The configured decryption key was rejected."
diagnostic_messages io_failure = "The archive could not read or store required data."
diagnostic_messages unsupported_schema = "The source schema is not supported by this version."
diagnostic_messages import_failure =
    "The import did not complete; retry after reviewing configuration."
diagnostic_messages missing_media = "Some referenced media is unavailable."
diagnostic_messages unsupported_content = "Some source content uses an unsupported type."

-- `diagnosticCodes`: the keys of the table.
abbrev pub code_of : String → Option HealthDiagnosticCode
code_of s =
    if s == "CORRUPT_SOURCE"
    then some corrupt_source
    else if s == "INVALID_KEY"
    then some invalid_key
    else if s == "IO_FAILURE"
    then some io_failure
    else if s == "UNSUPPORTED_SCHEMA"
    then some unsupported_schema
    else if s == "IMPORT_FAILURE"
    then some import_failure
    else if s == "MISSING_MEDIA"
    then some missing_media
    else if s == "UNSUPPORTED_CONTENT"
    then some unsupported_content
    else none

-- `input.retryable === true`
abbrev pub is_true : Option Bool → Bool
is_true none = false
is_true (some b) = b

unfoldable pub sanitize_diagnostics : List HealthDiagnosticInput → List HealthDiagnostic
sanitize_diagnostics [] = []
sanitize_diagnostics (i ∷ inputs) =
    let rest = sanitize_diagnostics inputs in
    elim (code_of i.code) [
      | none ↦ rest
      | some c ↦
          record { code = c; message = diagnostic_messages c; retryable = is_true i.retryable }
          ∷ rest
    ]

-- `age > staleAfterMilliseconds`, where the age of a snapshot from the future is negative.
unfoldable pub classify_freshness : Option ℕ → ℕ → Number → FreshnessState
classify_freshness none now stale_after = unknown
classify_freshness (some t) now stale_after =
    if less stale_after (difference now t) then FreshnessState.stale else fresh

abbrev pub is_stale : FreshnessState → Bool
is_stale FreshnessState.stale = true
is_stale _ = false

-- The chain of tests for the state.
unfoldable pub state_for : ImportHealthStatus → HealthInput → FreshnessState → HealthState
state_for ImportHealthStatus.failed i f = HealthState.failed
state_for ImportHealthStatus.in_progress i f = HealthState.in_progress
state_for _ i f =
    if less nought i.unsupported_count
    then unsupported
    else if is_nought i.message_count
    then empty
    else if is_stale f
    then HealthState.stale
    else if less i.media_available_count i.media_referenced_count
    then warning
    else healthy

-- What `classifyHealth` returns.
unfoldable pub health_report : HealthInput → Number → HealthResult
health_report i stale_after =
    let f = classify_freshness i.latest_completed_snapshot_at i.now stale_after in
    record {
      state = state_for i.import_status i f;
      freshness = f;
      latest_completed_snapshot_at = i.latest_completed_snapshot_at;
      counts = record {
        messages = non_negative_count i.message_count;
        media_referenced = non_negative_count i.media_referenced_count;
        media_available = non_negative_count i.media_available_count;
        unsupported = non_negative_count i.unsupported_count;
      };
      diagnostics = sanitize_diagnostics (or_none i.diagnostics);
    }

-- `classifyHealth`; `none` where it throws.
unfoldable pub classify_health : HealthInput → Number → Option HealthResult
classify_health i stale_after =
    if not (is_finite stale_after) || less stale_after nought
    then none
    else some (health_report i stale_after)
