-- ===== src/Mcp/TrustMutation/Codes.antt =====
-- codex_preflight_mcp/trust_mutation.py: the errors of the service. A message is a constant by its
-- code and is left out, as are the fields that name an argument.
use codex_preflight.Base.{String, Text}
use codex_preflight.Cache.TrustEntry.{StoreCode, corrupt, unsupported_schema, unavailable}
use codex_preflight.Mcp.Audit.Chain.{AuditError}
use codex_preflight.Mcp.MutationConfirmation.{Challenge, Code, capacity, rate_limited}

-- The codes without their prefix `MCP_TRUST_MUTATION_`.
pub data ErrorCode : Type 0 where
  is_disabled invalid_argument confirmation_required confirmation_invalid is_rate_limited :
      ErrorCode
  identity_unresolved limit_exceeded timed_out was_cancelled target_drift version_conflict :
      ErrorCode
  entry_not_found unsafe_storage is_corrupt schema_unsupported lock_timed_out audit_failed :
      ErrorCode
  persistence_failed committed_audit_pending needs_recovery internal_error : ErrorCode

unfoldable pub code_text : ErrorCode → String
code_text is_disabled = "MCP_TRUST_MUTATION_DISABLED"
code_text invalid_argument = "MCP_TRUST_MUTATION_INVALID_ARGUMENT"
code_text confirmation_required = "MCP_TRUST_MUTATION_CONFIRMATION_REQUIRED"
code_text confirmation_invalid = "MCP_TRUST_MUTATION_CONFIRMATION_INVALID"
code_text is_rate_limited = "MCP_TRUST_MUTATION_RATE_LIMITED"
code_text identity_unresolved = "MCP_TRUST_MUTATION_IDENTITY_UNRESOLVED"
code_text limit_exceeded = "MCP_TRUST_MUTATION_LIMIT_EXCEEDED"
code_text timed_out = "MCP_TRUST_MUTATION_TIMEOUT"
code_text was_cancelled = "MCP_TRUST_MUTATION_CANCELLED"
code_text target_drift = "MCP_TRUST_MUTATION_TARGET_DRIFT"
code_text version_conflict = "MCP_TRUST_MUTATION_VERSION_CONFLICT"
code_text entry_not_found = "MCP_TRUST_MUTATION_NOT_FOUND"
code_text unsafe_storage = "MCP_TRUST_MUTATION_UNSAFE_STORAGE"
code_text is_corrupt = "MCP_TRUST_MUTATION_CORRUPT"
code_text schema_unsupported = "MCP_TRUST_MUTATION_UNSUPPORTED_SCHEMA"
code_text lock_timed_out = "MCP_TRUST_MUTATION_LOCK_TIMEOUT"
code_text audit_failed = "MCP_TRUST_MUTATION_AUDIT_FAILED"
code_text persistence_failed = "MCP_TRUST_MUTATION_PERSISTENCE_FAILED"
code_text committed_audit_pending = "MCP_TRUST_MUTATION_COMMITTED_AUDIT_PENDING"
code_text needs_recovery = "MCP_TRUST_MUTATION_RECOVERY_REQUIRED"
code_text internal_error = "MCP_TRUST_MUTATION_INTERNAL_ERROR"

-- `TrustMutationError`: a code, the request for a confirmation, or the entry and the prepare record
-- of a mutation whose audit is not complete.
pub data MutationError : Type 0 where
  plain : ErrorCode → MutationError
  confirmation : Challenge → MutationError
  audit_pending : Text → Text → MutationError

abbrev pub error_code : MutationError → ErrorCode
error_code (plain c) = c
error_code (confirmation c) = confirmation_required
error_code (audit_pending entry_id prepared) = committed_audit_pending

-- `_cache_error`, for an error of the store
abbrev pub cache_error : StoreCode → ErrorCode
cache_error corrupt = is_corrupt
cache_error unsupported_schema = schema_unsupported
cache_error unavailable = persistence_failed

-- `_audit_error`
abbrev pub audit_error : AuditError → ErrorCode
audit_error AuditError.failed = audit_failed
audit_error AuditError.corrupt = is_corrupt
audit_error AuditError.recovery_required = needs_recovery

-- `_confirmation_issue_error`
abbrev pub confirmation_issue_error : Code → ErrorCode
confirmation_issue_error capacity = is_rate_limited
confirmation_issue_error rate_limited = is_rate_limited
confirmation_issue_error _ = confirmation_invalid

-- The event and the outcome that `_record_terminal_failure` writes.
abbrev pub failure_event : ErrorCode → String
failure_event was_cancelled = "mutation_cancelled"
failure_event timed_out = "mutation_timed_out"
failure_event lock_timed_out = "lock_timeout"
failure_event _ = "mutation_failed"

abbrev pub failure_outcome : ErrorCode → String
failure_outcome was_cancelled = "cancelled"
failure_outcome timed_out = "timed-out"
failure_outcome _ = "failure"
