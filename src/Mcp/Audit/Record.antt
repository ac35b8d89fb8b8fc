-- ===== src/Mcp/Audit/Record.antt =====
-- codex_preflight_mcp/trust_mutation_audit.py: the records of the log and their validation. The
-- version, the runtime identity and the id of the one key are constants, which a record leaves out.
use codex_preflight.Base.{
  ℕ, Bool, true, false, ◌&&◌, ◌||◌, Option, none, some, String, List, [], ◌∷◌, codes, ◌==◌, nat_eq,
  string_eq, leb, all, contains, length, drop, starts_with, if◌then◌else◌,
}

pub record AuditContext : Type 0 where
  pub tool : String
  pub operation_id : String
  pub operation : String
  pub target_hash : Option String
  pub entry_id : Option String
  pub scope : Option String
  pub policy_version : Option String
  pub ruleset_version : Option String
  pub challenge_id : Option String
  pub outcome : String
  pub error_code : Option String
  pub entry_version : Option ℕ

-- A record before it is signed.
pub record AuditRecord : Type 0 where
  pub event : String
  pub event_id : String
  pub timestamp : String
  pub context : AuditContext
  pub before_digest : Option String
  pub after_digest : Option String
  pub prepared_event_id : Option String

pub record SignedRecord : Type 0 where
  pub body : AuditRecord
  pub previous_mac : String
  pub record_mac : String

-- `_EVENT_OUTCOMES`, whose keys are `_EVENTS`
unfoldable pub event_outcomes : List (String × List String)
event_outcomes =
    ("registration_state", "enabled" ∷ "disabled" ∷ "failure" ∷ [])
    ∷ ("request_validation_failed", "failure" ∷ [])
    ∷ ("request_validated", "validated" ∷ [])
    ∷ ("challenge_issued", "issued" ∷ [])
    ∷ ("challenge_rejected", "rejected" ∷ [])
    ∷ ("challenge_consumed", "consumed" ∷ [])
    ∷ ("identity_resolved", "resolved" ∷ [])
    ∷ ("target_not_visible", "not-visible" ∷ [])
    ∷ ("mutation_prepared", "pending" ∷ "prepared" ∷ [])
    ∷ ("mutation_committed", "success" ∷ "committed" ∷ [])
    ∷ ("mutation_noop", "already-approved" ∷ "not-found" ∷ "noop" ∷ [])
    ∷ ("mutation_failed", "failure" ∷ [])
    ∷ ("mutation_cancelled", "cancelled" ∷ [])
    ∷ ("mutation_timed_out", "timed-out" ∷ [])
    ∷ ("lock_timeout", "failure" ∷ [])
    ∷ ("recovery_committed", "recovery_committed" ∷ [])
    ∷ ("recovery_aborted", "recovery_aborted" ∷ [])
    ∷ ("recovery_failed", "failure" ∷ [])
    ∷ ("success", "success" ∷ [])
    ∷ ("failure", "failure" ∷ [])
    ∷ []

-- `_STABLE_ERROR_CODES`
unfoldable pub stable_error_codes : List String
stable_error_codes =
    "MCP_TRUST_MUTATION_DISABLED" ∷ "MCP_TRUST_MUTATION_INVALID_ARGUMENT"
    ∷ "MCP_TRUST_MUTATION_CONFIRMATION_REQUIRED" ∷ "MCP_TRUST_MUTATION_CONFIRMATION_INVALID"
    ∷ "MCP_TRUST_MUTATION_RATE_LIMITED" ∷ "MCP_TRUST_MUTATION_IDENTITY_UNRESOLVED"
    ∷ "MCP_TRUST_MUTATION_LIMIT_EXCEEDED" ∷ "MCP_TRUST_MUTATION_TIMEOUT"
    ∷ "MCP_TRUST_MUTATION_CANCELLED" ∷ "MCP_TRUST_MUTATION_TARGET_DRIFT"
    ∷ "MCP_TRUST_MUTATION_VERSION_CONFLICT" ∷ "MCP_TRUST_MUTATION_NOT_FOUND"
    ∷ "MCP_TRUST_MUTATION_UNSAFE_STORAGE" ∷ "MCP_TRUST_MUTATION_CORRUPT"
    ∷ "MCP_TRUST_MUTATION_UNSUPPORTED_SCHEMA" ∷ "MCP_TRUST_MUTATION_LOCK_TIMEOUT"
    ∷ "MCP_TRUST_MUTATION_AUDIT_FAILED" ∷ "MCP_TRUST_MUTATION_PERSISTENCE_FAILED"
    ∷ "MCP_TRUST_MUTATION_COMMITTED_AUDIT_PENDING" ∷ "MCP_TRUST_MUTATION_RECOVERY_REQUIRED"
    ∷ "MCP_TRUST_MUTATION_INTERNAL_ERROR" ∷ []

-- `_SCOPES`
abbrev pub scopes : List String
scopes =
    "dependency_install" ∷ "script_execution" ∷ "build" ∷ "test" ∷ "docker" ∷ "network_shell"
    ∷ "mcp_server_start" ∷ "unknown_shell" ∷ "safe_readonly" ∷ []

abbrev pub optional : (String → Bool) → Option String → Bool
optional p none = true
optional p (some s) = p s

-- `value in _EVENT_OUTCOMES[event]`, false where the event is unknown
unfoldable pub has_outcome : List (String × List String) → String → String → Bool
has_outcome [] event outcome = false
has_outcome ((e, outcomes) ∷ rest) event outcome =
    if e == event then contains outcomes outcome else has_outcome rest event outcome

-- `_TOOL_OPERATIONS[tool] == operation`, with the checks of both
abbrev pub is_tool_operation : String → String → Bool
is_tool_operation tool operation =
    tool == "trust_approve" && operation == "approve"
    || tool == "trust_revoke" && operation == "revoke"

abbrev pub is_lower_hex : ℕ → Bool
is_lower_hex c = leb b'0' c && leb c b'9' || leb b'a' c && leb c b'f'

-- `_HASH_VALUE`
unfoldable pub is_hash : String → Bool
is_hash s =
    let text = codes s in
    starts_with text (codes "hmac-sha256:") && length text == 76 && all is_lower_hex (drop 12 text)

-- `_MAC_VALUE`
unfoldable pub is_mac : String → Bool
is_mac s = length (codes s) == 64 && all is_lower_hex (codes s)

abbrev pub is_safe_char : ℕ → Bool
is_safe_char c =
    leb b'A' c && leb c b'Z'
    || leb b'a' c && leb c b'z'
    || leb b'0' c && leb c b'9'
    || contains (b'_' ∷ b'.' ∷ b':' ∷ b'-' ∷ []) c

-- `_SAFE_VALUE`
unfoldable pub is_safe : String → Bool
is_safe s = leb 1 (length (codes s)) && leb (length (codes s)) 128 && all is_safe_char (codes s)

abbrev pub is_version_one : Option ℕ → Bool
is_version_one none = true
is_version_one (some n) = n == 1

-- The fields that `_build_record` and `_validate_stored_record` both check; `is_uuid4` is Python's
-- reading of a canonical UUID of version 4.
abbrev pub is_context_valid : (String → Bool) → String → AuditContext → Bool
is_context_valid is_uuid4 event c =
    is_tool_operation c.tool c.operation
    && is_uuid4 c.operation_id
    && optional is_hash c.target_hash
    && optional is_uuid4 c.entry_id
    && optional (contains scopes) c.scope
    && optional is_uuid4 c.challenge_id
    && has_outcome event_outcomes event c.outcome
    && optional (contains stable_error_codes) c.error_code
    && is_version_one c.entry_version

-- `_build_record`, for the id and the time that the factory and the clock give; `none` is the error
unfoldable pub build_record :
    (String → Bool)
    → String
    → String
    → String
    → AuditContext
    → Option String
    → Option String
    → Option String
    → Option AuditRecord
build_record is_uuid4 event_id timestamp event c before after prepared =
    if is_context_valid is_uuid4 event c
      && optional is_safe c.policy_version
      && optional is_safe c.ruleset_version
      && optional is_hash before
      && optional is_hash after
      && optional is_uuid4 prepared
      && is_uuid4 event_id
    then some (record {
      event = event;
      event_id = event_id;
      timestamp = timestamp;
      context = c;
      before_digest = before;
      after_digest = after;
      prepared_event_id = prepared;
    })
    else none

-- `_validate_stored_record`
unfoldable pub is_stored_valid : (String → Bool) → SignedRecord → Bool
is_stored_valid is_uuid4 r =
    let b = r.body in
    is_context_valid is_uuid4 b.event b.context
    && is_uuid4 b.event_id
    && optional is_uuid4 b.prepared_event_id
    && optional is_hash b.before_digest
    && optional is_hash b.after_digest
    && is_mac r.previous_mac
    && is_mac r.record_mac
