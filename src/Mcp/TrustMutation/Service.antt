-- ===== src/Mcp/TrustMutation/Service.antt =====
-- codex_preflight_mcp/trust_mutation.py: the state of the service, its health, and the records it
-- writes to the audit log.
use codex_preflight.Base.{
  ℕ, ◌+◌, Bool, true, false, not, Option, none, some, String, List, Text, codes, ◌==◌, nat_eq,
  list_eq, if◌then◌else◌,
}
use codex_preflight.Cache.TrustEntry.{TrustEntry, Library}
use codex_preflight.Mcp.Action.{Action, Outcome, returned, thrown, ◌>>=◌, ◌>>◌}
use codex_preflight.Mcp.Audit.Record.{AuditContext}
use codex_preflight.Mcp.Audit.Chain.{Limits, Keyed, Checked, ok, err}
use codex_preflight.Mcp.Audit.Protocol.{
  Journal, Fresh, RecoveryResult, record_event, verify_and_recover,
}
use codex_preflight.Mcp.MutationConfirmation.{Crypto, Manager, invalidate_all}
use codex_preflight.Mcp.TrustMutation.Codes.{
  ErrorCode, MutationError, plain, audit_error, code_text, failure_event, failure_outcome,
  internal_error, is_disabled, needs_recovery,
}

-- What names the target in an audit record.
pub record AuditTarget : Type 0 where
  pub target_hash : Option Text
  pub scope : Option Text
  pub policy_version : Option Text
  pub ruleset_version : Option Text

-- What a challenge is bound to. `request` holds the digests of the arguments, `details` those of
-- the rest of the target; the last field is there in the binding of a revocation only.
pub record Binding : Type 0 where
  pub tool : Text
  pub operation : Text
  pub operation_id : Text
  pub entry_id : Text
  pub prepared_event_id : Option Text
  pub request : List Text
  pub target : AuditTarget
  pub details : List (Option Text)
  pub store_digest : Text
  pub expected_entry : Option TrustEntry

-- The parts that the service is made of, with what is taken from Python, the file system and the
-- other modules: a text as one value, the bytes and the digest of the store, the digest of a value,
-- the privacy hash, the text of an instant, the form with dashes
-- (`_canonical_challenge_id`) of a UUID that the manager drew, and the writing and reading of a binding as a mapping.
pub record Parts : Type 1 where
  pub keyed : Keyed
  pub limits : Limits
  pub state_digest : Option String → String
  pub crypto : Crypto
  pub library : Library
  pub max_bytes : ℕ
  pub str : Text → String
  pub store_bytes : List TrustEntry → Option String
  pub store_digest : List TrustEntry → Text
  pub value_digest : Text → Text
  pub entry_digest : TrustEntry → Text
  pub privacy_hash : Text → Text
  pub utc_timestamp : ℕ → Text
  pub canonical_challenge_id : String → String
  pub binding_mapping : Binding → Crypto.Mapping crypto
  pub read_binding : Text → Option Binding
  pub fresh : ℕ → Fresh

-- The attributes that change, the files, and the number of records for which an id was drawn.
pub record Service : Type 0 where
  pub enabled : Bool
  pub healthy : Bool
  pub manager : Manager
  pub journal : Journal
  pub store : List TrustEntry
  pub drawn : ℕ

-- A method of the service.
abbrev pub Method : Type 0 → Type 0
Method A = Action Service MutationError A

abbrev pub is_approve : Text → Bool
is_approve operation = operation == codes "approve"

abbrev pub no_target : AuditTarget
no_target = record {
  target_hash = none;
  scope = none;
  policy_version = none;
  ruleset_version = none;
}

-- `_mark_unhealthy`
unfoldable pub mark_unhealthy : Method (Unit {0})
mark_unhealthy s = (returned tt, record s { healthy = false; manager = invalidate_all s.manager })

-- `_ensure_enabled` and `_ensure_active`
unfoldable pub ensure_active : Method (Unit {0})
ensure_active s =
    if not s.enabled
    then (thrown (plain is_disabled), s)
    else if not s.healthy
    then (thrown (plain needs_recovery), s)
    else (returned tt, s)

module _ (parts : Parts) where
  open parts use {keyed, limits, state_digest, str, fresh}

  abbrev pub text_of : Option Text → Option String
  text_of none = none
  text_of (some t) = some (str t)

  abbrev pub version_of : Option String → Option ℕ
  version_of none = none
  version_of (some id) = some 1

  abbrev pub error_text : Option ErrorCode → Option String
  error_text none = none
  error_text (some c) = some (code_text c)

  -- `_audit_context`
  unfoldable pub audit_context :
      Bool
      → Text
      → AuditTarget
      → Option Text
      → Option String
      → String
      → Option ErrorCode
      → AuditContext
  audit_context approving operation_id target entry_id challenge_id outcome error = record {
    tool = if approving then "trust_approve" else "trust_revoke";
    operation_id = str operation_id;
    operation = if approving then "approve" else "revoke";
    target_hash = text_of target.target_hash;
    entry_id = text_of entry_id;
    scope = text_of target.scope;
    policy_version = text_of target.policy_version;
    ruleset_version = text_of target.ruleset_version;
    challenge_id = challenge_id;
    outcome = outcome;
    error_code = error_text error;
    entry_version = version_of (text_of entry_id);
  }

  abbrev pub recorded_by :
      Service → Checked String × Journal → Outcome MutationError String × Service
  recorded_by s (ok id, j) = (returned id, record s { journal = j; drawn = s.drawn + 1 })
  recorded_by s (err e, j) =
      (thrown (plain (audit_error e)), record s { journal = j; drawn = s.drawn + 1 })

  -- `_record`
  unfoldable pub record_audit : String → AuditContext → Method String
  record_audit event context s =
      recorded_by s (record_event keyed limits state_digest (fresh s.drawn) event context s.journal)

  -- `_record_validation_failure`
  abbrev pub record_validation_failure :
      Bool → Text → ErrorCode → AuditTarget → Option Text → Option String → Method String
  record_validation_failure approving operation_id error target entry_id challenge_id =
      record_audit "request_validation_failed"
        (audit_context approving operation_id target entry_id challenge_id "failure" (some error))

  -- `_record_terminal_failure`
  abbrev pub record_terminal_failure :
      Bool → Text → ErrorCode → AuditTarget → Option Text → Option String → Method String
  record_terminal_failure approving operation_id error target entry_id challenge_id =
      record_audit (failure_event error) (
        audit_context approving operation_id target entry_id challenge_id (failure_outcome error)
          (some error))

  abbrev pub recovered_by :
      Service → Checked RecoveryResult × Journal → Outcome MutationError RecoveryResult × Service
  recovered_by s (ok r, j) =
      (returned r, record s { journal = j; drawn = s.drawn + 1; healthy = true })
  recovered_by s (err e, j) = (
    thrown (plain (audit_error e)),
    record s { journal = j; drawn = s.drawn + 1; healthy = false },
  )

  -- `recover_startup`, where the lock of the store is got and the file is read; in one process
  unfoldable pub recover_startup : Method RecoveryResult
  recover_startup s =
      if not s.enabled
      then (thrown (plain is_disabled), s)
      else recovered_by s (
          verify_and_recover keyed limits state_digest (λ st. st) (fresh s.drawn)
            (some (parts.store_bytes s.store)) s.journal)

  -- `_new_uuid`, for what the factory gives
  unfoldable pub new_uuid : Text → Method Text
  new_uuid id s =
      if parts.library.is_uuid4 id then (returned id, s) else (thrown (plain internal_error), s)

  -- `record_registration_state`
  unfoldable pub record_registration_state : Text → Method String
  record_registration_state id =
      ensure_active
      >> (new_uuid id >>= λ operation_id.
          record_audit "registration_state"
            (audit_context true operation_id no_target none none "enabled" none))
