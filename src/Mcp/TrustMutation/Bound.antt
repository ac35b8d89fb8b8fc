-- ===== src/Mcp/TrustMutation/Bound.antt =====
-- codex_preflight_mcp/trust_mutation.py: the binding of a challenge to its target, and their comparison.
use codex_preflight.Base.{
  Bool, true, false, ◌&&◌, Option, none, some, List, [], ◌∷◌, Text, codes, ◌==◌, nat_eq, list_eq,
  option_eq,
}
use codex_preflight.Cache.TrustEntry.{TrustEntry, same_entry}
use codex_preflight.Mcp.TrustMutation.Service.{Parts, AuditTarget, Binding}
use codex_preflight.Mcp.TrustMutation.Request.{ApprovalRequest, RevokeRequest}
use codex_preflight.Mcp.TrustMutation.Target.{Target, RevokeTarget}

module _ (parts : Parts) where
  open parts use {value_digest}

  abbrev pub audit_target : Target → AuditTarget
  audit_target t = record {
    target_hash = some t.target_hash;
    scope = some t.command_scope;
    policy_version = some t.policy_version;
    ruleset_version = some t.ruleset_version;
  }

  abbrev pub revoke_audit_target : RevokeTarget → AuditTarget
  revoke_audit_target t = record {
    target_hash = some t.target_hash;
    scope = some t.entry.command_scope;
    policy_version = some t.entry.policy_version;
    ruleset_version = some t.entry.ruleset_version;
  }

  abbrev pub digest_option : Option Text → Option Text
  digest_option none = none
  digest_option (some s) = some (value_digest s)

  -- The part of `_target_binding` behind the four fields of the audit.
  abbrev pub target_details : Target → List (Option Text)
  target_details t =
      some (value_digest t.cwd)
      ∷ some (value_digest t.root)
      ∷ some (value_digest t.repo_id)
      ∷ digest_option t.remote_url
      ∷ t.head_commit
      ∷ some t.critical_fingerprint
      ∷ []

  -- `_approval_binding`
  unfoldable pub approval_binding : ApprovalRequest → Target → Text → Text → Text → Binding
  approval_binding q t operation_id entry_id prepared_event_id = record {
    tool = codes "trust_approve";
    operation = codes "approve";
    operation_id = operation_id;
    entry_id = entry_id;
    prepared_event_id = some prepared_event_id;
    request =
        value_digest q.cwd ∷ value_digest q.command ∷ q.expires_at ∷ value_digest q.reason ∷ [];
    target = audit_target t;
    details = target_details t;
    store_digest = t.store_digest;
    expected_entry = none;
  }

  -- `_revoke_binding`
  unfoldable pub revoke_binding : RevokeRequest → RevokeTarget → Text → Binding
  revoke_binding q t operation_id = record {
    tool = codes "trust_revoke";
    operation = codes "revoke";
    operation_id = operation_id;
    entry_id = q.entry_id;
    prepared_event_id = none;
    request = value_digest q.reason ∷ [];
    target = revoke_audit_target t;
    details = some t.entry_digest ∷ [];
    store_digest = t.store_digest;
    expected_entry = some t.entry;
  }

abbrev pub same_audit_target : AuditTarget → AuditTarget → Bool
same_audit_target a b =
    a.target_hash == b.target_hash
    && a.scope == b.scope
    && a.policy_version == b.policy_version
    && a.ruleset_version == b.ruleset_version

abbrev pub same_entries : Option TrustEntry → Option TrustEntry → Bool
same_entries none none = true
same_entries (some a) (some b) = same_entry a b
same_entries _ _ = false

-- `_same_binding`
unfoldable pub same_binding_values : Binding → Binding → Bool
same_binding_values a b =
    a.tool == b.tool
    && a.operation == b.operation
    && a.operation_id == b.operation_id
    && a.entry_id == b.entry_id
    && a.prepared_event_id == b.prepared_event_id
    && a.request == b.request
    && same_audit_target a.target b.target
    && a.details == b.details
    && a.store_digest == b.store_digest
    && same_entries a.expected_entry b.expected_entry
