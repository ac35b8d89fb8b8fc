-- ===== src/Mcp/TrustMutation/Approve.antt =====
-- codex_preflight_mcp/trust_mutation.py: approve, on the entry that a confirmed call stores.
use codex_preflight.Base.{
  ℕ, Bool, true, false, ◌&&◌, Option, none, some, String, List, Text, codes, ◌==◌, nat_eq, list_eq,
  option_eq, if◌then◌else◌,
}
use codex_preflight.Cache.TrustEntry.{
  TrustEntry, entry_version_one, trust_schema, mcp_mutation_version, mcp_trust_approve,
}
use codex_preflight.Cache.TrustCache.{
  Hooks, Hooked, MutationPlan, MutationOutcome, MutationResult, raised, already_approved,
}
use codex_preflight.Cache.TrustCache.Operations.{approve_mcp}
use codex_preflight.Mcp.Action.{Outcome, returned, thrown, pure, throw, lift, on_error, ◌>>=◌, ◌>>◌}
use codex_preflight.Mcp.Audit.Record.{AuditContext}
use codex_preflight.Mcp.TrustMutation.Codes.{
  MutationError, plain, error_code, invalid_argument, confirmation_invalid, target_drift,
  internal_error,
}
use codex_preflight.Mcp.TrustMutation.Service.{
  Parts, Binding, Method, ensure_active, no_target, audit_context, record_audit,
}
use codex_preflight.Mcp.TrustMutation.Request.{
  ArgumentReader, ApprovalArguments, ApprovalRequest, validate_approval_request,
}
use codex_preflight.Mcp.TrustMutation.Target.{Target, deadline_of, derive_approval_target}
use codex_preflight.Mcp.TrustMutation.Bound.{
  approval_binding, audit_target, target_details, same_audit_target, same_binding_values,
}
use codex_preflight.Mcp.TrustMutation.Confirm.{IssueDraws, required, derived, issue_approval}
use codex_preflight.Mcp.TrustMutation.Consume.{
  consume_given, ConfirmDraws, Confirmed, refuse, terminal,
}
use codex_preflight.Mcp.TrustMutation.Mutation.{
  HookError, HookState, StoreOperation, drift, other_error, prepare_audit, commit_audit,
  run_mutation,
}

-- The answer of a confirmed approval; what is constant in it is left out.
pub record ApprovalReply : Type 0 where
  pub outcome : MutationOutcome
  pub applied : Bool
  pub entry_id : Text
  pub repo_id_hash : Text
  pub head_commit : Option Text
  pub critical_fingerprint : Text
  pub command_scope : Text
  pub policy_version : Text
  pub ruleset_version : Text
  pub expires_at : Text
  pub challenge_id : String
  pub audit_event_id : Text

-- The target that agrees with the binding, and the id of the prepare record.
pub record Agreed : Type 0 where
  pub target : Target
  pub prepared_event_id : Text

module _ (parts : Parts) (reader : ArgumentReader) where
  open parts use {library, max_bytes, privacy_hash, store_digest, utc_timestamp}

  abbrev pub agree_with :
      Binding → ApprovalRequest → Target → Option Text → Outcome MutationError Agreed
  agree_with b q t none = thrown (plain confirmation_invalid)
  agree_with b q t (some prepared) =
      if library.is_uuid4 b.entry_id && library.is_uuid4 prepared
      then (if same_binding_values b (approval_binding parts q t b.operation_id b.entry_id prepared)
          then returned (record { target = t; prepared_event_id = prepared })
          else thrown (plain target_drift))
      else thrown (plain confirmation_invalid)

  -- The entry that `approve_mcp` builds.
  unfoldable pub approval_entry : Confirmed → ApprovalRequest → Agreed → TrustEntry
  approval_entry c q a = record {
    repo_id = a.target.repo_id;
    path = a.target.root;
    remote_url = a.target.remote_url;
    head_commit = a.target.head_commit;
    critical_fingerprint = a.target.critical_fingerprint;
    command_scope = a.target.command_scope;
    approved_command = q.command;
    decision = codes "USER_APPROVED";
    approved_at = utc_timestamp c.consumed.issued_at;
    expires_at = q.expires_at;
    approved_by = codes "local-user";
    policy_version = a.target.policy_version;
    ruleset_version = a.target.ruleset_version;
    entry_id = c.binding.entry_id;
    entry_version = entry_version_one;
    provenance = record {
      schema = trust_schema;
      source = mcp_trust_approve;
      migration_version = mcp_mutation_version;
      timestamp = utc_timestamp c.consumed.issued_at;
      approval_reason = some q.reason;
      mutation_audit_event_id = some a.prepared_event_id;
    };
  }

  abbrev pub approval_context : Confirmed → Agreed → AuditContext
  approval_context c a =
      audit_context parts true c.binding.operation_id (audit_target parts a.target)
        (some c.binding.entry_id) (some (parts.canonical_challenge_id c.consumed.challenge_id))
        "pending" none

  abbrev pub same_target : Target → Target → Bool
  same_target a b =
      same_audit_target (audit_target parts a) (audit_target parts b)
      && target_details parts a == target_details parts b

  -- `revalidate`, on the target that it derives
  abbrev pub revalidation :
      Target → List TrustEntry → Outcome MutationError Target → Option HookError
  revalidation t entries (thrown e) = some other_error
  revalidation t entries (returned u) =
      if same_target u t && store_digest entries == t.store_digest then none else some drift

  abbrev pub prepare_planned :
      Text → AuditContext → Text → MutationPlan → HookState → Hooked HookError Text × HookState
  prepare_planned entry_id context prepared plan h =
      if plan.planned_event_id == some prepared
      then prepare_audit parts "approve" entry_id context (some prepared) plan h
      else (raised drift, h)

  unfoldable pub approval_hooks :
      ConfirmDraws → Confirmed → ApprovalRequest → ℕ → Agreed → Hooks HookError HookState
  approval_hooks d c q deadline a = record {
    revalidate = λ entries h. (
      revalidation a.target entries
          (derive_approval_target parts deadline d.second_reading q false entries),
      h,
    );
    prepare = prepare_planned c.binding.entry_id (approval_context c a) a.prepared_event_id;
    write = d.write;
    commit = commit_audit parts (approval_context c a);
  }

  abbrev pub approve_operation :
      ConfirmDraws → Confirmed → ApprovalRequest → ℕ → Agreed → StoreOperation
  approve_operation d c q deadline a =
      approve_mcp library max_bytes (approval_hooks d c q deadline a) d.store_now
        (approval_entry c q a)

  abbrev pub approval_reply : Confirmed → MutationResult → TrustEntry → Text → ApprovalReply
  approval_reply c r e event = record {
    outcome = r.outcome;
    applied = r.applied;
    entry_id = e.entry_id;
    repo_id_hash = privacy_hash e.repo_id;
    head_commit = e.head_commit;
    critical_fingerprint = e.critical_fingerprint;
    command_scope = e.command_scope;
    policy_version = e.policy_version;
    ruleset_version = e.ruleset_version;
    expires_at = e.expires_at;
    challenge_id = parts.canonical_challenge_id c.consumed.challenge_id;
    audit_event_id = event;
  }

  abbrev pub record_already : Confirmed → MutationResult → TrustEntry → Method ApprovalReply
  record_already c r e =
      record_audit parts "mutation_noop" (
        audit_context parts true c.binding.operation_id no_target (some e.entry_id)
          (some (parts.canonical_challenge_id c.consumed.challenge_id)) "already-approved" none)
      >>= λ id. pure (approval_reply c r e (codes id))

  abbrev pub applied_reply :
      Confirmed → MutationResult → TrustEntry → Option Text → Method ApprovalReply
  applied_reply c r e none = throw (plain internal_error)
  applied_reply c r e (some event) = pure (approval_reply c r e event)

  abbrev pub reply_of :
      Confirmed → MutationResult → MutationOutcome → Option TrustEntry → Method ApprovalReply
  reply_of c r outcome none = throw (plain internal_error)
  reply_of c r already_approved (some e) = record_already c r e
  reply_of c r outcome (some e) = applied_reply c r e r.final_event_id

  -- `_approval_result`; an assertion that fails is an internal error
  unfoldable pub approval_result : Confirmed → MutationResult → Method ApprovalReply
  approval_result c r = reply_of c r r.outcome r.entry

  -- The part of `_confirm_approval` behind the comparison of the bindings.
  unfoldable pub approve_agreed :
      ConfirmDraws → Confirmed → ApprovalRequest → ℕ → Agreed → Method ApprovalReply
  approve_agreed d c q deadline a =
      run_mutation parts (terminal parts true c) d.lock (approve_operation d c q deadline a)
      >>= approval_result c

  -- The derivation of the target and its comparison with the binding.
  unfoldable pub agree : ConfirmDraws → Confirmed → ApprovalRequest → ℕ → Method Agreed
  agree d c q deadline =
      derived parts reader (derive_approval_target parts deadline d.reading q true) >>= λ t.
      lift (agree_with c.binding q t c.binding.prepared_event_id)

  abbrev pub confirm_valid : ConfirmDraws → Confirmed → ApprovalRequest → Method ApprovalReply
  confirm_valid d c q = lift (deadline_of d.monotonic) >>= λ deadline.
      (on_error (agree d c q deadline) (λ e. terminal parts true c (error_code e))
        >>= approve_agreed d c q deadline)

  abbrev pub confirm_consumed : ConfirmDraws → ApprovalArguments → Confirmed → Method ApprovalReply
  confirm_consumed d a c =
      on_error
        (lift (
          required invalid_argument
            (validate_approval_request library reader a c.consumed.issued_at)))
        (refuse parts true c)
      >>= confirm_valid d c

  -- `_confirm_approval`
  unfoldable pub confirm_approval :
      ConfirmDraws → ApprovalArguments → Option Text → Method ApprovalReply
  confirm_approval d a token =
      consume_given parts d.now (codes "approve") token >>= confirm_consumed d a

  abbrev pub approve_with :
      IssueDraws parts reader
      → ConfirmDraws
      → ApprovalArguments
      → Option Text
      → Method ApprovalReply
  approve_with i d a none = issue_approval parts reader i a >> confirm_approval d a none
  approve_with i d a (some token) = confirm_approval d a (some token)

  -- `approve`
  unfoldable pub approve_call :
      IssueDraws parts reader
      → ConfirmDraws
      → ApprovalArguments
      → Option Text
      → Method ApprovalReply
  approve_call i d a token = ensure_active >> approve_with i d a token
