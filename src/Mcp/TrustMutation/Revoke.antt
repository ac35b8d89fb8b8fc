-- ===== src/Mcp/TrustMutation/Revoke.antt =====
-- codex_preflight_mcp/trust_mutation.py: revoke, on the entry that the confirmed call was bound to.
use codex_preflight.Base.{
  false, Option, none, some, String, Text, codes, ◌==◌, nat_eq, list_eq, if◌then◌else◌,
}
use codex_preflight.Cache.TrustEntry.{TrustEntry}
use codex_preflight.Cache.TrustCache.{
  Hooks, Hooked, MutationPlan, MutationOutcome, MutationResult, raised, revoked, not_found,
  version_conflict,
}
use codex_preflight.Cache.TrustCache.Operations.{revoke_entry_id}
use codex_preflight.Mcp.Action.{Outcome, returned, thrown, lift, on_error, fail_after, ◌>>=◌, ◌>>◌}
use codex_preflight.Mcp.Audit.Record.{AuditContext}
use codex_preflight.Mcp.TrustMutation.Codes as Codes
use codex_preflight.Mcp.TrustMutation.Codes.{
  ErrorCode, MutationError, plain, error_code, invalid_argument, confirmation_invalid, target_drift,
  entry_not_found, internal_error,
}
use codex_preflight.Mcp.TrustMutation.Service.{
  Parts, Binding, AuditTarget, Method, ensure_active, no_target, audit_context, record_audit,
}
use codex_preflight.Mcp.TrustMutation.Request.{
  ArgumentReader, RevokeArguments, RevokeRequest, validate_revoke_request,
}
use codex_preflight.Mcp.TrustMutation.Target.{RevokeTarget, deadline_of, derive_revoke_target}
use codex_preflight.Mcp.TrustMutation.Bound.{
  revoke_binding, revoke_audit_target, same_binding_values,
}
use codex_preflight.Mcp.TrustMutation.Confirm.{IssueDraws, required, derived_revoke, issue_revoke}
use codex_preflight.Mcp.TrustMutation.Consume.{
  consume_given, ConfirmDraws, Confirmed, refuse, terminal,
}
use codex_preflight.Mcp.TrustMutation.Mutation.{
  HookError, HookState, StoreOperation, drift, prepare_audit, commit_audit, run_mutation,
}

-- The answer of a confirmed revocation; what is constant in it is left out.
pub record RevokeReply : Type 0 where
  pub entry_id : Text
  pub challenge_id : String
  pub audit_event_id : Text

-- The target that agrees with the binding, and the entry that the binding holds.
pub record RevokeAgreed : Type 0 where
  pub target : RevokeTarget
  pub expected : TrustEntry

module _ (parts : Parts) (reader : ArgumentReader) where
  open parts use {library, max_bytes, store_digest}

  abbrev pub revoke_context :
      Confirmed → AuditTarget → Text → String → Option ErrorCode → AuditContext
  revoke_context c target entry_id outcome error =
      audit_context parts false c.binding.operation_id target (some entry_id)
        (some (parts.canonical_challenge_id c.consumed.challenge_id)) outcome error

  -- What `_confirm_revoke` records where no target is derived.
  abbrev pub record_underived : Confirmed → Text → MutationError → Method String
  record_underived c entry_id (plain entry_not_found) =
      record_audit parts "mutation_noop"
        (revoke_context c no_target entry_id "not-found" (some entry_not_found))
  record_underived c entry_id e = terminal parts false c (error_code e)

  abbrev pub expect_entry :
      Binding → RevokeTarget → Option TrustEntry → Outcome MutationError RevokeAgreed
  expect_entry b t none = thrown (plain confirmation_invalid)
  expect_entry b t (some e) = returned (record { target = t; expected = e })

  -- The comparison with the binding, and the entry that it expects.
  abbrev pub agree_revoke :
      Binding → RevokeRequest → RevokeTarget → Outcome MutationError RevokeAgreed
  agree_revoke b q t =
      if same_binding_values b (revoke_binding parts q t b.operation_id)
      then expect_entry b t b.expected_entry
      else thrown (plain target_drift)

  -- `_bound_uuid` of the entry's id, outside of any handler
  abbrev pub bound_entry : Confirmed → Outcome MutationError Text
  bound_entry c =
      if library.is_uuid4 c.binding.entry_id
      then returned c.binding.entry_id
      else thrown (plain confirmation_invalid)

  abbrev pub prepare_unchanged :
      Text
      → AuditContext
      → RevokeTarget
      → MutationPlan
      → HookState
      → Hooked HookError Text × HookState
  prepare_unchanged entry_id context t plan h =
      if store_digest plan.before == t.store_digest
      then prepare_audit parts "revoke" entry_id context none plan h
      else (raised drift, h)

  unfoldable pub revoke_hooks :
      ConfirmDraws → Confirmed → RevokeAgreed → Text → Hooks HookError HookState
  revoke_hooks d c a entry_id =
      let context = revoke_context c (revoke_audit_target parts a.target) entry_id "pending" none in
      record {
        revalidate = λ entries h. (none, h);
        prepare = prepare_unchanged entry_id context a.target;
        write = d.write;
        commit = commit_audit parts context;
      }

  abbrev pub revoke_operation : ConfirmDraws → Confirmed → RevokeAgreed → Text → StoreOperation
  revoke_operation d c a entry_id =
      revoke_entry_id library max_bytes (revoke_hooks d c a entry_id) d.store_now entry_id 1
        a.expected

  abbrev pub revoke_reply :
      Confirmed
      → MutationOutcome
      → Option TrustEntry
      → Option Text
      → Outcome MutationError RevokeReply
  revoke_reply c revoked (some e) (some event) = returned (record {
    entry_id = e.entry_id;
    challenge_id = parts.canonical_challenge_id c.consumed.challenge_id;
    audit_event_id = event;
  })
  revoke_reply c _ _ _ = thrown (plain internal_error)

  abbrev pub revoke_outcome :
      Confirmed → RevokeAgreed → Text → MutationResult → MutationOutcome → Method RevokeReply
  revoke_outcome c a entry_id r not_found =
      fail_after
        (record_audit parts "mutation_noop" (
          revoke_context c (revoke_audit_target parts a.target) entry_id "not-found"
            (some entry_not_found)))
        (plain entry_not_found)
  revoke_outcome c a entry_id r version_conflict =
      fail_after (terminal parts false c Codes.version_conflict) (plain Codes.version_conflict)
  revoke_outcome c a entry_id r outcome = lift (revoke_reply c outcome r.entry r.final_event_id)

  -- The end of `_confirm_revoke`, with `_revoke_result`
  unfoldable pub revoke_result :
      Confirmed → RevokeAgreed → Text → MutationResult → Method RevokeReply
  revoke_result c a entry_id r = revoke_outcome c a entry_id r r.outcome

  -- The part of `_confirm_revoke` behind the comparison of the bindings.
  unfoldable pub revoke_agreed : ConfirmDraws → Confirmed → RevokeAgreed → Method RevokeReply
  revoke_agreed d c a = lift (bound_entry c) >>= λ entry_id.
      (run_mutation parts (terminal parts false c) d.lock (revoke_operation d c a entry_id)
        >>= revoke_result c a entry_id)

  abbrev pub confirm_valid_revoke : ConfirmDraws → Confirmed → RevokeRequest → Method RevokeReply
  confirm_valid_revoke d c q = lift (deadline_of d.monotonic) >>= λ deadline.
      (on_error (derived_revoke parts reader (derive_revoke_target parts deadline d.reading q))
          (record_underived c q.entry_id)
        >>= λ t.
            (on_error (lift (agree_revoke c.binding q t))
                (λ e. terminal parts false c (error_code e))
              >>= revoke_agreed d c))

  abbrev pub confirm_consumed_revoke :
      ConfirmDraws → RevokeArguments → Confirmed → Method RevokeReply
  confirm_consumed_revoke d a c =
      on_error (lift (required invalid_argument (validate_revoke_request library reader a)))
        (refuse parts false c)
      >>= confirm_valid_revoke d c

  -- `_confirm_revoke`
  unfoldable pub confirm_revoke : ConfirmDraws → RevokeArguments → Option Text → Method RevokeReply
  confirm_revoke d a token =
      consume_given parts d.now (codes "revoke") token >>= confirm_consumed_revoke d a

  abbrev pub revoke_with :
      IssueDraws parts reader → ConfirmDraws → RevokeArguments → Option Text → Method RevokeReply
  revoke_with i d a none = issue_revoke parts reader i a >> confirm_revoke d a none
  revoke_with i d a (some token) = confirm_revoke d a (some token)

  -- `revoke`
  unfoldable pub revoke_call :
      IssueDraws parts reader → ConfirmDraws → RevokeArguments → Option Text → Method RevokeReply
  revoke_call i d a token = ensure_active >> revoke_with i d a token
