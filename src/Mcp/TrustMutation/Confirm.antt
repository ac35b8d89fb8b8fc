-- ===== src/Mcp/TrustMutation/Confirm.antt =====
-- codex_preflight_mcp/trust_mutation.py: a call without a token, which asks for a confirmation.
use codex_preflight.Base.{
  ℕ, Bool, true, false, Option, none, some, String, List, Text, codes, nat_eq, list_eq,
}
use codex_preflight.Cache.TrustEntry.{TrustEntry}
use codex_preflight.Mcp.Action.{Outcome, returned, thrown, throw, lift, on_error, ◌>>=◌, ◌>>◌}
use codex_preflight.Mcp.MutationConfirmation.{
  Crypto, Manager, Challenge, ConsumedChallenge, issue, authenticate_and_consume,
}
use codex_preflight.Mcp.MutationConfirmation as Confirmation
use codex_preflight.Mcp.TrustMutation.Codes.{
  ErrorCode, MutationError, plain, confirmation, error_code, confirmation_issue_error,
  invalid_argument, entry_not_found, internal_error,
}
use codex_preflight.Mcp.TrustMutation.Service.{
  Parts, AuditTarget, Binding, Service, Method, no_target, audit_context, record_audit,
  record_validation_failure, record_terminal_failure, new_uuid,
}
use codex_preflight.Mcp.TrustMutation.Request.{
  ArgumentReader, ApprovalArguments, RevokeArguments, ApprovalRequest, RevokeRequest,
  validate_approval_request, validate_revoke_request,
}
use codex_preflight.Mcp.TrustMutation.Target.{
  Reading, Target, RevokeTarget, deadline_of, derive_approval_target, derive_revoke_target,
}
use codex_preflight.Mcp.TrustMutation.Bound.{
  approval_binding, revoke_binding, audit_target, revoke_audit_target,
}

abbrev pub required : {A : Type 0} → ErrorCode → Option A → Outcome MutationError A
required code none = thrown (plain code)
required code (some a) = returned a

module _ (parts : Parts) (reader : ArgumentReader) where
  open parts use {crypto, library, str}

  -- What the call that issues draws: the ids, the readings of the clocks and the random parts.
  pub record IssueDraws : Type 0 where
    pub operation_id : Text
    pub entry_id : Text
    pub prepared_event_id : Text
    pub wall_time : Option ℕ
    pub monotonic : Option ℕ
    pub reading : Reading
    pub now : ℕ
    pub challenge_id : String
    pub nonce : String
    pub display : Crypto.Mapping crypto

  abbrev pub issued_by :
      Service → Confirmation.Outcome Challenge × Manager → Outcome MutationError Challenge × Service
  issued_by s (Confirmation.ok c, m) = (returned c, record s { manager = m })
  issued_by s (Confirmation.err e, m) =
      (thrown (plain (confirmation_issue_error e)), record s { manager = m })

  -- `confirmation.issue`, with its errors as those of the service
  unfoldable pub issue_challenge : IssueDraws → Text → Binding → Text → Method Challenge
  issue_challenge d operation binding entry_id s = issued_by s (
      issue crypto d.now d.challenge_id d.nonce operation (parts.binding_mapping binding) d.display
        entry_id s.manager)

  -- The issue of a challenge and its two records, and the request for the confirmation.
  abbrev pub request_confirmation :
      IssueDraws → Bool → Text → Text → Text → AuditTarget → Binding → Method (Unit {0})
  request_confirmation d approving operation operation_id entry_id target binding =
      on_error (issue_challenge d operation binding entry_id) (λ e.
        record_audit parts "challenge_rejected" (
          audit_context parts approving operation_id target (some entry_id) none "rejected"
            (some (error_code e))))
      >>= λ c.
          (record_audit parts "challenge_issued" (
              audit_context parts approving operation_id target (some entry_id)
                (some (parts.canonical_challenge_id c.challenge_id)) "issued" none)
            >> throw (confirmation c))

  abbrev pub derived : (List TrustEntry → Outcome MutationError Target) → Method Target
  derived derive s = lift (derive s.store) s

  abbrev pub derived_revoke :
      (List TrustEntry → Outcome MutationError RevokeTarget) → Method RevokeTarget
  derived_revoke derive s = lift (derive s.store) s

  abbrev pub wall_clock : Option ℕ → Method ℕ
  wall_clock t = lift (required internal_error t)

  -- The part of `_issue_approval` behind the validation.
  abbrev pub issue_valid_approval : IssueDraws → Text → ApprovalRequest → Method (Unit {0})
  issue_valid_approval d operation_id q =
      record_audit parts "request_validated"
        (audit_context parts true operation_id no_target none none "validated" none)
      >> (lift (deadline_of d.monotonic) >>= λ deadline.
          (on_error (derived (derive_approval_target parts deadline d.reading q true)) (λ e.
              record_terminal_failure parts true operation_id (error_code e) no_target none none)
            >>= λ t.
                (record_audit parts "identity_resolved" (
                    audit_context parts true operation_id (audit_target parts t) none none
                      "resolved" none)
                  >> (new_uuid parts d.entry_id >>= λ entry_id.
                      (new_uuid parts d.prepared_event_id >>= λ prepared.
                      request_confirmation d true (codes "approve") operation_id entry_id
                        (audit_target parts t)
                        (approval_binding parts q t operation_id entry_id prepared))))))

  -- `_issue_approval`
  unfoldable pub issue_approval : IssueDraws → ApprovalArguments → Method (Unit {0})
  issue_approval d a = new_uuid parts d.operation_id >>= λ operation_id.
      (on_error
          (wall_clock d.wall_time >>= λ now.
            lift (required invalid_argument (validate_approval_request library reader a now)))
          (λ e.
            record_validation_failure parts true operation_id (error_code e) no_target none none)
        >>= issue_valid_approval d operation_id)

  -- What `_issue_revoke` records of a target that it did not find.
  abbrev pub record_unseen : Text → Text → MutationError → Method String
  record_unseen operation_id entry_id (plain entry_not_found) =
      record_audit parts "target_not_visible" (
        audit_context parts false operation_id no_target (some entry_id) none "not-visible"
          (some entry_not_found))
  record_unseen operation_id entry_id e =
      record_terminal_failure parts false operation_id (error_code e) no_target (some entry_id) none

  abbrev pub issue_valid_revoke : IssueDraws → Text → RevokeRequest → Method (Unit {0})
  issue_valid_revoke d operation_id q =
      record_audit parts "request_validated"
        (audit_context parts false operation_id no_target none none "validated" none)
      >> (lift (deadline_of d.monotonic) >>= λ deadline.
          (on_error (derived_revoke (derive_revoke_target parts deadline d.reading q))
              (record_unseen operation_id q.entry_id)
            >>= λ t.
                request_confirmation d false (codes "revoke") operation_id q.entry_id
                  (revoke_audit_target parts t) (revoke_binding parts q t operation_id)))

  -- `_issue_revoke`
  unfoldable pub issue_revoke : IssueDraws → RevokeArguments → Method (Unit {0})
  issue_revoke d a = new_uuid parts d.operation_id >>= λ operation_id.
      (on_error (lift (required invalid_argument (validate_revoke_request library reader a))) (λ e.
          record_validation_failure parts false operation_id (error_code e) no_target none none)
        >>= issue_valid_revoke d operation_id)
