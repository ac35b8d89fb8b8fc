-- ===== src/Mcp/TrustMutation/Issued.antt =====
-- codex_preflight_mcp/trust_mutation.py: a call without a token keeps what holds of the manager, where
-- the issue of its challenge does.
use codex_preflight.Base.{Bool, true, false, Text, List}
use codex_preflight.Cache.TrustEntry.{TrustEntry}
use codex_preflight.Mcp.Action.{Outcome, throw}
use codex_preflight.Mcp.MutationConfirmation.{Crypto, Manager, Challenge, issue}
use codex_preflight.Mcp.MutationConfirmation as Confirmation
use codex_preflight.Mcp.TrustMutation.Codes.{
  MutationError, plain, confirmation, internal_error, entry_not_found, invalid_argument,
}
use codex_preflight.Mcp.TrustMutation.Service.{Parts, Service, Binding, AuditTarget}
use codex_preflight.Mcp.TrustMutation.Request.{
  ArgumentReader, ApprovalArguments, RevokeArguments, ApprovalRequest, RevokeRequest,
  validate_approval_request, validate_revoke_request,
}
use codex_preflight.Mcp.TrustMutation.Target.{
  Target, RevokeTarget, deadline_of, derive_approval_target, derive_revoke_target,
}
use codex_preflight.Mcp.TrustMutation.Confirm.{
  IssueDraws, required, derived, derived_revoke, issue_challenge, issued_by, request_confirmation,
  issue_valid_approval, issue_approval, record_unseen, issue_valid_revoke, issue_revoke,
}
use codex_preflight.Mcp.TrustMutation.Kept.{
  Keeps, bind-Keeps, on_error-Keeps, lift-Keeps, record_audit-Keeps, new_uuid-Keeps,
}

module _ (parts : Parts) (reader : ArgumentReader) (d : IssueDraws parts reader)
    (R : Manager → Type 0)
    (issues : (operation : Text) (binding : Binding) (entry_id : Text) (m : Manager)
      → R m
      → R
          (issue parts.crypto d.now d.challenge_id d.nonce operation
            (parts.binding_mapping binding)
            d.display
            entry_id
            m).1) where
  issued_by-manager :
      (s : Service) (o : Confirmation.Outcome Challenge × Manager)
      → R o.1
      → R (issued_by parts reader s o).1.manager
  issued_by-manager s (Confirmation.ok c, m) h = h
  issued_by-manager s (Confirmation.err e, m) h = h

  issue_challenge-Keeps :
      (operation : Text) (binding : Binding) (entry_id : Text)
      → Keeps R (issue_challenge parts reader d operation binding entry_id)
  unfolding issue_challenge
  issue_challenge-Keeps operation binding entry_id s h =
      issued_by-manager s
        (issue parts.crypto d.now d.challenge_id d.nonce operation (parts.binding_mapping binding)
          d.display entry_id s.manager)
        (issues operation binding entry_id s.manager h)

  throw-Keeps : (A : Type 0) (e : MutationError) → Keeps R {A = A} (throw e)
  throw-Keeps A e s h = h

  request_confirmation-Keeps :
      (approving : Bool) (operation operation_id entry_id : Text) (target : AuditTarget)
      (binding : Binding)
      → Keeps R (
          request_confirmation parts reader d approving operation operation_id entry_id target
            binding)
  request_confirmation-Keeps approving operation operation_id entry_id target binding =
      bind-Keeps R _ _
        (on_error-Keeps R _ _ (issue_challenge-Keeps operation binding entry_id)
          (λ e. record_audit-Keeps R parts _ _))
        (λ c.
          bind-Keeps R _ _ (record_audit-Keeps R parts _ _)
            (λ r. throw-Keeps (Unit {0}) (confirmation c)))

  derived-Keeps :
      (f : List TrustEntry → Outcome MutationError Target) → Keeps R (derived parts reader f)
  derived-Keeps f s h = h

  derived_revoke-Keeps :
      (f : List TrustEntry → Outcome MutationError RevokeTarget)
      → Keeps R (derived_revoke parts reader f)
  derived_revoke-Keeps f s h = h

  issue_valid_approval-Keeps :
      (operation_id : Text) (q : ApprovalRequest)
      → Keeps R (issue_valid_approval parts reader d operation_id q)
  issue_valid_approval-Keeps operation_id q =
      bind-Keeps R _ _ (record_audit-Keeps R parts _ _) (λ r.
        bind-Keeps R _ _ (lift-Keeps R (deadline_of d.monotonic)) (λ deadline.
          bind-Keeps R _ _
            (on_error-Keeps R _ _
              (derived-Keeps (derive_approval_target parts deadline d.reading q true))
              (λ e. record_audit-Keeps R parts _ _))
            (λ t. bind-Keeps R _ _ (record_audit-Keeps R parts _ _) (λ u.
              bind-Keeps R _ _ (new_uuid-Keeps R parts d.entry_id) (λ entry_id.
                bind-Keeps R _ _ (new_uuid-Keeps R parts d.prepared_event_id)
                  (λ prepared. request_confirmation-Keeps true _ _ _ _ _))))))

  pub issue_approval-Keeps : (a : ApprovalArguments) → Keeps R (issue_approval parts reader d a)
  unfolding issue_approval
  issue_approval-Keeps a = bind-Keeps R _ _ (new_uuid-Keeps R parts d.operation_id) (λ operation_id.
      bind-Keeps R _ _
        (on_error-Keeps R _ _
          (bind-Keeps R _ _ (lift-Keeps R (required internal_error d.wall_time)) (λ now.
            lift-Keeps R
              (required invalid_argument (validate_approval_request parts.library reader a now))))
          (λ e. record_audit-Keeps R parts _ _))
        (issue_valid_approval-Keeps operation_id))

  record_unseen-Keeps :
      (operation_id entry_id : Text) (e : MutationError)
      → Keeps R (record_unseen parts reader operation_id entry_id e)
  record_unseen-Keeps operation_id entry_id (plain entry_not_found) = record_audit-Keeps R parts _ _
  record_unseen-Keeps operation_id entry_id e = record_audit-Keeps R parts _ _

  issue_valid_revoke-Keeps :
      (operation_id : Text) (q : RevokeRequest)
      → Keeps R (issue_valid_revoke parts reader d operation_id q)
  issue_valid_revoke-Keeps operation_id q = bind-Keeps R _ _ (record_audit-Keeps R parts _ _) (λ r.
      bind-Keeps R _ _ (lift-Keeps R (deadline_of d.monotonic)) (λ deadline.
        bind-Keeps R _ _
          (on_error-Keeps R _ _
            (derived_revoke-Keeps (derive_revoke_target parts deadline d.reading q))
            (record_unseen-Keeps operation_id q.entry_id))
          (λ t. request_confirmation-Keeps false _ _ _ _ _)))

  pub issue_revoke-Keeps : (a : RevokeArguments) → Keeps R (issue_revoke parts reader d a)
  unfolding issue_revoke
  issue_revoke-Keeps a = bind-Keeps R _ _ (new_uuid-Keeps R parts d.operation_id) (λ operation_id.
      bind-Keeps R _ _
        (on_error-Keeps R _ _
          (lift-Keeps R
            (required invalid_argument (validate_revoke_request parts.library reader a)))
          (λ e. record_audit-Keeps R parts _ _))
        (issue_valid_revoke-Keeps operation_id))
