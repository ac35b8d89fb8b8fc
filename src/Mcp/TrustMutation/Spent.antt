-- ===== src/Mcp/TrustMutation/Spent.antt =====
-- codex_preflight_mcp/trust_mutation.py: a call with a token consumes its challenge, and the rest of the call
-- keeps what holds of the manager then.
use codex_preflight.Base.{ℕ, true, false, Option, none, some, Text, codes, List}
use codex_preflight.Cache.TrustEntry.{TrustEntry}
use codex_preflight.Cache.TrustCache.{
  MutationResult, MutationOutcome, approved, already_approved, revoked, not_found, version_conflict,
}
use codex_preflight.Mcp.Action.{Outcome}
use codex_preflight.Mcp.MutationConfirmation.{Manager, authenticate_and_consume, invalidate_all}
use codex_preflight.Mcp.TrustMutation.Codes.{
  MutationError, plain, invalid_argument, entry_not_found,
}
use codex_preflight.Mcp.TrustMutation.Service.{Parts, Service}
use codex_preflight.Mcp.TrustMutation.Request.{
  ArgumentReader, ApprovalArguments, RevokeArguments, ApprovalRequest, validate_approval_request,
  validate_revoke_request,
}
use codex_preflight.Mcp.TrustMutation.Target.{
  deadline_of, derive_approval_target, derive_revoke_target, Target, RevokeTarget,
}
use codex_preflight.Mcp.TrustMutation.Confirm.{required, derived, derived_revoke}
use codex_preflight.Mcp.TrustMutation.Consume.{ConfirmDraws, Confirmed, consume, terminal}
use codex_preflight.Mcp.TrustMutation.Approve.{
  Agreed, agree, agree_with, approval_result, approve_agreed, approve_operation, applied_reply,
  reply_of, confirm_consumed, confirm_approval,
}
use codex_preflight.Mcp.TrustMutation.Revoke.{
  RevokeReply, RevokeAgreed, agree_revoke, bound_entry, record_underived, revoke_agreed,
  revoke_operation, revoke_outcome, revoke_result, confirm_consumed_revoke, confirm_revoke,
}
use codex_preflight.Mcp.TrustMutation.Kept.{
  Keeps, bind-Keeps, bind-manager, on_error-Keeps, fail_after-Keeps, lift-Keeps, record_audit-Keeps,
  consume-manager, run_mutation-Keeps,
}

module _ (parts : Parts) (reader : ArgumentReader) (R : Manager → Type 0)
    (invalidated : (m : Manager) → R (invalidate_all m)) where
  derived-Keeps :
      (f : List TrustEntry → Outcome MutationError Target) → Keeps R (derived parts reader f)
  derived-Keeps f s h = h

  derived_revoke-Keeps :
      (f : List TrustEntry → Outcome MutationError RevokeTarget)
      → Keeps R (derived_revoke parts reader f)
  derived_revoke-Keeps f s h = h

  applied_reply-Keeps :
      (c : Confirmed) (r : MutationResult) (e : TrustEntry) (event : Option Text)
      → Keeps R (applied_reply parts reader c r e event)
  applied_reply-Keeps c r e none s h = h
  applied_reply-Keeps c r e (some event) s h = h

  reply_of-Keeps :
      (c : Confirmed) (r : MutationResult) (outcome : MutationOutcome) (found : Option TrustEntry)
      → Keeps R (reply_of parts reader c r outcome found)
  reply_of-Keeps c r outcome none = λ s h. h
  reply_of-Keeps c r already_approved (some e) =
      bind-Keeps R _ _ (record_audit-Keeps R parts _ _) (λ id s h. h)
  reply_of-Keeps c r approved (some e) = applied_reply-Keeps c r e r.final_event_id
  reply_of-Keeps c r revoked (some e) = applied_reply-Keeps c r e r.final_event_id
  reply_of-Keeps c r not_found (some e) = applied_reply-Keeps c r e r.final_event_id
  reply_of-Keeps c r version_conflict (some e) = applied_reply-Keeps c r e r.final_event_id

  approval_result-Keeps :
      (c : Confirmed) (r : MutationResult) → Keeps R (approval_result parts reader c r)
  unfolding approval_result
  approval_result-Keeps c r = reply_of-Keeps c r r.outcome r.entry

  approve_agreed-Keeps :
      (d : ConfirmDraws) (c : Confirmed) (q : ApprovalRequest) (deadline : ℕ) (g : Agreed)
      → Keeps R (approve_agreed parts reader d c q deadline g)
  unfolding approve_agreed
  approve_agreed-Keeps d c q deadline g =
      bind-Keeps R _ _
        (run_mutation-Keeps R parts invalidated (terminal parts true c) d.lock
          (approve_operation parts reader d c q deadline g) (λ e. record_audit-Keeps R parts _ _))
        (approval_result-Keeps c)

  agree-Keeps :
      (d : ConfirmDraws) (c : Confirmed) (q : ApprovalRequest) (deadline : ℕ)
      → Keeps R (agree parts reader d c q deadline)
  unfolding agree
  agree-Keeps d c q deadline =
      bind-Keeps R _ _ (derived-Keeps (derive_approval_target parts deadline d.reading q true))
        (λ u. lift-Keeps R (agree_with parts reader c.binding q u c.binding.prepared_event_id))

  confirm_consumed-Keeps :
      (d : ConfirmDraws) (a : ApprovalArguments) (c : Confirmed)
      → Keeps R (confirm_consumed parts reader d a c)
  confirm_consumed-Keeps d a c =
      bind-Keeps R _ _
        (on_error-Keeps R _ _
          (lift-Keeps R (
            required invalid_argument
              (validate_approval_request parts.library reader a c.consumed.issued_at)))
          (λ e. record_audit-Keeps R parts _ _))
        (λ q. bind-Keeps R _ _ (lift-Keeps R (deadline_of d.monotonic)) (λ deadline.
          bind-Keeps R _ _
            (on_error-Keeps R _ _ (agree-Keeps d c q deadline)
              (λ e. record_audit-Keeps R parts _ _))
            (approve_agreed-Keeps d c q deadline)))

  -- What holds of the manager after the consumption holds of it after the call.
  pub confirm_approval-manager :
      (d : ConfirmDraws) (a : ApprovalArguments) (token : Text) (s : Service)
      → R (authenticate_and_consume parts.crypto d.now token s.manager).1
      → R (confirm_approval parts reader d a (some token) s).1.manager
  unfolding confirm_approval
  confirm_approval-manager d a token s h =
      bind-manager R (consume parts d.now (codes "approve") token)
        (confirm_consumed parts reader d a) s
        (consume-manager R parts d.now (codes "approve") token s h) (confirm_consumed-Keeps d a)

  revoke_outcome-Keeps :
      (c : Confirmed) (g : RevokeAgreed) (id : Text) (r : MutationResult)
      (outcome : MutationOutcome)
      → Keeps R (revoke_outcome parts reader c g id r outcome)
  revoke_outcome-Keeps c g id r not_found =
      fail_after-Keeps R RevokeReply _ _ (record_audit-Keeps R parts _ _)
  revoke_outcome-Keeps c g id r version_conflict =
      fail_after-Keeps R RevokeReply _ _ (record_audit-Keeps R parts _ _)
  revoke_outcome-Keeps c g id r revoked = λ s h. h
  revoke_outcome-Keeps c g id r approved = λ s h. h
  revoke_outcome-Keeps c g id r already_approved = λ s h. h

  revoke_result-Keeps :
      (c : Confirmed) (g : RevokeAgreed) (id : Text) (r : MutationResult)
      → Keeps R (revoke_result parts reader c g id r)
  unfolding revoke_result
  revoke_result-Keeps c g id r = revoke_outcome-Keeps c g id r r.outcome

  revoke_agreed-Keeps :
      (d : ConfirmDraws) (c : Confirmed) (g : RevokeAgreed)
      → Keeps R (revoke_agreed parts reader d c g)
  unfolding revoke_agreed
  revoke_agreed-Keeps d c g = bind-Keeps R _ _ (lift-Keeps R (bound_entry parts reader c)) (λ id.
      bind-Keeps R _ _
        (run_mutation-Keeps R parts invalidated (terminal parts false c) d.lock
          (revoke_operation parts reader d c g id) (λ e. record_audit-Keeps R parts _ _))
        (revoke_result-Keeps c g id))

  record_underived-Keeps :
      (c : Confirmed) (id : Text) (e : MutationError)
      → Keeps R (record_underived parts reader c id e)
  record_underived-Keeps c id (plain entry_not_found) = record_audit-Keeps R parts _ _
  record_underived-Keeps c id e = record_audit-Keeps R parts _ _

  confirm_consumed_revoke-Keeps :
      (d : ConfirmDraws) (a : RevokeArguments) (c : Confirmed)
      → Keeps R (confirm_consumed_revoke parts reader d a c)
  confirm_consumed_revoke-Keeps d a c =
      bind-Keeps R _ _
        (on_error-Keeps R _ _
          (lift-Keeps R
            (required invalid_argument (validate_revoke_request parts.library reader a)))
          (λ e. record_audit-Keeps R parts _ _))
        (λ q. bind-Keeps R _ _ (lift-Keeps R (deadline_of d.monotonic)) (λ deadline.
          bind-Keeps R _ _
            (on_error-Keeps R _ _
              (derived_revoke-Keeps (derive_revoke_target parts deadline d.reading q))
              (record_underived-Keeps c q.entry_id))
            (λ u.
              bind-Keeps R _ _
                (on_error-Keeps R _ _ (lift-Keeps R (agree_revoke parts reader c.binding q u))
                  (λ e. record_audit-Keeps R parts _ _))
                (revoke_agreed-Keeps d c))))

  -- What holds of the manager after the consumption holds of it after the call.
  pub confirm_revoke-manager :
      (d : ConfirmDraws) (a : RevokeArguments) (token : Text) (s : Service)
      → R (authenticate_and_consume parts.crypto d.now token s.manager).1
      → R (confirm_revoke parts reader d a (some token) s).1.manager
  unfolding confirm_revoke
  confirm_revoke-manager d a token s h =
      bind-manager R (consume parts d.now (codes "revoke") token)
        (confirm_consumed_revoke parts reader d a) s
        (consume-manager R parts d.now (codes "revoke") token s h)
        (confirm_consumed_revoke-Keeps d a)
