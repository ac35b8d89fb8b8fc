-- ===== src/Mcp/TrustMutation/Authorized.antt =====
-- codex_preflight_mcp/trust_mutation.py: a call of approve changes the store as its consumed challenge says.
use codex_preflight.Base.{
  ℕ, ◌≡◌, ◌⊎◌, inl, inr, refl, true, ◌&&◌, Option, none, some, Text, codes, Bool-cases, arith,
  string_eq, nat_eq, list_eq, option_eq,
}
use codex_preflight.Mcp.Action.{Outcome, returned}
use codex_preflight.Mcp.TrustMutation.Codes.{MutationError, invalid_argument}
use codex_preflight.Mcp.TrustMutation.Service.{Parts, Service, Binding}
use codex_preflight.Mcp.TrustMutation.Request.{
  ArgumentReader, ApprovalArguments, ApprovalRequest, validate_approval_request,
}
use codex_preflight.Mcp.TrustMutation.Target.{Target, deadline_of, derive_approval_target}
use codex_preflight.Mcp.TrustMutation.Bound.{approval_binding, same_binding_values}
use codex_preflight.Mcp.TrustMutation.Confirm.{issue_approval, IssueDraws}
use codex_preflight.Mcp.TrustMutation.Consume.{ConfirmDraws, Confirmed}
use codex_preflight.Mcp.TrustMutation.Approve.{
  ApprovalReply, Agreed, agree_with, agree, confirm_valid, confirm_consumed, confirm_approval,
  approve_call,
}
use codex_preflight.Mcp.TrustMutation.Quiet.{
  Ends, EndsOr, Anything, bind-Ends, bind-EndsOr, on_error-Ends, lift-Ends, record_audit-IsQuiet,
}
use codex_preflight.Mcp.TrustMutation.Consumed.{IsConfirmed, consume-Ends, required-returned}
use codex_preflight.Mcp.TrustMutation.Approved.{IsApproval, approve_agreed-EndsOr}
use codex_preflight.Mcp.TrustMutation.Bindings.{same_binding_values-equal}
use codex_preflight.Mcp.TrustMutation.Unconfirmed.{
  ensure_active-starts, issue_approval-IsNever, checked-IsRaisedBy,
}

module _ (parts : Parts) (reader : ArgumentReader) (d : ConfirmDraws) (a : ApprovalArguments)
    (token : Text) where
  -- What the validation of the arguments gives.
  abbrev Validates : Confirmed → ApprovalRequest → Type 0
  Validates c q = validate_approval_request parts.library reader a c.consumed.issued_at ≡ some q

  -- What the comparison with the binding gives.
  abbrev Agrees : Service → Confirmed → ApprovalRequest → ℕ → Agreed → Type 0
  Agrees s c q deadline g =
      (derive_approval_target parts deadline d.reading q true s.store ≡ returned g.target)
      × (c.binding
          ≡ approval_binding parts q g.target c.binding.operation_id c.binding.entry_id
              g.prepared_event_id)

  agree_with-returned :
      (b : Binding) (q : ApprovalRequest) (u : Target) (prepared : Option Text) (g : Agreed)
      → agree_with parts reader b q u prepared ≡ returned g
      → (u ≡ g.target)
        × (b ≡ approval_binding parts q g.target b.operation_id b.entry_id g.prepared_event_id)
  agree_with-returned b q u none g h = absurd (ground (arith, h))
  agree_with-returned b q u (some prepared) g h =
      elim (Bool-cases (parts.library.is_uuid4 b.entry_id && parts.library.is_uuid4 prepared)) [
        | inl v ↦
            elim (Bool-cases (
              same_binding_values b
                (approval_binding parts q u b.operation_id b.entry_id prepared))) [
                  | inl w ↦ returned-agreed b q u prepared g w (ground (arith, h, v, w))
                  | inr w ↦ absurd (ground (arith, h, v, w))
                ]
        | inr v ↦ absurd (ground (arith, h, v))
      ]
    where
      returned-agreed :
          (b : Binding) (q : ApprovalRequest) (u : Target) (prepared : Text) (g : Agreed)
          → same_binding_values b (approval_binding parts q u b.operation_id b.entry_id prepared)
            ≡ true
          → record { target = u; prepared_event_id = prepared } ≡ g
          → (u ≡ g.target)
            × (b ≡ approval_binding parts q g.target b.operation_id b.entry_id g.prepared_event_id)
      returned-agreed b q u prepared g w e = rw⁻¹ (e) (refl, same_binding_values-equal _ _ w)

  agree-Ends :
      (s t : Service) (c : Confirmed) (q : ApprovalRequest) (deadline : ℕ)
      → t.store ≡ s.store
      → Ends s.store (Agrees s c q deadline) (agree parts reader d c q deadline t)
  unfolding agree
  agree-Ends s t c q deadline h =
      let derive = derive_approval_target parts deadline d.reading q true in
      bind-Ends s.store (λ u. derive s.store ≡ returned u) (Agrees s c q deadline) _ _ t
        (lift-Ends s.store _ (derive t.store) t h (λ u e. rw⁻¹ (h) e))
        (λ u v k e.
          lift-Ends s.store _ (agree_with parts reader c.binding q u c.binding.prepared_event_id) v
            k
            (λ g r.
              let agrees = agree_with-returned c.binding q u c.binding.prepared_event_id g r in
              (rw⁻¹ (agrees.0) e, agrees.1)))

  confirm_valid-EndsOr :
      (s t : Service) (c : Confirmed) (q : ApprovalRequest)
      → t.store ≡ s.store
      → IsConfirmed parts d.now (codes "approve") token s.manager c
      → validate_approval_request parts.library reader a c.consumed.issued_at ≡ some q
      → EndsOr s.store (IsApproval parts reader d a token s) (confirm_valid parts reader d c q t)
  confirm_valid-EndsOr s t c q h confirms validates =
      bind-EndsOr s.store Anything (IsApproval parts reader d a token s) _ _ t
        (lift-Ends s.store Anything (deadline_of d.monotonic) t h (λ u e. tt))
        (λ deadline u k x.
          bind-EndsOr s.store (Agrees s c q deadline) (IsApproval parts reader d a token s) _ _ u
            (on_error-Ends s.store (Agrees s c q deadline) _ _ u (agree-Ends s u c q deadline k)
              (λ e. record_audit-IsQuiet parts _ _))
            (λ g v w agrees.
              approve_agreed-EndsOr parts reader d a token s v c q deadline g w (record {
                deadline = deadline;
                confirms = confirms;
                validates = validates;
                derives = agrees.0;
                binds = agrees.1;
              })))

  confirm_consumed-EndsOr :
      (s t : Service) (c : Confirmed)
      → t.store ≡ s.store
      → IsConfirmed parts d.now (codes "approve") token s.manager c
      → EndsOr s.store (IsApproval parts reader d a token s) (confirm_consumed parts reader d a c t)
  confirm_consumed-EndsOr s t c h confirms =
      bind-EndsOr s.store (Validates c) (IsApproval parts reader d a token s) _ _ t
        (on_error-Ends s.store (Validates c) _ _ t
          (lift-Ends s.store (Validates c) _ t h (λ q e. required-returned invalid_argument _ q e))
          (λ e. record_audit-IsQuiet parts _ _))
        (λ q u k validates. confirm_valid-EndsOr s u c q k confirms validates)

  confirm_approval-EndsOr :
      (s : Service)
      → EndsOr s.store
          (IsApproval parts reader d a token s)
          (confirm_approval parts reader d a (some token) s)
  unfolding confirm_approval
  confirm_approval-EndsOr s =
      bind-EndsOr s.store (IsConfirmed parts d.now (codes "approve") token s.manager)
        (IsApproval parts reader d a token s) _ _ s
        (consume-Ends parts d.now (codes "approve") token s)
        (λ c t h confirms. confirm_consumed-EndsOr s t c h confirms)

-- A confirmed approval, by the token of the call.
abbrev pub IsConfirmedApproval :
    (parts : Parts)
    → ArgumentReader
    → ConfirmDraws
    → ApprovalArguments
    → Option Text
    → Service
    → Outcome MutationError ApprovalReply × Service
    → Type 0
IsConfirmedApproval parts reader d a token s o =
    (t : Text) × (token ≡ some t)
    × (s.enabled ≡ true)
    × (s.healthy ≡ true)
    × IsApproval parts reader d a t s o

-- A call of trust_approve leaves the trust store as it was, or all of the following hold: it has a token
-- and the service was enabled and healthy; this call consumed the token's challenge, whose binding is for
-- approve and is that of the request and the target that the call derived from its arguments and the store;
-- the store is the old one with the entry of that approval at its end; prepare_mutation had accepted that
-- change, at some state of the log; and the call returned the entry's id as applied, or left the service
-- unhealthy and raised that the audit is pending or that the write failed, which it can behind the
-- replacement of the file.
pub approve_call-IsConfirmedApproval :
    (parts : Parts) (reader : ArgumentReader) (i : IssueDraws parts reader) (d : ConfirmDraws)
    (a : ApprovalArguments) (token : Option Text) (s : Service)
    → let o = approve_call parts reader i d a token s in
      (o.1.store ≡ s.store) ⊎ IsConfirmedApproval parts reader d a token s o
unfolding approve_call
approve_call-IsConfirmedApproval parts reader i d a none s =
    let (e, t, raises, ends, h) =
      checked-IsRaisedBy (issue_approval parts reader i a)
        (λ u. confirm_approval parts reader d a none) s (issue_approval-IsNever parts reader i a) in
    inl (rw (ends) h)
approve_call-IsConfirmedApproval parts reader i d a (some token) s =
    ensure_active-starts
      (λ o. (o.1.store ≡ s.store) ⊎ IsConfirmedApproval parts reader d a (some token) s o)
      (confirm_approval parts reader d a (some token)) s (λ e. inl refl)
      (λ e h. elim (confirm_approval-EndsOr parts reader d a token s) [
        | inl k ↦ inl k
        | inr k ↦ inr (token, refl, e, h, k)
      ])
