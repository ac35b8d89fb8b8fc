-- ===== src/Mcp/TrustMutation/Unconfirmed.antt =====
-- codex_preflight_mcp/trust_mutation.py: a call without a token leaves the store as it is.
use codex_preflight.Base.{◌≡◌, inl, inr, refl, Bool, true, false, none, Text, List, Bool-cases}
use codex_preflight.Cache.TrustEntry.{TrustEntry}
use codex_preflight.Mcp.Action.{continue, Outcome, returned, thrown, throw, ◌>>=◌, ◌>>◌}
use codex_preflight.Mcp.MutationConfirmation.{Crypto, Manager, Challenge, issue}
use codex_preflight.Mcp.MutationConfirmation as Confirmation
use codex_preflight.Mcp.TrustMutation.Codes.{
  MutationError, plain, confirmation, internal_error, entry_not_found, invalid_argument,
  is_disabled, needs_recovery,
}
use codex_preflight.Mcp.TrustMutation.Service.{
  Parts, Service, Method, Binding, AuditTarget, ensure_active,
}
use codex_preflight.Mcp.TrustMutation.Request.{
  ArgumentReader, ApprovalArguments, RevokeArguments, ApprovalRequest, RevokeRequest,
  validate_approval_request, validate_revoke_request,
}
use codex_preflight.Mcp.TrustMutation.Target.{
  Target, RevokeTarget, deadline_of, derive_approval_target, derive_revoke_target,
}
use codex_preflight.Mcp.TrustMutation.Confirm.{
  IssueDraws, required, derived, derived_revoke, issue_challenge, issued_by, request_confirmation,
  issue_valid_approval, issue_approval, record_unseen, issue_valid_revoke, issue_revoke,
}
use codex_preflight.Mcp.TrustMutation.Consume.{ConfirmDraws}
use codex_preflight.Mcp.TrustMutation.Approve.{confirm_approval, approve_call}
use codex_preflight.Mcp.TrustMutation.Revoke.{confirm_revoke, revoke_call}
use codex_preflight.Mcp.TrustMutation.Quiet.{
  Ends, Anything, IsQuiet, bind-IsQuiet, bind-IsNever, IsNever, on_error-IsQuiet, lift-IsQuiet,
  record_audit-IsQuiet, new_uuid-IsQuiet,
}

module _ (parts : Parts) (reader : ArgumentReader) (d : IssueDraws parts reader) where
  issued_by-Ends :
      (st : List TrustEntry) (s : Service) (o : Confirmation.Outcome Challenge × Manager)
      → s.store ≡ st
      → Ends st Anything (issued_by parts reader s o)
  issued_by-Ends st s (Confirmation.ok c, m) h = (h, tt)
  issued_by-Ends st s (Confirmation.err e, m) h = h

  issue_challenge-IsQuiet :
      (operation : Text) (binding : Binding) (entry_id : Text)
      → IsQuiet (issue_challenge parts reader d operation binding entry_id)
  unfolding issue_challenge
  issue_challenge-IsQuiet operation binding entry_id st s h =
      issued_by-Ends st s
        (issue parts.crypto d.now d.challenge_id d.nonce operation (parts.binding_mapping binding)
          d.display entry_id s.manager)
        h

  throw-IsNever : (A : Type 0) (e : MutationError) → IsNever {A = A} (throw e)
  throw-IsNever A e st s h = h

  request_confirmation-IsNever :
      (approving : Bool) (operation operation_id entry_id : Text) (target : AuditTarget)
      (binding : Binding)
      → IsNever (
          request_confirmation parts reader d approving operation operation_id entry_id target
            binding)
  request_confirmation-IsNever approving operation operation_id entry_id target binding =
      bind-IsNever _ _
        (on_error-IsQuiet _ _ (issue_challenge-IsQuiet operation binding entry_id)
          (λ e. record_audit-IsQuiet parts _ _))
        (λ c.
          bind-IsNever _ _ (record_audit-IsQuiet parts _ _)
            (λ r. throw-IsNever (Unit {0}) (confirmation c)))

  derived-IsQuiet :
      (f : List TrustEntry → Outcome MutationError Target) → IsQuiet (derived parts reader f)
  derived-IsQuiet f st s h = lift-IsQuiet (f s.store) st s h

  derived_revoke-IsQuiet :
      (f : List TrustEntry → Outcome MutationError RevokeTarget)
      → IsQuiet (derived_revoke parts reader f)
  derived_revoke-IsQuiet f st s h = lift-IsQuiet (f s.store) st s h

  issue_valid_approval-IsNever :
      (operation_id : Text) (q : ApprovalRequest)
      → IsNever (issue_valid_approval parts reader d operation_id q)
  issue_valid_approval-IsNever operation_id q =
      bind-IsNever _ _ (record_audit-IsQuiet parts _ _) (λ r.
        bind-IsNever _ _ (lift-IsQuiet (deadline_of d.monotonic)) (λ deadline.
          bind-IsNever _ _
            (on_error-IsQuiet _ _
              (derived-IsQuiet (derive_approval_target parts deadline d.reading q true))
              (λ e. record_audit-IsQuiet parts _ _))
            (λ t. bind-IsNever _ _ (record_audit-IsQuiet parts _ _) (λ u.
              bind-IsNever _ _ (new_uuid-IsQuiet parts d.entry_id) (λ entry_id.
                bind-IsNever _ _ (new_uuid-IsQuiet parts d.prepared_event_id)
                  (λ prepared. request_confirmation-IsNever true _ _ _ _ _))))))

  pub issue_approval-IsNever : (a : ApprovalArguments) → IsNever (issue_approval parts reader d a)
  unfolding issue_approval
  issue_approval-IsNever a =
      bind-IsNever _ _ (new_uuid-IsQuiet parts d.operation_id) (λ operation_id.
        bind-IsNever _ _
          (on_error-IsQuiet _ _
            (bind-IsQuiet _ _ (lift-IsQuiet (required internal_error d.wall_time)) (λ now.
              lift-IsQuiet
                (required invalid_argument (validate_approval_request parts.library reader a now))))
            (λ e. record_audit-IsQuiet parts _ _))
          (issue_valid_approval-IsNever operation_id))

  record_unseen-IsQuiet :
      (operation_id entry_id : Text) (e : MutationError)
      → IsQuiet (record_unseen parts reader operation_id entry_id e)
  record_unseen-IsQuiet operation_id entry_id (plain entry_not_found) =
      record_audit-IsQuiet parts _ _
  record_unseen-IsQuiet operation_id entry_id e = record_audit-IsQuiet parts _ _

  issue_valid_revoke-IsNever :
      (operation_id : Text) (q : RevokeRequest)
      → IsNever (issue_valid_revoke parts reader d operation_id q)
  issue_valid_revoke-IsNever operation_id q =
      bind-IsNever _ _ (record_audit-IsQuiet parts _ _) (λ r.
        bind-IsNever _ _ (lift-IsQuiet (deadline_of d.monotonic)) (λ deadline.
          bind-IsNever _ _
            (on_error-IsQuiet _ _
              (derived_revoke-IsQuiet (derive_revoke_target parts deadline d.reading q))
              (record_unseen-IsQuiet operation_id q.entry_id))
            (λ t. request_confirmation-IsNever false _ _ _ _ _)))

  pub issue_revoke-IsNever : (a : RevokeArguments) → IsNever (issue_revoke parts reader d a)
  unfolding issue_revoke
  issue_revoke-IsNever a = bind-IsNever _ _ (new_uuid-IsQuiet parts d.operation_id) (λ operation_id.
      bind-IsNever _ _
        (on_error-IsQuiet _ _
          (lift-IsQuiet
            (required invalid_argument (validate_revoke_request parts.library reader a)))
          (λ e. record_audit-IsQuiet parts _ _))
        (issue_valid_revoke-IsNever operation_id))

-- The ending is the error that the action raises, which leaves the store.
abbrev pub IsRaisedBy :
    {U A : Type 0} → Method U → Service → Outcome MutationError A × Service → Type 0
IsRaisedBy m s o =
    (e : MutationError) × (t : Service) × (m s ≡ (thrown e, t))
    × (o ≡ (thrown e, t))
    × (t.store ≡ s.store)

-- What follows the check of the service starts from the service that was checked.
pub ensure_active-starts {ℓ} :
    {A : Type 0} (P : Outcome MutationError A × Service → Type ℓ) (n : Method A) (s : Service)
    → ((e : MutationError) → P (thrown e, s))
    → (s.enabled ≡ true → s.healthy ≡ true → P (n s))
    → P ((ensure_active >> n) s)
unfolding ensure_active ◌>>=◌
ensure_active-starts P n s k h = elim (Bool-cases s.enabled) [
  | inl e ↦ elim (Bool-cases s.healthy) [
    | inl f ↦ simp (e, f) (h e f)
    | inr f ↦ simp (e, f) (k (plain needs_recovery))
  ]
  | inr e ↦ simp (e) (k (plain is_disabled))
]

-- What follows an action that does not return is not run.
never-IsRaisedBy :
    {U A : Type 0} (m : Method U) (f : U → Method A) (s : Service)
    → Ends s.store (λ u. ⊥) (m s)
    → IsRaisedBy m s ((m >>= f) s)
unfolding ◌>>=◌
never-IsRaisedBy {U = U} m f s h = ending (m s) refl h
  where
    ending :
        (o : Outcome MutationError U × Service)
        → m s ≡ o
        → Ends s.store (λ u. ⊥) o
        → IsRaisedBy m s (continue f o)
    ending (returned u, t) k n = absurd n.1
    ending (thrown e, t) k n = (e, t, k, refl, n)

-- The check of the service, an action that does not return, and what follows it.
pub checked-IsRaisedBy :
    {U A : Type 0} (m : Method U) (f : U → Method A) (s : Service)
    → IsNever m
    → IsRaisedBy (ensure_active >> m) s ((ensure_active >> (m >>= f)) s)
unfolding ◌>>=◌
checked-IsRaisedBy {U = U} m f s h =
    let raised =
      never-IsRaisedBy (ensure_active >> m) f s
        (ensure_active-starts (Ends s.store (λ u. ⊥)) m s (λ e. refl) (λ e k. h s.store s refl)) in
    rw (same (ensure_active s)) raised
  where
    same :
        (o : Outcome MutationError (Unit {0}) × Service)
        → continue (λ u. m >>= f) o ≡ continue f (continue (λ u. m) o)
    same (returned u, t) = refl
    same (thrown e, t) = refl

module _ (parts : Parts) (reader : ArgumentReader) (i : IssueDraws parts reader)
    (d : ConfirmDraws) where
  -- A call of trust_approve or trust_revoke without a token ends in the very error, and in the very state,
  -- that the check of the service and the issue of the challenge raise, which never return, so nothing is
  -- confirmed behind them; the trust store is as it was.
  pub approve_call-revoke_call :
      (a : ApprovalArguments) (r : RevokeArguments) (s : Service)
      → IsRaisedBy
          (ensure_active >> issue_approval parts reader i a)
          s
          (approve_call parts reader i d a none s)
        × IsRaisedBy
            (ensure_active >> issue_revoke parts reader i r)
            s
            (revoke_call parts reader i d r none s)
  unfolding approve_call revoke_call
  approve_call-revoke_call a r s = (
    checked-IsRaisedBy (issue_approval parts reader i a)
        (λ u. confirm_approval parts reader d a none) s (issue_approval-IsNever parts reader i a),
    checked-IsRaisedBy (issue_revoke parts reader i r) (λ u. confirm_revoke parts reader d r none) s
        (issue_revoke-IsNever parts reader i r),
  )
