-- ===== src/Mcp/TrustMutation/Uses.antt =====
-- codex_preflight_mcp/trust_mutation.py: a token changes the store once over any sequence of calls, and an
-- entry enters the store by an approval alone.
use codex_preflight.Base.{◌≡◌, ◌≢◌, ◌⊎◌, Option, none, some, String, Text, List, [], ◌∷◌, All}
use codex_preflight.Cache.TrustEntry.{TrustEntry}
use codex_preflight.Mcp.Action.{◌>>=◌}
use codex_preflight.Mcp.MutationConfirmation.{Manager, Payload, issue, invalidate_all, verify}
use codex_preflight.Mcp.MutationConfirmation.Once.{IsSpent, issue-IsSpent, call-IsSpent}
use codex_preflight.Mcp.MutationConfirmation.Steps as Steps
use codex_preflight.Mcp.TrustMutation.Service.{Parts, Service, Binding}
use codex_preflight.Mcp.TrustMutation.Request.{
  ArgumentReader, ApprovalArguments, RevokeArguments, ApprovalRequest,
}
use codex_preflight.Mcp.TrustMutation.Confirm.{IssueDraws}
use codex_preflight.Mcp.TrustMutation.Consume.{ConfirmDraws, Confirmed}
use codex_preflight.Mcp.TrustMutation.Approve.{
  confirm_approval, approve_call, approve_with, approval_entry, Agreed,
}
use codex_preflight.Mcp.TrustMutation.Revoke.{confirm_revoke, revoke_call, revoke_with}
use codex_preflight.Mcp.TrustMutation.Kept.{Keeps, bind-Keeps, ensure_active-Keeps}
use codex_preflight.Mcp.TrustMutation.Issued.{issue_approval-Keeps, issue_revoke-Keeps}
use codex_preflight.Mcp.TrustMutation.Spent.{confirm_approval-manager, confirm_revoke-manager}
use codex_preflight.Mcp.TrustMutation.Approved.{IsAuthorized}
use codex_preflight.Mcp.TrustMutation.History.{
  call-IsUsed, used-store, recover_startup-parts, record_registration_state-Keeps,
}
use codex_preflight.Mcp.TrustMutation.Calls.{
  Call, approving, revoking, registering, recovering, call, serve, token_of, DrawsNot,
}

module _ (parts : Parts) (reader : ArgumentReader) where
  issue-keeps :
      (i : IssueDraws parts reader) (id : String) (operation : Text) (binding : Binding)
      (entry_id : Text) (m : Manager)
      → i.challenge_id ≢ id
      → IsSpent id m
      → IsSpent id
          (issue parts.crypto i.now i.challenge_id i.nonce operation
            (parts.binding_mapping binding)
            i.display
            entry_id
            m).1
  issue-keeps i id operation binding entry_id m n h =
      issue-IsSpent parts.crypto id i.now i.challenge_id i.nonce operation
        (parts.binding_mapping binding) i.display entry_id m n h

  confirm_approval-missing :
      (id : String) (d : ConfirmDraws) (a : ApprovalArguments)
      → Keeps (IsSpent id) (confirm_approval parts reader d a none)
  unfolding confirm_approval ◌>>=◌
  confirm_approval-missing id d a s h = h

  confirm_revoke-missing :
      (id : String) (d : ConfirmDraws) (a : RevokeArguments)
      → Keeps (IsSpent id) (confirm_revoke parts reader d a none)
  unfolding confirm_revoke ◌>>=◌
  confirm_revoke-missing id d a s h = h

  invalidated-IsSpent : (id : String) (m : Manager) → IsSpent id (invalidate_all m)
  unfolding invalidate_all
  invalidated-IsSpent id m = tt

  approve_with-Keeps :
      (id : String) (i : IssueDraws parts reader) (d : ConfirmDraws) (a : ApprovalArguments)
      (token : Option Text)
      → i.challenge_id ≢ id
      → Keeps (IsSpent id) (approve_with parts reader i d a token)
  approve_with-Keeps id i d a none n =
      bind-Keeps (IsSpent id) _ _
        (issue_approval-Keeps parts reader i (IsSpent id)
          (λ o b e m h. issue-keeps i id o b e m n h) a)
        (λ u. confirm_approval-missing id d a)
  approve_with-Keeps id i d a (some t) n = λ s h.
      confirm_approval-manager parts reader (IsSpent id) (invalidated-IsSpent id) d a t s
        (call-IsSpent parts.crypto id (Steps.consuming d.now t) s.manager tt h)

  revoke_with-Keeps :
      (id : String) (i : IssueDraws parts reader) (d : ConfirmDraws) (a : RevokeArguments)
      (token : Option Text)
      → i.challenge_id ≢ id
      → Keeps (IsSpent id) (revoke_with parts reader i d a token)
  revoke_with-Keeps id i d a none n =
      bind-Keeps (IsSpent id) _ _
        (issue_revoke-Keeps parts reader i (IsSpent id) (λ o b e m h. issue-keeps i id o b e m n h)
          a)
        (λ u. confirm_revoke-missing id d a)
  revoke_with-Keeps id i d a (some t) n = λ s h.
      confirm_revoke-manager parts reader (IsSpent id) (invalidated-IsSpent id) d a t s
        (call-IsSpent parts.crypto id (Steps.consuming d.now t) s.manager tt h)

  call-keeps :
      (id : String) (c : Call parts reader) (s : Service)
      → DrawsNot parts reader id c
      → IsSpent id s.manager
      → IsSpent id (call parts reader c s).manager
  unfolding approve_call revoke_call
  call-keeps id (approving i d a token) s n h =
      bind-Keeps (IsSpent id) _ _ (ensure_active-Keeps (IsSpent id))
        (λ u. approve_with-Keeps id i d a token n) s h
  call-keeps id (revoking i d a token) s n h =
      bind-Keeps (IsSpent id) _ _ (ensure_active-Keeps (IsSpent id))
        (λ u. revoke_with-Keeps id i d a token n) s h
  call-keeps id (registering r) s n h =
      record_registration_state-Keeps parts reader (IsSpent id) r s h
  call-keeps id recovering s n h = rw ((recover_startup-parts parts reader s).1) h

  serve-keeps :
      (id : String) (cs : List (Call parts reader)) (s : Service)
      → All (DrawsNot parts reader id) cs
      → IsSpent id s.manager
      → IsSpent id (serve parts reader cs s).manager
  serve-keeps id [] s n h = h
  serve-keeps id (c ∷ cs) s n h =
      serve-keeps id cs (call parts reader c s) n.1 (call-keeps id c s n.0 h)

  -- Where a call with a token changes the trust store, no later call with the same token changes it again,
  -- after any sequence of calls in between none of which draws the id of the token's challenge for a
  -- challenge of its own.
  pub call-serve :
      (c later : Call parts reader) (cs : List (Call parts reader)) (token : Text) (s : Service)
      → token_of parts reader c ≡ some token
      → token_of parts reader later ≡ some token
      → (call parts reader c s).store ≢ s.store
      → ((p : Payload)
          → verify parts.crypto token ≡ some p
          → All (DrawsNot parts reader p.challenge_id) cs)
      → let u = serve parts reader cs (call parts reader c s) in
        (call parts reader later u).store ≡ u.store
  call-serve c later cs token s h k n draws =
      let (p, v, spent) = call-IsUsed parts reader c token s h n in
      used-store parts reader later token (serve parts reader cs (call parts reader c s)) k
        (p, v, serve-keeps p.challenge_id cs (call parts reader c s) (draws p v) spent)

  -- The call is a confirmed approval of the entry.
  abbrev pub IsApprovedBy : Call parts reader → Service → TrustEntry → Type 0
  IsApprovedBy (approving i d a (some token)) s e =
      (c : Confirmed) × (q : ApprovalRequest) × (g : Agreed) × IsAuthorized parts reader d a token s
        c q g
      × (e ≡ approval_entry parts reader c q g)
  IsApprovedBy _ s e = ⊥

  -- One of the calls is a confirmed approval of the entry, at the service that it starts from.
  abbrev pub WasApproved : List (Call parts reader) → Service → TrustEntry → Type 0
  WasApproved [] s e = ⊥
  WasApproved (c ∷ cs) s e = IsApprovedBy c s e ⊎ WasApproved cs (call parts reader c s) e
