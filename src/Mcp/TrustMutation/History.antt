-- ===== src/Mcp/TrustMutation/History.antt =====
-- codex_preflight_mcp/trust_mutation.py: what a token can do over any sequence of calls.
use codex_preflight.Base.{
  ◌≡◌, ◌≢◌, inl, inr, refl, ◌∙◌, true, none, some, Text, arith, ℕ, Bool-cases,
}
use codex_preflight.Mcp.Action.{◌>>=◌, ◌>>◌}
use codex_preflight.Mcp.Audit.Chain.{Checked, ok, err}
use codex_preflight.Mcp.Audit.Protocol.{Journal, RecoveryResult, verify_and_recover}
use codex_preflight.Mcp.MutationConfirmation.{
  Crypto, Manager, Payload, ConsumedChallenge, issue, authenticate_and_consume, invalidate_all,
  verify,
}
use codex_preflight.Mcp.MutationConfirmation as Confirmation
use codex_preflight.Mcp.MutationConfirmation.Once.{
  IsSpent, consume-IsSpent, authenticate_and_consume-IsRefused, authenticate_and_consume-verify,
}
use codex_preflight.Mcp.TrustMutation.Service.{
  Parts, Service, Method, ensure_active, recover_startup, recovered_by, record_registration_state,
}
use codex_preflight.Mcp.TrustMutation.Request.{ArgumentReader, ApprovalArguments, RevokeArguments}
use codex_preflight.Mcp.TrustMutation.Confirm.{IssueDraws}
use codex_preflight.Mcp.TrustMutation.Consume.{ConfirmDraws}
use codex_preflight.Mcp.TrustMutation.Approve.{approve_call, confirm_approval}
use codex_preflight.Mcp.TrustMutation.Revoke.{revoke_call, confirm_revoke}
use codex_preflight.Mcp.TrustMutation.Kept.{
  Keeps, bind-Keeps, ensure_active-Keeps, record_audit-Keeps, new_uuid-Keeps,
}
use codex_preflight.Mcp.TrustMutation.Quiet.{
  IsQuiet, bind-IsQuiet, record_audit-IsQuiet, new_uuid-IsQuiet,
}
use codex_preflight.Mcp.TrustMutation.Spent.{confirm_approval-manager, confirm_revoke-manager}
use codex_preflight.Mcp.TrustMutation.Authorized.{
  approve_call-IsConfirmedApproval, IsConfirmedApproval,
}
use codex_preflight.Mcp.TrustMutation.AuthorizedRevoke.{
  revoke_call-IsConfirmedRevocation, IsConfirmedRevocation,
}
use codex_preflight.Mcp.TrustMutation.Calls.{
  Call, approving, revoking, registering, recovering, call, token_of,
}

-- For a service that is enabled and healthy, what follows the check is all.
active_starts :
    {A : Type 0} (n : Method A) (s : Service)
    → s.enabled ≡ true
    → s.healthy ≡ true
    → (ensure_active >> n) s ≡ n s
unfolding ensure_active ◌>>=◌
active_starts n s e h = simp (e, h) refl

ensure_active-IsQuiet : IsQuiet ensure_active
unfolding ensure_active
ensure_active-IsQuiet st s h = elim (Bool-cases s.enabled) [
  | inl e ↦ elim (Bool-cases s.healthy) [ inl k ↦ simp (e, k) (h, tt) | inr k ↦ simp (e, k) h ]
  | inr e ↦ simp (e) h
]

module _ (parts : Parts) (reader : ArgumentReader) where
  -- The token verifies, and its challenge is spent.
  abbrev pub IsUsed : Text → Manager → Type 0
  IsUsed token m = (p : Payload) × (verify parts.crypto token ≡ some p) × IsSpent p.challenge_id m

  consumed-IsUsed :
      (now : ℕ) (token : Text) (m : Manager) (c : ConsumedChallenge)
      → (authenticate_and_consume parts.crypto now token m).0 ≡ Confirmation.ok c
      → IsUsed token (authenticate_and_consume parts.crypto now token m).1
  consumed-IsUsed now token m c e =
      let v = authenticate_and_consume-verify parts.crypto now token m c e in
      (v.0, v.1, consume-IsSpent parts.crypto now token v.0 m c v.1 e)

  used-refused :
      (now : ℕ) (token : Text) (m : Manager) (c : ConsumedChallenge)
      → IsUsed token m
      → (authenticate_and_consume parts.crypto now token m).0 ≡ Confirmation.ok c
      → ⊥
  used-refused now token m c (p, v, h) e =
      elim (authenticate_and_consume-IsRefused parts.crypto now token p m v h) [
        | inl k ↦ ground (arith, e, k)
        | inr k ↦ ground (arith, e, k)
      ]

  invalidated-IsUsed :
      (token : Text) (p : Payload)
      → verify parts.crypto token ≡ some p
      → (m : Manager) → IsUsed token (invalidate_all m)
  unfolding invalidate_all
  invalidated-IsUsed token p v m = (p, v, tt)

  -- The consumption of the one token is that of the other.
  consumes_at :
      (now : ℕ) (token t : Text) (m : Manager) (c : ConsumedChallenge)
      → some token ≡ some t
      → (authenticate_and_consume parts.crypto now t m).0 ≡ Confirmation.ok c
      → (authenticate_and_consume parts.crypto now token m).0 ≡ Confirmation.ok c
  consumes_at now token t m c h e = same (ground (arith, h))
    where
      same : token ≡ t → (authenticate_and_consume parts.crypto now token m).0 ≡ Confirmation.ok c
      same k = (λ i. (authenticate_and_consume parts.crypto now (k i) m).0) ∙ e

  approve_call-consumes :
      (i : IssueDraws parts reader) (d : ConfirmDraws) (a : ApprovalArguments) (token : Text)
      (s : Service)
      → IsConfirmedApproval parts reader d a
          (some token)
          s
          (approve_call parts reader i d a (some token) s)
      → (c : ConsumedChallenge) × ((authenticate_and_consume parts.crypto d.now token s.manager).0
          ≡ Confirmation.ok c)
        × (s.enabled ≡ true)
        × (s.healthy ≡ true)
  approve_call-consumes i d a token s (t, e, on, well, (c, q, g, event, (w, x, y, z))) =
      (c.consumed, consumes_at d.now token t s.manager c.consumed e (w.confirms).consumes, on, well)

  approve_call-IsUsed :
      (i : IssueDraws parts reader) (d : ConfirmDraws) (a : ApprovalArguments) (token : Text)
      (s : Service)
      → IsConfirmedApproval parts reader d a
          (some token)
          s
          (approve_call parts reader i d a (some token) s)
      → IsUsed token (approve_call parts reader i d a (some token) s).1.manager
  unfolding approve_call
  approve_call-IsUsed i d a token s h =
      let (c, e, on, well) = approve_call-consumes i d a token s h in
      let used = consumed-IsUsed d.now token s.manager c e in
      rw (active_starts (confirm_approval parts reader d a (some token)) s on well) (
        confirm_approval-manager parts reader (IsUsed token)
          (invalidated-IsUsed token used.0 used.1) d a token s used)

  revoke_call-consumes :
      (i : IssueDraws parts reader) (d : ConfirmDraws) (a : RevokeArguments) (token : Text)
      (s : Service)
      → IsConfirmedRevocation parts reader d a
          (some token)
          s
          (revoke_call parts reader i d a (some token) s)
      → (c : ConsumedChallenge) × ((authenticate_and_consume parts.crypto d.now token s.manager).0
          ≡ Confirmation.ok c)
        × (s.enabled ≡ true)
        × (s.healthy ≡ true)
  revoke_call-consumes i d a token s (t, e, on, well, (c, q, g, event, (w, x, y, z, u))) =
      (c.consumed, consumes_at d.now token t s.manager c.consumed e (w.confirms).consumes, on, well)

  revoke_call-IsUsed :
      (i : IssueDraws parts reader) (d : ConfirmDraws) (a : RevokeArguments) (token : Text)
      (s : Service)
      → IsConfirmedRevocation parts reader d a
          (some token)
          s
          (revoke_call parts reader i d a (some token) s)
      → IsUsed token (revoke_call parts reader i d a (some token) s).1.manager
  unfolding revoke_call
  revoke_call-IsUsed i d a token s h =
      let (c, e, on, well) = revoke_call-consumes i d a token s h in
      let used = consumed-IsUsed d.now token s.manager c e in
      rw (active_starts (confirm_revoke parts reader d a (some token)) s on well) (
        confirm_revoke-manager parts reader (IsUsed token) (invalidated-IsUsed token used.0 used.1)
          d a token s used)

  recovered_by-parts :
      (s : Service) (o : Checked RecoveryResult × Journal)
      → ((recovered_by parts s o).1.store ≡ s.store)
        × ((recovered_by parts s o).1.manager ≡ s.manager)
  recovered_by-parts s (ok r, j) = (refl, refl)
  recovered_by-parts s (err e, j) = (refl, refl)

  pub recover_startup-parts :
      (s : Service)
      → ((recover_startup parts s).1.store ≡ s.store)
        × ((recover_startup parts s).1.manager ≡ s.manager)
  unfolding recover_startup
  recover_startup-parts s = elim (Bool-cases s.enabled) [
    | inl e ↦ simp (e) (
        recovered_by-parts s (
          verify_and_recover parts.keyed parts.limits parts.state_digest (λ st. st)
            (parts.fresh s.drawn) (some (parts.store_bytes s.store)) s.journal))
    | inr e ↦ simp (e) (refl, refl)
  ]

  pub record_registration_state-IsQuiet : (id : Text) → IsQuiet (record_registration_state parts id)
  unfolding record_registration_state
  record_registration_state-IsQuiet id = bind-IsQuiet _ _ ensure_active-IsQuiet (λ u.
      bind-IsQuiet _ _ (new_uuid-IsQuiet parts id) (λ operation_id. record_audit-IsQuiet parts _ _))

  pub record_registration_state-Keeps :
      (R : Manager → Type 0) (id : Text) → Keeps R (record_registration_state parts id)
  unfolding record_registration_state
  record_registration_state-Keeps R id = bind-Keeps R _ _ (ensure_active-Keeps R) (λ u.
      bind-Keeps R _ _ (new_uuid-Keeps R parts id) (λ operation_id. record_audit-Keeps R parts _ _))

  -- A call that has a token and changes the store uses the token up.
  pub call-IsUsed :
      (c : Call parts reader) (token : Text) (s : Service)
      → token_of parts reader c ≡ some token
      → (call parts reader c s).store ≢ s.store
      → IsUsed token (call parts reader c s).manager
  call-IsUsed (approving i d a none) token s h n = absurd (ground (arith, h))
  call-IsUsed (approving i d a (some t)) token s h n = used (ground (arith, h))
    where
      used : token ≡ t → IsUsed token (approve_call parts reader i d a (some t) s).1.manager
      used k = rw (k) (elim (approve_call-IsConfirmedApproval parts reader i d a (some t) s) [
        | inl e ↦ absurd (n e)
        | inr w ↦ approve_call-IsUsed i d a t s w
      ])
  call-IsUsed (revoking i d a none) token s h n = absurd (ground (arith, h))
  call-IsUsed (revoking i d a (some t)) token s h n = used (ground (arith, h))
    where
      used : token ≡ t → IsUsed token (revoke_call parts reader i d a (some t) s).1.manager
      used k = rw (k) (elim (revoke_call-IsConfirmedRevocation parts reader i d a (some t) s) [
        | inl e ↦ absurd (n e)
        | inr w ↦ revoke_call-IsUsed i d a t s w
      ])
  call-IsUsed (registering id) token s h n = absurd (ground (arith, h))
  call-IsUsed recovering token s h n = absurd (ground (arith, h))

  -- A call whose token is used up leaves the store.
  pub used-store :
      (c : Call parts reader) (token : Text) (s : Service)
      → token_of parts reader c ≡ some token
      → IsUsed token s.manager
      → (call parts reader c s).store ≡ s.store
  used-store (approving i d a none) token s h u = absurd (ground (arith, h))
  used-store (approving i d a (some t)) token s h u = unchanged (ground (arith, h))
    where
      unchanged : t ≡ token → (approve_call parts reader i d a (some t) s).1.store ≡ s.store
      unchanged k = elim (approve_call-IsConfirmedApproval parts reader i d a (some t) s) [
        | inl e ↦ e
        | inr w ↦
            let consumes = approve_call-consumes i d a t s w in
            absurd (used-refused d.now t s.manager consumes.0 (rw (k) u) consumes.1)
      ]
  used-store (revoking i d a none) token s h u = absurd (ground (arith, h))
  used-store (revoking i d a (some t)) token s h u = unchanged (ground (arith, h))
    where
      unchanged : t ≡ token → (revoke_call parts reader i d a (some t) s).1.store ≡ s.store
      unchanged k = elim (revoke_call-IsConfirmedRevocation parts reader i d a (some t) s) [
        | inl e ↦ e
        | inr w ↦
            let consumes = revoke_call-consumes i d a t s w in
            absurd (used-refused d.now t s.manager consumes.0 (rw (k) u) consumes.1)
      ]
  used-store (registering id) token s h u = absurd (ground (arith, h))
  used-store recovering token s h u = absurd (ground (arith, h))
