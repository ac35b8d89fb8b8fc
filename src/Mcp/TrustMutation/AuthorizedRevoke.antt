-- ===== src/Mcp/TrustMutation/AuthorizedRevoke.antt =====
-- codex_preflight_mcp/trust_mutation.py: a call of revoke changes the store as its consumed challenge says.
use codex_preflight.Base.{
  ◌≡◌, ◌⊎◌, inl, inr, refl, sym, true, Option, none, some, Text, codes, Bool-cases, arith, nat_eq,
  list_eq,
}
use codex_preflight.Cache.TrustEntry.{TrustEntry}
use codex_preflight.Mcp.Action.{Outcome, returned}
use codex_preflight.Mcp.TrustMutation.Codes.{
  MutationError, plain, invalid_argument, entry_not_found,
}
use codex_preflight.Mcp.TrustMutation.Service.{Parts, Service, Binding}
use codex_preflight.Mcp.TrustMutation.Request.{
  ArgumentReader, RevokeArguments, RevokeRequest, validate_revoke_request,
}
use codex_preflight.Mcp.TrustMutation.Target.{RevokeTarget, deadline_of, derive_revoke_target}
use codex_preflight.Mcp.TrustMutation.Bound.{revoke_binding, same_binding_values}
use codex_preflight.Mcp.TrustMutation.Confirm.{issue_revoke, IssueDraws, required}
use codex_preflight.Mcp.TrustMutation.Consume.{ConfirmDraws, Confirmed}
use codex_preflight.Mcp.TrustMutation.Revoke.{
  RevokeReply, RevokeAgreed, expect_entry, agree_revoke, bound_entry, record_underived,
  revoke_agreed, confirm_valid_revoke, confirm_revoke, revoke_call,
}
use codex_preflight.Mcp.TrustMutation.Quiet.{
  EndsOr, Anything, IsQuiet, bind-EndsOr, on_error-Ends, lift-Ends, record_audit-IsQuiet,
}
use codex_preflight.Mcp.TrustMutation.Consumed.{IsConfirmed, consume-Ends, required-returned}
use codex_preflight.Mcp.TrustMutation.Bindings.{same_binding_values-equal}
use codex_preflight.Mcp.TrustMutation.Revoked.{IsAuthorizedRevoke, IsRevocation, mutated-EndsOr}
use codex_preflight.Mcp.TrustMutation.Unconfirmed.{
  ensure_active-starts, issue_revoke-IsNever, checked-IsRaisedBy,
}

module _ (parts : Parts) (reader : ArgumentReader) (d : ConfirmDraws) (a : RevokeArguments)
    (token : Text) where
  -- What the comparison with the binding gives.
  abbrev Agrees : Confirmed → RevokeRequest → RevokeTarget → RevokeAgreed → Type 0
  Agrees c q u g =
      (g.target ≡ u)
      × (c.binding ≡ revoke_binding parts q g.target c.binding.operation_id)
      × (g.expected ≡ g.target.entry)

  expect_entry-agreed :
      (c : Confirmed) (q : RevokeRequest) (u : RevokeTarget) (found : Option TrustEntry)
      (g : RevokeAgreed)
      → c.binding ≡ revoke_binding parts q u c.binding.operation_id
      → some u.entry ≡ found
      → expect_entry parts reader c.binding u found ≡ returned g
      → Agrees c q u g
  expect_entry-agreed c q u none g b f h = absurd (ground (arith, h))
  expect_entry-agreed c q u (some e) g b f h = agreed (ground (arith, h))
    where
      agreed : record { target = u; expected = e } ≡ g → Agrees c q u g
      agreed k = rw⁻¹ (k) (refl, b, ground (arith, f))

  binding-entry :
      (q : RevokeRequest) (u : RevokeTarget) (b : Binding)
      → b ≡ revoke_binding parts q u b.operation_id
      → some u.entry ≡ b.expected_entry
  unfolding revoke_binding
  binding-entry q u b h = λ i. (sym h i).expected_entry

  agree_revoke-returned :
      (c : Confirmed) (q : RevokeRequest) (u : RevokeTarget) (g : RevokeAgreed)
      → agree_revoke parts reader c.binding q u ≡ returned g
      → Agrees c q u g
  agree_revoke-returned c q u g h =
      elim (Bool-cases
        (same_binding_values c.binding (revoke_binding parts q u c.binding.operation_id))) [
          | inl b ↦
              let same =
                same_binding_values-equal c.binding
                  (revoke_binding parts q u c.binding.operation_id) b in
              expect_entry-agreed c q u c.binding.expected_entry g same
                (binding-entry q u c.binding same) (ground (arith, h, b))
          | inr b ↦ absurd (ground (arith, h, b))
        ]

  record_underived-IsQuiet :
      (c : Confirmed) (entry_id : Text) (e : MutationError)
      → IsQuiet (record_underived parts reader c entry_id e)
  record_underived-IsQuiet c entry_id (plain entry_not_found) = record_audit-IsQuiet parts _ _
  record_underived-IsQuiet c entry_id e = record_audit-IsQuiet parts _ _

  revoke_agreed-EndsOr :
      (s t : Service) (c : Confirmed) (q : RevokeRequest) (g : RevokeAgreed)
      → t.store ≡ s.store
      → IsAuthorizedRevoke parts reader d a token s c q g
      → EndsOr s.store (IsRevocation parts reader d a token s) (revoke_agreed parts reader d c g t)
  unfolding revoke_agreed
  revoke_agreed-EndsOr s t c q g h w =
      bind-EndsOr s.store (λ id. c.binding.entry_id ≡ id) (IsRevocation parts reader d a token s) _
        _ t (lift-Ends s.store _ (bound_entry parts reader c) t h (λ id e. bound_entry-id c id e))
        (λ id u k e. rw⁻¹ (e) (mutated-EndsOr parts reader d a token s u c q g k w))
    where
      bound_entry-id :
          (c : Confirmed) (id : Text)
          → bound_entry parts reader c ≡ returned id
          → c.binding.entry_id ≡ id
      bound_entry-id c id e = elim (Bool-cases (parts.library.is_uuid4 c.binding.entry_id)) [
        | inl b ↦ ground (arith, e, b)
        | inr b ↦ absurd (ground (arith, e, b))
      ]

  confirm_valid_revoke-EndsOr :
      (s t : Service) (c : Confirmed) (q : RevokeRequest)
      → t.store ≡ s.store
      → IsConfirmed parts d.now (codes "revoke") token s.manager c
      → validate_revoke_request parts.library reader a ≡ some q
      → EndsOr s.store
          (IsRevocation parts reader d a token s)
          (confirm_valid_revoke parts reader d c q t)
  confirm_valid_revoke-EndsOr s t c q h confirms validates =
      bind-EndsOr s.store Anything (IsRevocation parts reader d a token s) _ _ t
        (lift-Ends s.store Anything (deadline_of d.monotonic) t h (λ u e. tt))
        (λ deadline t1 h1 x.
          bind-EndsOr s.store
            (λ u. derive_revoke_target parts deadline d.reading q s.store ≡ returned u)
            (IsRevocation parts reader d a token s) _ _ t1
            (on_error-Ends s.store _ _ _ t1
              (lift-Ends s.store _ (derive_revoke_target parts deadline d.reading q t1.store) t1 h1
                (λ u e. rw⁻¹ (h1) e))
              (record_underived-IsQuiet c q.entry_id))
            (λ u t2 h2 derives.
              bind-EndsOr s.store (Agrees c q u) (IsRevocation parts reader d a token s) _ _ t2
                (on_error-Ends s.store (Agrees c q u) _ _ t2
                  (lift-Ends s.store (Agrees c q u) (agree_revoke parts reader c.binding q u) t2 h2
                    (agree_revoke-returned c q u))
                  (λ e. record_audit-IsQuiet parts _ _))
                (λ g t3 h3 agrees. revoke_agreed-EndsOr s t3 c q g h3 (record {
                  deadline = deadline;
                  confirms = confirms;
                  validates = validates;
                  derives = rw (agrees.0) derives;
                  binds = agrees.1;
                  expects = agrees.2;
                }))))

  confirm_revoke-EndsOr :
      (s : Service)
      → EndsOr s.store
          (IsRevocation parts reader d a token s)
          (confirm_revoke parts reader d a (some token) s)
  unfolding confirm_revoke
  confirm_revoke-EndsOr s =
      bind-EndsOr s.store (IsConfirmed parts d.now (codes "revoke") token s.manager)
        (IsRevocation parts reader d a token s) _ _ s
        (consume-Ends parts d.now (codes "revoke") token s)
        (λ c t h confirms.
          bind-EndsOr s.store (λ q. validate_revoke_request parts.library reader a ≡ some q)
            (IsRevocation parts reader d a token s) _ _ t
            (on_error-Ends s.store _ _ _ t
              (lift-Ends s.store _
                (required invalid_argument (validate_revoke_request parts.library reader a)) t h
                (λ q e. required-returned invalid_argument _ q e))
              (λ e. record_audit-IsQuiet parts _ _))
            (λ q u k validates. confirm_valid_revoke-EndsOr s u c q k confirms validates))

-- A confirmed revocation, by the token of the call.
abbrev pub IsConfirmedRevocation :
    (parts : Parts)
    → ArgumentReader
    → ConfirmDraws
    → RevokeArguments
    → Option Text
    → Service
    → Outcome MutationError RevokeReply × Service
    → Type 0
IsConfirmedRevocation parts reader d a token s o =
    (t : Text) × (token ≡ some t)
    × (s.enabled ≡ true)
    × (s.healthy ≡ true)
    × IsRevocation parts reader d a t s o

-- A call of trust_revoke leaves the trust store as it was, or all of the following hold: it has a token and
-- the service was enabled and healthy; this call consumed the token's challenge, whose binding is for revoke
-- and is that of the request and the live entry that the call derived from its arguments and the store; the
-- bound entry is the live one of its id, and the store is the old one without it; prepare_mutation had
-- accepted that change, at some state of the log; and the call returned the entry's id, or left the
-- service unhealthy and raised that the audit is pending or that the write failed, which it can behind
-- the replacement of the file.
pub revoke_call-IsConfirmedRevocation :
    (parts : Parts) (reader : ArgumentReader) (i : IssueDraws parts reader) (d : ConfirmDraws)
    (a : RevokeArguments) (token : Option Text) (s : Service)
    → let o = revoke_call parts reader i d a token s in
      (o.1.store ≡ s.store) ⊎ IsConfirmedRevocation parts reader d a token s o
unfolding revoke_call
revoke_call-IsConfirmedRevocation parts reader i d a none s =
    let (e, t, raises, ends, h) =
      checked-IsRaisedBy (issue_revoke parts reader i a) (λ u. confirm_revoke parts reader d a none)
        s (issue_revoke-IsNever parts reader i a) in
    inl (rw (ends) h)
revoke_call-IsConfirmedRevocation parts reader i d a (some token) s =
    ensure_active-starts
      (λ o. (o.1.store ≡ s.store) ⊎ IsConfirmedRevocation parts reader d a (some token) s o)
      (confirm_revoke parts reader d a (some token)) s (λ e. inl refl)
      (λ e h. elim (confirm_revoke-EndsOr parts reader d a token s) [
        | inl k ↦ inl k
        | inr k ↦ inr (token, refl, e, h, k)
      ])
